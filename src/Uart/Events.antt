-- ===== src/Uart/Events.antt =====
-- What happens to a UART in operation: its interrupt, its producer, and the calls that set its queues.
use libos.Prelude.{ℕ, Bool, false, Option, some, none, List, [], ◌∷◌, ◌>>=◌, ◌≡◌, ◌⊎◌, not, bit_and}
use libos.Queue.{Queue, writechar, empty}
use libos.Queue.Facts.{IsValid}
use libos.Uart.{Uart, isr, tx_callback, set_tx_queue, set_rx_queue, ier_ethrei}

-- `interrupt` has what IIR and LSR read, whether the transmitter is empty, and the bytes that came in. `put` is
-- a producer that adds a byte to the transmit queue and tells the consumer, which is `ns16550_tx_callback`.
pub data Event : Type 0 where
  interrupt : ℕ → ℕ → Bool → List ℕ → Event
  put : ℕ → Bool → Event
  set_tx : Option Queue → Event
  set_rx : Option Queue → Event

unfoldable pub put_byte : Option Queue → ℕ → Bool → Uart → Option Uart
put_byte none c ready u = some u
put_byte (some q) c ready u = do
  (r, q') ← writechar q c
  (u', q'') ← tx_callback ready u q'
  some (record u' { tx = some q'' })

-- `produce` is the callback of the transmit queue's producer.
module _ (self callback : ℕ) (produce : Queue → Queue) where
  unfoldable pub step : Event → Uart → Option Uart
  step (interrupt iir lsr ready received) u = do
    (u', served) ← isr iir lsr ready produce received u
    some u'
  step (put c ready) u = put_byte u.tx c ready u
  step (set_tx wanted) u = some (set_tx_queue self callback u wanted).1.0
  step (set_rx wanted) u = some (set_rx_queue u wanted).1

  unfoldable pub run : List Event → Uart → Option Uart
  run [] u = some u
  run (e ∷ events) u = do u' ← step e u; run events u'

-- Bytes are waiting to be transmitted.
abbrev pub waiting : Option Queue → Bool
waiting none = false
waiting (some q) = not (empty q)

abbrev pub EthreiOn : ℕ → Type 0
EthreiOn ier = bit_and ier ier_ethrei ≡ ier_ethrei

abbrev pub ValidQueue : Option Queue → Type 0
ValidQueue none = Unit {0}
ValidQueue (some q) = IsValid q

-- No byte waits without the interrupt that will send it, and the queues are well formed.
pub record IsServed (u : Uart) : Type 0 where
  pub enabled : (waiting u.tx ≡ false) ⊎ EthreiOn u.ier
  pub tx_queue : ValidQueue u.tx
  pub rx_queue : ValidQueue u.rx

-- A queue that is handed over is well formed.
abbrev pub Proper : Event → Type 0
Proper (interrupt iir lsr ready received) = Unit {0}
Proper (put c ready) = Unit {0}
Proper (set_tx wanted) = ValidQueue wanted
Proper (set_rx wanted) = ValidQueue wanted

abbrev pub AllProper : List Event → Type 0
AllProper [] = Unit {0}
AllProper (e ∷ events) = Proper e × AllProper events
