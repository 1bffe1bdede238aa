-- ===== src/Uart.antt =====
-- lib/dev/ns16550.c: the UART. What the hardware decides is an argument: whether the transmitter is empty
-- where LSR is read, and the bytes that have come in. Locks are left out: one context runs at a time.
pub mod Send
pub mod Receive
pub mod Round
pub mod Polling
pub mod Prefix
pub mod Setup
pub mod Events
pub mod Enable
pub mod Sound
pub mod Tests
use libos.Prelude.{
  ℕ, zero, suc, ◌+◌, ◌-◌, ◌*◌, ◌/◌, ◌%◌, ◌^◌, Bool, true, false, Option, some, none, List, [], ◌∷◌,
  ◌++◌, ltb, leb, not, ◌==◌, ◌&&◌, ◌||◌, if◌then◌else◌, ◌>>=◌, bit_and, bit_or, get_elem?, length,
}
use libos.Errors.{Error, Result, ok, err, invalid, busy}
use libos.Queue.{Queue, readchar, writechar, empty, notify_producer}

-- `ns16550`, with the register IER, and the bytes that were written to THR, oldest first. `tx` and `rx` are
-- the queues of its `chardev_t`.
pub record Uart : Type 0 where
  pub tx : Option Queue
  pub rx : Option Queue
  pub has_irq : Bool
  pub txfifo : ℕ
  pub tx_counter : ℕ
  pub rx_counter : ℕ
  pub err_counter : ℕ
  pub ier : ℕ
  pub sent : List ℕ

-- IER is a byte.
abbrev pub ier_erdai : ℕ
ier_erdai = 1

abbrev pub ier_ethrei : ℕ
ier_ethrei = 2

abbrev pub set_ier : Uart → ℕ → Uart
set_ier u bit = record u { ier = bit_or u.ier bit }

abbrev pub clear_ier : Uart → ℕ → Uart
clear_ier u bit = record u { ier = bit_and u.ier (2 ^ 8 - 1 - bit) }

abbrev pub put_thr : Uart → ℕ → Uart
put_thr u c = record u { sent = u.sent ++ (c ∷ []); tx_counter = u.tx_counter + 1 }

-- The loop of `__ns16550_tx_callback`, and whether it ran out of bytes.
unfoldable pub send_loop : ℕ → Uart → Queue → Option (Uart × (Queue × Bool))
send_loop zero u q = some (u, (q, false))
send_loop (suc left) u q = do
  (r, q') ← readchar q false
  elim r [ err e ↦ some (u, (q', true)) | ok c ↦ send_loop left (put_thr u c) q' ]

-- `__ns16550_tx_callback`, for its queue.
unfoldable pub tx_callback : Bool → Uart → Queue → Option (Uart × Queue)
tx_callback ready u q =
    if ready
    then (do
      (u', rest) ← send_loop u.txfifo u q
      some (if rest.1 then clear_ier u' ier_ethrei else set_ier u' ier_ethrei, rest.0))
    else some (set_ier u ier_ethrei, q)

-- The loop of `ns16550_isr` over the bytes that come in before LSR says that there are no more. The Boolean
-- is `rx_notify`.
unfoldable pub receive_loop : List ℕ → Uart → Queue → Bool → Option (Uart × (Queue × Bool))
receive_loop [] u q notify = some (u, (q, notify))
receive_loop (c ∷ received) u q notify = do
  (r, q') ← writechar q c
  elim r [
    | err e ↦
        receive_loop received
          (record u { rx_counter = u.rx_counter + 1; err_counter = u.err_counter + 1 }) q' notify
    | ok x ↦ receive_loop received (record u { rx_counter = u.rx_counter + 1 }) q' true
  ]

-- The same without a queue.
abbrev pub drop_received : List ℕ → Uart → Uart
drop_received received u = record u {
  rx_counter = u.rx_counter + length received;
  err_counter = u.err_counter + length received;
}

unfoldable pub receive_from : Option Queue → List ℕ → Uart → Option (Uart × Bool)
receive_from none received u = some (drop_received received u, false)
receive_from (some q) received u = do
  (u', rest) ← receive_loop received u q false
  some (record u' { rx = some rest.0 }, rest.1)

unfoldable pub receive : List ℕ → Uart → Option (Uart × Bool)
receive received u = receive_from u.rx received u

abbrev pub count_if : Bool → Uart → Uart
count_if b u = if b then record u { err_counter = u.err_counter + 1 } else u

-- A receiver line status error. The two bits are those of the header.
unfoldable pub line_status : ℕ → Uart → Uart
line_status lsr u =
    count_if (not (bit_and lsr 0x80 == 0)) (count_if (not (bit_and lsr 0x20 == 0)) u)

-- The producer's callback, where there is one: `produce` is what it does to the queue.
abbrev pub notified : (Queue → Queue) → Queue → Queue
notified produce q = elim (notify_producer q) [ none ↦ q | some callback ↦ produce q ]

-- `tx_notify`: the producer is told, and the interrupt is wanted as long as bytes are left.
unfoldable pub transmit_from : Option Queue → Bool → (Queue → Queue) → Uart → Option (Uart × Bool)
transmit_from none ready produce u = some (u, false)
transmit_from (some q) ready produce u = do
  (u', q') ← tx_callback ready u q
  let q'' = notified produce q'
  let u'' = if not (empty q'') then set_ier u' ier_ethrei else u'
  some (record u'' { tx = some q'' }, true)

unfoldable pub transmit : Bool → (Queue → Queue) → Uart → Option (Uart × Bool)
transmit ready produce u = transmit_from u.tx ready produce u

-- What `ns16550_isr` returns: -1 when the interrupt is not its own, else whether the consumer of the received
-- bytes is notified last, and whether the producer was.
pub record Served : Type 0 where
  pub own : Bool
  pub rx_notify : Bool
  pub tx_notify : Bool

abbrev pub iid : ℕ → ℕ
iid iir = bit_and iir 0x0e

unfoldable pub isr : ℕ → ℕ → Bool → (Queue → Queue) → List ℕ → Uart → Option (Uart × Served)
isr iir lsr ready produce received u =
    if not (bit_and iir 0x01 == 0)
    then some (u, record { own = false; rx_notify = false; tx_notify = false })
    else if iid iir == 0x06
    then some (line_status lsr u, record { own = true; rx_notify = false; tx_notify = false })
    else if iid iir == 0x04 || iid iir == 0x0c
    then (do
      (u', notify) ← receive received u
      some (u', record { own = true; rx_notify = notify; tx_notify = false }))
    else if iid iir == 0x02
    then (do
      (u', notify) ← transmit ready produce u
      some (u', record { own = true; rx_notify = false; tx_notify = notify }))
    else some (u, record { own = true; rx_notify = false; tx_notify = false })

-- `ns16550_set_tx_queue`. `self` and `callback` are the addresses of the device and of `ns16550_tx_callback`.
-- The queue that the device no longer has is returned as it is left.
unfoldable pub attach_tx : ℕ → ℕ → Uart → Queue → Uart
attach_tx self callback u q =
    let u' = record u { tx = some (record q { consumer = self; data_avail = callback }) } in
    if not (empty q) then set_ier u' ier_ethrei else u'

-- With a lock held: what is wanted, and what the device has.
unfoldable pub change_tx :
    ℕ → ℕ → Uart → Option Queue → Option Queue → Result (Unit {0}) × (Uart × Option Queue)
change_tx self callback u (some q) (some old) = (err busy, (u, none))
change_tx self callback u (some q) none = (ok tt, (attach_tx self callback u q, none))
change_tx self callback u none (some old) = (
  ok tt,
  (
    record (clear_ier u ier_ethrei) { tx = none },
    some (record old { data_avail = 0; consumer = 0 }),
  ),
)
change_tx self callback u none none = (ok tt, (u, none))

unfoldable pub set_tx_queue :
    ℕ → ℕ → Uart → Option Queue → Result (Unit {0}) × (Uart × Option Queue)
set_tx_queue self callback u wanted =
    if not u.has_irq then (err invalid, (u, none)) else change_tx self callback u wanted u.tx

-- `ns16550_set_rx_queue`.
unfoldable pub change_rx : Uart → Option Queue → Option Queue → Result (Unit {0}) × Uart
change_rx u (some q) (some old) = (err busy, u)
change_rx u (some q) none = (ok tt, set_ier (record u { rx = some q }) ier_erdai)
change_rx u none held = (ok tt, clear_ier (record u { rx = none }) ier_erdai)

unfoldable pub set_rx_queue : Uart → Option Queue → Result (Unit {0}) × Uart
set_rx_queue u wanted = if not u.has_irq then (err invalid, u) else change_rx u wanted u.rx

-- The inner loop of `ns16550_tx`: up to `left` bytes of `buf` from place `ret` on.
unfoldable pub fill_fifo : ℕ → Uart → List ℕ → ℕ → ℕ → Option (Uart × ℕ)
fill_fifo zero u buf count ret = some (u, ret)
fill_fifo (suc left) u buf count ret =
    if ltb ret count
    then (do c ← get_elem? buf ret; fill_fifo left (put_thr u c) buf count (ret + 1))
    else some (u, ret)

-- `ns16550_tx`, with what LSR says each time that it is read. `none` is an access outside `buf`, or the end
-- of what is said before the function returns.
unfoldable pub tx_loop : List Bool → Bool → Uart → List ℕ → ℕ → ℕ → Option (Uart × ℕ)
tx_loop [] blocking u buf count ret = none
tx_loop (true ∷ []) blocking u buf count ret = none
tx_loop (false ∷ polls) blocking u buf count ret =
    let again = tx_loop polls blocking u buf count ret in if blocking then again else some (u, ret)
tx_loop (true ∷ ready ∷ polls) blocking u buf count ret =
    elim (fill_fifo (if ready then u.txfifo else 0) u buf count ret) [
      | none ↦ none
      | some next ↦ elim (ltb next.1 count) [
        | true ↦ tx_loop polls blocking next.0 buf count next.1
        | false ↦ some next
      ]
    ]

unfoldable pub tx : List Bool → Bool → Uart → List ℕ → ℕ → Option (Uart × ℕ)
tx polls blocking u buf count = tx_loop polls blocking u buf count 0

-- The divisor that `ns16550_init` sets.
unfoldable pub divisor : ℕ → ℕ → ℕ
divisor baudclock baud = (baudclock + baud * 16 / 2) / (baud * 16)

-- The registers that `ns16550_init` writes, with their values, in order. `mcr` is what MCR reads.
unfoldable pub init_writes : ℕ → ℕ → ℕ → List (ℕ × ℕ)
init_writes baudclock baud mcr =
    let d = divisor baudclock baud in
    (3, 0x80)
    ∷ (1, bit_and (d / 2 ^ 8) 0xff)
    ∷ (0, bit_and d 0xff)
    ∷ (3, 0x03)
    ∷ (2, bit_or (bit_or 0x01 0x02) 0x04)
    ∷ (4, bit_or mcr 0x02)
    ∷ (1, 0)
    ∷ []

-- `ns16550_init`: `has_room` says whether the memory could be allocated, `registered` whether there is an
-- interrupt and it could be registered.
unfoldable pub init : Bool → ℕ → ℕ → ℕ → ℕ → Bool → Option (Uart × List (ℕ × ℕ))
init has_room baudclock txfifo baud mcr registered =
    if has_room
    then some (
      record {
        tx = none;
        rx = none;
        has_irq = registered;
        txfifo = txfifo;
        tx_counter = 0;
        rx_counter = 0;
        err_counter = 0;
        ier = 0;
        sent = [];
      },
      init_writes baudclock baud mcr,
    )
    else none
