-- ===== src/Uart/Tests.antt =====
-- Runs of the UART's operations.
use libos.Prelude.{◌≡◌, ◌≤◌, refl, inl, arith, true, false, some, none, [], ◌∷◌}
use libos.Queue.{Queue}
use libos.Queue.Facts.{IsValid}
use libos.Queue.View.{contents}
use libos.Uart.{Uart, tx_callback, receive, tx, tx_loop, fill_fifo, clear_ier, ier_ethrei}
use libos.Uart.Send.{sending, tx_callback-sending}
use libos.Uart.Receive.{counting, receive-queued}
use libos.Uart.Polling.{polls_of, capacity, tx-sending}
use libos.Uart.Prefix.{tx-prefix}
use libos.Uart.Events.{interrupt, put, set_tx, run, IsServed}
use libos.Uart.Sound.{run-IsServed}

-- A queue of four places, with two bytes.
abbrev two_bytes : Queue
two_bytes = record {
  buf = 7 ∷ 8 ∷ 0 ∷ 0 ∷ [];
  head = 0;
  tail = 2;
  size = 4;
  data_avail = 0;
  consumer = 0;
  space_avail = 0;
  producer = 0;
}

two_bytes-IsValid : IsValid two_bytes
two_bytes-IsValid = record {
  order = (2, refl);
  small = omega arith;
  storage = omega arith;
  head_in = omega arith;
  tail_in = omega arith;
}

abbrev device : Uart
device = record {
  tx = none;
  rx = some two_bytes;
  has_irq = true;
  txfifo = 16;
  tx_counter = 0;
  rx_counter = 0;
  err_counter = 0;
  ier = 0;
  sent = [];
}

device-IsServed : IsServed device
device-IsServed = record { enabled = inl refl; tx_queue = tt; rx_queue = two_bytes-IsValid }

tx_callback-sending_example :
    (q' : Queue) × (tx_callback true device two_bytes
      ≡ some (clear_ier (sending device (7 ∷ 8 ∷ [])) ier_ethrei, q'))
    × IsValid q'
    × (contents q' ≡ [])
tx_callback-sending_example = tx_callback-sending device two_bytes two_bytes-IsValid

receive-queued_example :
    (q' : Queue) × (receive (1 ∷ 2 ∷ []) device
      ≡ some (record (counting device 2 1) { rx = some q' }, true))
    × IsValid q'
    × (contents q' ≡ 7 ∷ 8 ∷ 1 ∷ [])
receive-queued_example = receive-queued (1 ∷ 2 ∷ []) device two_bytes two_bytes-IsValid refl

tx-sending_example :
    tx (polls_of ((2, true) ∷ (0, false) ∷ [])) true device (5 ∷ 6 ∷ []) 2
    ≡ some (sending device (5 ∷ 6 ∷ []), 2)
unfolding polls_of capacity
tx-sending_example =
    tx-sending ((2, true) ∷ (0, false) ∷ []) device (5 ∷ 6 ∷ []) (omega arith) (omega arith)

-- The transmitter takes one byte, then it is not ready.
abbrev slow : Uart
slow = record device { txfifo = 1 }

tx-prefix_example : (1 ≤ 2) × (sending slow (5 ∷ []) ≡ sending slow (5 ∷ []))
unfolding tx tx_loop fill_fifo
tx-prefix_example =
    tx-prefix (true ∷ true ∷ false ∷ []) false slow (5 ∷ 6 ∷ []) (sending slow (5 ∷ [])) 1 refl

run-IsServed_example :
    (u' : Uart) × (run 1 2
        (λ q. q)
        (set_tx (some two_bytes) ∷ put 9 false ∷ interrupt 2 0 true [] ∷ [])
        device
      ≡ some u')
    × IsServed u'
run-IsServed_example =
    run-IsServed 1 2 (λ q. q) (λ q v. v)
      (set_tx (some two_bytes) ∷ put 9 false ∷ interrupt 2 0 true [] ∷ []) device device-IsServed
      (two_bytes-IsValid, (tt, (tt, tt)))
