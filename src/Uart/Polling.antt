-- ===== src/Uart/Polling.antt =====
-- A blocking call of `ns16550_tx` sends every byte, given that the transmitter becomes ready often enough.
use libos.Prelude.{
  take_all, drop-drop, ℕ, zero, suc, ◌+◌, ◌-◌, ◌≡◌, ◌≤◌, ◌<◌, refl, ap, ap₂, sym, ◌∙◌, arith, Bool,
  true, false, some, List, [], ◌∷◌, ◌++◌, length-drop, ltb, ltb→lt, length, take, drop, min,
  take-append-drop, replicate,
}
use libos.Uart.{Uart, tx_loop, tx}
use libos.Uart.Send.{sending}
use libos.Uart.Round.{ltb→le, sending_append, after_round, tx_round, tx_loop-ready}

-- One wait for the transmitter: the times that LSR is read before it is ready, and whether it still is when
-- it is read with the lock held.
abbrev pub Round : Type 0
Round = ℕ × Bool

-- What is read from LSR in these rounds.
unfoldable pub polls_of : List Round → List Bool
polls_of [] = []
polls_of ((waits, still) ∷ rounds) = replicate waits false ++ (true ∷ still ∷ polls_of rounds)

-- The bytes that a transmitter which takes `fifo` bytes takes in these rounds.
unfoldable pub capacity : ℕ → List Round → ℕ
capacity fifo [] = 0
capacity fifo ((waits, true) ∷ rounds) = fifo + capacity fifo rounds
capacity fifo ((waits, false) ∷ rounds) = capacity fifo rounds

tx_loop-waits :
    (waits : ℕ) (polls : List Bool) (u : Uart) (buf : List ℕ) (count ret : ℕ)
    → tx_loop (replicate waits false ++ polls) true u buf count ret
      ≡ tx_loop polls true u buf count ret
unfolding tx_loop
tx_loop-waits zero polls u buf count ret = refl
tx_loop-waits (suc n) polls u buf count ret = tx_loop-waits n polls u buf count ret

-- Such a round, where the rest is sent if the bytes left then allow it.
tx_round-all :
    (polls : List Bool) (n : ℕ) (u : Uart) (buf : List ℕ) (ret : ℕ)
    → ret ≤ length buf
    → ((u' : Uart) (at : ℕ)
        → at < length buf
        → at ≡ ret + n
        → u'.txfifo ≡ u.txfifo
        → tx_loop polls true u' buf (length buf) at ≡ some (sending u' (drop at buf), length buf))
    → tx_round polls true n u buf ret ≡ some (sending u (drop ret buf), length buf)
tx_round-all polls n u buf ret in_buf next =
    by_place (ltb (ret + min n (length buf - ret)) (length buf)) refl
  where
    by_place :
        (more : Bool)
        → ltb (ret + min n (length buf - ret)) (length buf) ≡ more
        → after_round more polls true n u buf ret ≡ some (sending u (drop ret buf), length buf)
    by_place true e =
        let inside : ret + min n (length buf - ret) < length buf = ltb→lt _ _ e in
        let place : ret + min n (length buf - ret) ≡ ret + n = omega arith in
        let both : take n (drop ret buf) ++ drop (ret + min n (length buf - ret)) buf
            ≡ drop ret buf =
          ap (λ l. take n (drop ret buf) ++ l)
            (ap (λ k. drop k buf) place ∙ sym (drop-drop ret n buf))
          ∙ take-append-drop n (drop ret buf) in
        next _ _ inside place refl
        ∙ ap (λ t. some (t, length buf)) (sending_append u _ _ ∙ ap (sending u) both)
    by_place false e =
        let outside : length buf ≤ ret + min n (length buf - ret) = ltb→le _ _ e in
        ap₂ (λ (l : List ℕ) (k : ℕ). some (sending u l, k))
          (take_all n (drop ret buf) (omega (arith, length-drop ret buf))) (omega arith)

tx_loop-rounds :
    (rounds : List Round) (u : Uart) (buf : List ℕ) (ret : ℕ)
    → ret ≤ length buf
    → length buf - ret ≤ capacity u.txfifo rounds
    → 0 < capacity u.txfifo rounds
    → tx_loop (polls_of rounds) true u buf (length buf) ret
      ≡ some (sending u (drop ret buf), length buf)
unfolding tx_loop polls_of capacity
tx_loop-rounds [] u buf ret in_buf enough pos = absurd (omega arith)
tx_loop-rounds ((waits, true) ∷ rounds) u buf ret in_buf enough pos =
    tx_loop-waits waits (true ∷ true ∷ polls_of rounds) u buf (length buf) ret
    ∙ tx_loop-ready true (polls_of rounds) true u buf ret
    ∙ tx_round-all (polls_of rounds) u.txfifo u buf ret in_buf (λ u' at inside place same.
      tx_loop-rounds rounds u' buf at (omega arith) (rw same (omega arith)) (rw same (omega arith)))
tx_loop-rounds ((waits, false) ∷ rounds) u buf ret in_buf enough pos =
    tx_loop-waits waits (true ∷ false ∷ polls_of rounds) u buf (length buf) ret
    ∙ tx_loop-ready false (polls_of rounds) true u buf ret
    ∙ tx_round-all (polls_of rounds) 0 u buf ret in_buf (λ u' at inside place same.
      tx_loop-rounds rounds u' buf at (omega arith) (rw same (omega arith)) (rw same (omega arith)))

-- A blocking call sends the whole buffer, in order, and returns its length, in every course of rounds in which
-- the transmitter takes as many bytes and at least one round is of use.
pub tx-sending :
    (rounds : List Round) (u : Uart) (buf : List ℕ)
    → length buf ≤ capacity u.txfifo rounds
    → 0 < capacity u.txfifo rounds
    → tx (polls_of rounds) true u buf (length buf) ≡ some (sending u buf, length buf)
unfolding tx
tx-sending rounds u buf enough pos = tx_loop-rounds rounds u buf 0 (omega arith) (omega arith) pos
