-- ===== src/Uart/Send.antt =====
-- What leaves the transmit queue is what is written to THR, in order.
use libos.Prelude.{
  ℕ, zero, suc, ◌+◌, ◌≡◌, refl, sym, ◌∙◌, arith, Bool, true, false, Option, some, List, [], ◌∷◌,
  ◌++◌, append-nil, append_assoc, ltb, if◌then◌else◌, length, take, drop, ap₂, subst, le→ltb,
  lt→ltb,
}
use libos.Queue.{Queue, readchar}
use libos.Queue.Facts.{IsValid}
use libos.Queue.View.{contents}
use libos.Queue.Chars.{readchar_refines}
use libos.Queue.Fifo
use libos.Uart.{Uart, put_thr, send_loop, tx_callback, set_ier, clear_ier, ier_ethrei}

-- The state after `bytes` were written.
abbrev pub sending : Uart → List ℕ → Uart
sending u bytes = record u { sent = u.sent ++ bytes; tx_counter = u.tx_counter + length bytes }

pub sending_nil : (u : Uart) → sending u [] ≡ u
sending_nil u = λ i. record u { sent = append-nil u.sent i; tx_counter = zero_add i }
  where
    zero_add : u.tx_counter + 0 ≡ u.tx_counter
    zero_add = omega arith

pub sending_cons :
    (u : Uart) (c : ℕ) (bytes : List ℕ) → sending (put_thr u c) bytes ≡ sending u (c ∷ bytes)
sending_cons u c bytes =
    λ i. record u { sent = append_assoc u.sent (c ∷ []) bytes i; tx_counter = moved i }
  where
    moved : u.tx_counter + 1 + length bytes ≡ u.tx_counter + suc (length bytes)
    moved = omega arith

-- What `readchar` finds where `xs` is held.
readchar_held :
    {q : Queue}
    → IsValid q
    → (xs : List ℕ) → contents q ≡ xs
    → let (r, rest) = Fifo.get_char xs false in
      (q' : Queue) × (readchar q false ≡ some (r, q'))
      × IsValid q'
      × (contents q' ≡ rest)
      × (q'.size ≡ q.size)
readchar_held {q} v xs e =
    subst
      (λ ys.
        let (r, rest) = Fifo.get_char ys false in
        (q' : Queue) × (readchar q false ≡ some (r, q'))
        × IsValid q'
        × (contents q' ≡ rest)
        × (q'.size ≡ q.size))
      e (readchar_refines false v)

-- That the loop writes the oldest of the bytes held, as many as there are and as the transmitter takes.
abbrev Sends : ℕ → Uart → Queue → List ℕ → Type 0
Sends left u q xs =
    (q' : Queue) × (send_loop left u q
      ≡ some (sending u (take left xs), (q', ltb (length xs) left)))
    × IsValid q'
    × (contents q' ≡ drop left xs)

send_loop_cons :
    (left : ℕ) (u : Uart) {q : Queue} (xs : List ℕ)
    → IsValid q
    → contents q ≡ xs
    → ((u' : Uart) (q' : Queue) → IsValid q' → Sends left u' q' (contents q'))
    → Sends (suc left) u q xs
unfolding send_loop Fifo.get_char
send_loop_cons left u [] v e next =
    let (q', e1, v', e2, s) = readchar_held v [] e in
    rw e1 (
      q',
      ap₂ (λ (x : Uart) (b : Bool). some (x, (q', b))) (sym (sending_nil u))
          (sym (lt→ltb 0 (suc left) (omega arith))),
      v',
      e2,
    )
send_loop_cons left u (x ∷ xs) v e next =
    let (q', e1, v', e2, s) = readchar_held v (x ∷ xs) e in
    let (q2, e3, v2, e4) = subst (Sends left (put_thr u x) q') e2 (next (put_thr u x) q' v') in
    rw e1 (
      q2,
      e3
          ∙ ap₂ (λ (y : Uart) (b : Bool). some (y, (q2, b))) (sending_cons u x (take left xs))
              (ground arith),
      v2,
      e4,
    )

pub send_loop_lem : (left : ℕ) (u : Uart) (q : Queue) → IsValid q → Sends left u q (contents q)
unfolding send_loop
send_loop_lem zero u q v = (q, ap₂ sent_all (sym (sending_nil u)) none_short, v, refl)
  where
    sent_all : Uart → Bool → Option (Uart × (Queue × Bool))
    sent_all u' b = some (u', (q, b))

    none_short : false ≡ ltb (length (contents q)) 0
    none_short = sym (le→ltb _ _ (omega arith))
send_loop_lem (suc left) u q v = send_loop_cons left u (contents q) v refl (send_loop_lem left)

-- Where the transmitter is empty, the callback writes the oldest bytes of the queue to it, in order, as many as
-- it takes; the rest stay in the queue. The interrupt is switched off when the queue ran out, else on.
pub tx_callback-sending :
    (u : Uart) (q : Queue)
    → IsValid q
    → let after = sending u (take u.txfifo (contents q)) in
      (q' : Queue) × (tx_callback true u q
        ≡ some (
          if ltb (length (contents q)) u.txfifo
              then clear_ier after ier_ethrei
              else set_ier after ier_ethrei,
          q',
        ))
      × IsValid q'
      × (contents q' ≡ drop u.txfifo (contents q))
unfolding tx_callback
tx_callback-sending u q v =
    let (q', e, v', held) = send_loop_lem u.txfifo u q v in rw e (q', refl, v', held)
