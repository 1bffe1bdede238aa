-- ===== src/Uart/Receive.antt =====
-- What becomes of the bytes that come in.
use libos.Prelude.{
  ℕ, zero, suc, ◌+◌, ◌-◌, ◌≡◌, ◌<◌, refl, ap, ap₂, sym, ◌∙◌, subst, arith, Bool, true, false, ◌||◌,
  Option, some, List, [], ◌∷◌, ◌++◌, append-nil, append_assoc, length-append, ltb, le→ltb, lt→ltb,
  if◌then◌else◌, ◌>>=◌, length, take, min, take-nil,
}
use libos.Errors.{Result, ok, err, busy}
use libos.Queue.{Queue, writechar}
use libos.Queue.Facts.{IsValid}
use libos.Queue.View.{contents}
use libos.Queue.Chars.{writechar_refines}
use libos.Queue.Fifo
use libos.Uart.{Uart, receive_loop, receive, receive_from}

-- The state after `n` bytes came in and `lost` of them found no room.
abbrev pub counting : Uart → ℕ → ℕ → Uart
counting u n lost = record u { rx_counter = u.rx_counter + n; err_counter = u.err_counter + lost }

counting_nil : (u : Uart) → counting u 0 0 ≡ u
counting_nil u =
    λ i. record u { rx_counter = zero_add u.rx_counter i; err_counter = zero_add u.err_counter i }
  where
    zero_add : (n : ℕ) → n + 0 ≡ n
    zero_add n = omega arith

counting-suc :
    (u : Uart) (n lost : ℕ)
    → counting (record u { rx_counter = u.rx_counter + 1 }) n lost ≡ counting u (suc n) lost
counting-suc u n lost = λ i. record u { rx_counter = shift i; err_counter = u.err_counter + lost }
  where
    shift : u.rx_counter + 1 + n ≡ u.rx_counter + suc n
    shift = omega arith

counting_lost :
    (u : Uart) (n lost : ℕ)
    → counting (record u { rx_counter = u.rx_counter + 1; err_counter = u.err_counter + 1 }) n lost
      ≡ counting u (suc n) (suc lost)
counting_lost u n lost =
    λ i. record u { rx_counter = shift u.rx_counter n i; err_counter = shift u.err_counter lost i }
  where
    shift : (a b : ℕ) → a + 1 + b ≡ a + suc b
    shift a b = omega arith

-- That of `received`, as many as `room` says are queued, in order, the others counted as lost, and that the
-- consumer is to be told if one was queued, or `notify`.
abbrev Receives : List ℕ → Uart → Queue → Bool → ℕ → Type 0
Receives received u q notify room =
    (q' : Queue) × (receive_loop received u q notify
      ≡ some (
        counting u (length received) (length received - room),
        (q', notify || ltb 0 (min room (length received))),
      ))
    × IsValid q'
    × (contents q' ≡ contents q ++ take room received)
    × (q'.size ≡ q.size)

abbrev pub room_in : Queue → ℕ
room_in q = q.size - 1 - length (contents q)

abbrev returned : Queue → Uart → Bool → Option (Uart × (Queue × Bool))
returned q u b = some (u, (q, b))

-- `writechar` where there is room, or not.
abbrev queued : Bool → List ℕ → ℕ → Result (Unit {0}) × List ℕ
queued room xs c = if room then (ok tt, xs ++ (c ∷ [])) else (err busy, xs)

abbrev Writes : Queue → ℕ → Bool → Type 0
Writes q c room =
    let (r, all) = queued room (contents q) c in
    (q' : Queue) × (writechar q c ≡ some (r, q'))
    × IsValid q'
    × (contents q' ≡ all)
    × (q'.size ≡ q.size)

writechar_room :
    {q : Queue} (c : ℕ) (room : Bool)
    → IsValid q
    → ltb (length (contents q)) (q.size - 1) ≡ room
    → Writes q c room
unfolding Fifo.put_char
writechar_room {q} c room v e = subst (Writes q c) e (writechar_refines c v)

or_false : (b : Bool) → b || false ≡ b
or_false true = refl
or_false false = refl

or_none : (b : Bool) (room n : ℕ) → min room n ≡ 0 → b || ltb 0 (min room n) ≡ b
or_none b room n e = ap (λ t. b || t) (le→ltb 0 (min room n) (omega arith)) ∙ or_false b

or_some : (b : Bool) (room n : ℕ) → 0 < min room n → b || ltb 0 (min room n) ≡ true
or_some true room n h = refl
or_some false room n h = lt→ltb 0 (min room n) h

receive_loop_cons :
    (c : ℕ) (received : List ℕ) (u : Uart) {q : Queue} (notify : Bool)
    → IsValid q
    → ((u' : Uart) (q' : Queue) (n' : Bool) → IsValid q' → Receives received u' q' n' (room_in q'))
    → (room : ℕ) → room_in q ≡ room
    → Receives (c ∷ received) u q notify room
unfolding receive_loop
receive_loop_cons c received u {q} notify v next zero e =
    let (q1, e1, v1, held, s) = writechar_room c false v (le→ltb _ _ (omega arith)) in
    let same : room_in q1 ≡ 0 = ap₂ (λ (t : ℕ) (l : List ℕ). t - 1 - length l) s held ∙ e in
    let (q2, e2, v2, held2, s2) =
      subst
        (Receives received
          (record u { rx_counter = u.rx_counter + 1; err_counter = u.err_counter + 1 }) q1 notify)
        same (next _ q1 notify v1) in
    rw e1 (
      q2,
      e2
          ∙ ap₂ (returned q2)
              (counting_lost u (length received) (length received - 0)
                ∙ ap (counting u (suc (length received))) {y = suc (length received) - 0}
                    (omega arith))
              (or_none notify 0 (length received) (omega arith)
                ∙ sym (or_none notify 0 (suc (length received)) (omega arith))),
      v2,
      held2 ∙ ap₂ ◌++◌ held refl,
      s2 ∙ s,
    )
receive_loop_cons c received u {q} notify v next (suc k) e =
    let (q1, e1, v1, held, s) = writechar_room c true v (lt→ltb _ _ (omega arith)) in
    let less : room_in q1 ≡ k =
      ap₂ (λ (t : ℕ) (l : List ℕ). t - 1 - length l) s held
      ∙ omega (arith, e, length-append (contents q) (c ∷ [])) in
    let (q2, e2, v2, held2, s2) =
      subst (Receives received (record u { rx_counter = u.rx_counter + 1 }) q1 true) less
        (next _ q1 true v1) in
    rw e1 (
      q2,
      e2
          ∙ ap₂ (returned q2)
              (counting-suc u (length received) (length received - k)
                ∙ ap (counting u (suc (length received))) {y = suc (length received) - suc k}
                    (omega arith))
              (sym (or_some notify (suc k) (suc (length received)) (omega arith))),
      v2,
      held2
          ∙ ap (λ l. l ++ take k received) held
          ∙ append_assoc (contents q) (c ∷ []) (take k received),
      s2 ∙ s,
    )

pub receive_loop_lem :
    (received : List ℕ) (u : Uart) (q : Queue) (notify : Bool)
    → IsValid q
    → Receives received u q notify (room_in q)
unfolding receive_loop
receive_loop_lem [] u q notify v = (
  q,
  ap₂ (returned q) (sym (counting_nil u) ∙ ap (counting u 0) {y = 0 - room_in q} (omega arith))
      (sym (or_none notify (room_in q) 0 (omega arith))),
  v,
  sym (ap (λ t. contents q ++ t) (take-nil (room_in q)) ∙ append-nil (contents q)),
  refl,
)
receive_loop_lem (c ∷ received) u q notify v =
    receive_loop_cons c received u notify v (receive_loop_lem received) (room_in q) refl

-- Of the bytes that came in, the queue takes as many as it has room for, in order, behind those it holds; each
-- other one is an error. The consumer is to be told if one was queued.
pub receive-queued :
    (received : List ℕ) (u : Uart) (q : Queue)
    → IsValid q
    → u.rx ≡ some q
    → let room = room_in q in
      (q' : Queue) × (receive received u
        ≡ some (
          record (counting u (length received) (length received - room)) { rx = some q' },
          ltb 0 (min room (length received)),
        ))
      × IsValid q'
      × (contents q' ≡ contents q ++ take room received)
unfolding receive receive_from
receive-queued received u q v e =
    let (q', e1, v', held, s) = receive_loop_lem received u q false v in
    (q', ap (λ o. receive_from o received u) e ∙ ap (λ r. r >>= kept) e1, v', held)
  where
    kept : Uart × (Queue × Bool) → Option (Uart × Bool)
    kept r = some (record r.0 { rx = some r.1.0 }, r.1.1)
