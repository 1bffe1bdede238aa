-- ===== src/Queue/Chars.antt =====
-- `queue_readchar` and `queue_writechar` on the bytes held.
use native.Mathlib.Decide.{dec_lt, ℕ_discrete}
use libos.Prelude.{
  ℕ, suc, ◌+◌, ◌-◌, min, ◌≡◌, refl, ap, sym, ◌∙◌, arith, Bool, true, false, Option, some, List, [],
  ◌∷◌, ◌++◌, ltb, lt→ltb, le→ltb, subst, ◌==◌, ==_iff, ==_ne, if◌then◌else◌, length, get_or,
  get_elem?, drop, tabulate, store, splice, patch, splice_lem, patch-nil, get_elem?-eq-get_or,
}
use libos.Prelude.Words.{u32, add32, sub32}
use libos.Errors.{Result, ok}
use libos.Queue.{Queue, wrap, readchar, writechar}
use libos.Queue.Facts.{IsValid, round, wrap-round, wrap-below}
use libos.Queue.View.{byte_at, count, contents, length-contents}
use libos.Queue.Read.{advance-contents}
use libos.Queue.Write.{appended, written}
use libos.Queue.Fifo

contents-nil : (q : Queue) → q.head ≡ q.tail → contents q ≡ []
contents-nil q e = ap (λ n. tabulate n (byte_at q)) {y = 0} (ground arith)

contents-cons :
    (q : Queue) (n : ℕ) → count q ≡ suc n → contents q ≡ byte_at q 0 ∷ drop 1 (contents q)
contents-cons q n e =
    let whole : contents q ≡ tabulate (suc n) (byte_at q) = ap (λ m. tabulate m (byte_at q)) e in
    whole ∙ ap (λ l. byte_at q 0 ∷ drop 1 l) (sym whole)

-- `readchar` answers as the FIFO does: the oldest byte, which goes unless it peeks, or
-- `ERR_WOULDBLOCK` when nothing is held; and it keeps the queue valid and its size.
pub readchar_refines :
    {q : Queue} (peek : Bool)
    → IsValid q
    → let (r, rest) = Fifo.get_char (contents q) peek in
      (q' : Queue) × (readchar q peek ≡ some (r, q'))
      × IsValid q'
      × (contents q' ≡ rest)
      × (q'.size ≡ q.size)
unfolding readchar Fifo.get_char
readchar_refines {q} peek v = elim (ℕ_discrete q.head q.tail) [
  | yes e ↦ rw (contents-nil q e, (==_iff q.head q.tail).1 e) (q, refl, v, contents-nil q e, refl)
  | no ne ↦
      let some_held : count q ≡ suc (count q - 1) = ground (arith, v.head_in, v.tail_in) in
      let next = advance-contents 1 v (omega arith) in
      let split = contents-cons q (count q - 1) some_held in
      let found : get_elem? q.buf q.head ≡ some (byte_at q 0) =
        get_elem?-eq-get_or q.buf q.head 0 (omega (arith, v.storage, v.head_in))
        ∙ ap (λ k. some (get_or q.buf k 0)) (ground (arith, v.head_in)) in
      let moved : u32 (wrap q (add32 q.head 1)) ≡ round q.size (q.head + 1) =
        ap (λ x. u32 (wrap q x)) {y = q.head + 1} (omega (arith, v.small, v.head_in))
        ∙ ap u32 (wrap-round v (q.head + 1) (omega (arith, v.head_in)))
        ∙ ground (arith, v.head_in, v.small) in
      rw (split, ==_ne q.head q.tail ne, found, moved) (choose peek next split)
]
  where
    choose :
        (peek : Bool)
        → IsValid (record q { head = round q.size (q.head + 1) })
          × (contents (record q { head = round q.size (q.head + 1) }) ≡ drop 1 (contents q))
        → contents q ≡ byte_at q 0 ∷ drop 1 (contents q)
        → (q' : Queue) × (◌≡◌ {A = Option (Result ℕ × Queue)}
            (some
              (ok (byte_at q 0), if peek then q else record q { head = round q.size (q.head + 1) }))
            (some (ok (byte_at q 0), q')))
          × IsValid q'
          × (contents q'
              ≡ (if peek then byte_at q 0 ∷ drop 1 (contents q) else drop 1 (contents q)))
          × (q'.size ≡ q.size)
    choose true next split = (q, refl, v, split, refl)
    choose false next split =
        (record q { head = round q.size (q.head + 1) }, refl, next.0, next.1, refl)

-- The index before the head, going round.
before-head :
    {q : Queue}
    → IsValid q
    → wrap q (sub32 q.head 1) ≡ (if q.head == 0 then q.size - 1 else q.head - 1)
before-head {q} v = elim (ℕ_discrete q.head 0) [
  | yes e ↦
      wrap-below v 32 (sub32 q.head 1) 1 (omega arith) (omega arith) (omega (arith, v.head_in))
        (omega arith)
      ∙ ground arith
  | no ne ↦
      ap (wrap q) {y = q.head - 1} (omega (arith, v.small, v.head_in))
      ∙ wrap-round v (q.head - 1) (omega (arith, v.head_in))
      ∙ ground (arith, v.head_in)
]

-- `writechar` answers as the FIFO of `size - 1` bytes does: it adds the byte behind those held, or
-- returns `ERR_BUSY` and changes nothing when that many are held; and it keeps the queue valid and its size.
pub writechar_refines :
    {q : Queue} (c : ℕ)
    → IsValid q
    → let (r, all) = Fifo.put_char (q.size - 1) (contents q) c in
      (q' : Queue) × (writechar q c ≡ some (r, q'))
      × IsValid q'
      × (contents q' ≡ all)
      × (q'.size ≡ q.size)
unfolding writechar Fifo.put_char store
writechar_refines {q} c v = elim (dec_lt (count q) (q.size - 1)) [
  | yes p ↦
      let room : ltb (length (contents q)) (q.size - 1) ≡ true =
        lt→ltb _ _ (omega (arith, length-contents q)) in
      let free : (q.tail == wrap q (sub32 q.head 1)) ≡ false =
        rw (before-head v) (ground (arith, v.head_in, v.tail_in)) in
      let first : 1 ≡ min 1 (q.size - q.tail) = omega (arith, v.tail_in) in
      let after = appended (c ∷ []) 1 v (omega arith) (omega arith) in
      let put : splice q.buf q.tail (c ∷ []) ≡ some (patch q.buf q.tail (c ∷ [])) =
        splice_lem q.buf q.tail (c ∷ []) (omega (arith, v.storage, v.tail_in)) in
      let moved : u32 (wrap q (add32 q.tail 1)) ≡ round q.size (q.tail + 1) =
        ap (λ x. u32 (wrap q x)) {y = q.tail + 1} (omega (arith, v.small, v.tail_in))
        ∙ ap u32 (wrap-round v (q.tail + 1) (omega (arith, v.tail_in)))
        ∙ ground (arith, v.tail_in, v.small) in
      let same : written q.buf (c ∷ []) q.tail (min 1 (q.size - q.tail))
            (1 - min 1 (q.size - q.tail))
          ≡ patch q.buf q.tail (c ∷ []) =
        ap (λ f. written q.buf (c ∷ []) q.tail f (1 - f)) (sym first)
        ∙ patch-nil (patch q.buf q.tail (c ∷ [])) in
      let (valid, held) =
        subst (λ b. IsValid (with_tail b) × (contents (with_tail b) ≡ contents q ++ (c ∷ []))) same
          after in
      rw (room, free, put, moved) (with_tail (patch q.buf q.tail (c ∷ [])), refl, valid, held, refl)
  | no p ↦
      let no_room : ltb (length (contents q)) (q.size - 1) ≡ false =
        le→ltb _ _ (omega (arith, length-contents q)) in
      let taken : (q.tail == wrap q (sub32 q.head 1)) ≡ true =
        rw (before-head v) (ground (arith, v.head_in, v.tail_in)) in
      rw (no_room, taken) (q, refl, v, refl, refl)
]
  where
    with_tail : List ℕ → Queue
    with_tail b = record q { buf = b; tail = round q.size (q.tail + 1) }
