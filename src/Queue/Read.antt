-- ===== src/Queue/Read.antt =====
-- `queue_read_at`, `queue_read`, `queue_discard` and `queue_purge` on the bytes held.
use libos.Prelude.{
  ℕ, ◌+◌, ◌-◌, ◌≤◌, ◌<◌, min, ◌≡◌, refl, ap, sym, ◌∙◌, arith, Bool, true, false, Option, some, List,
  [], ◌++◌, if◌then◌else◌, ◌>>=◌, length, get_or, take, drop, tabulate, slice, splice, patch,
  slice_lem, splice_lem, patch-patch, append-nil, length-tabulate, length-patch, tabulate-ext,
  take-tabulate_le, drop-tabulate,
}
use libos.Prelude.Words.{u32, add64, sub64}
use libos.Queue.{Queue, wrap, read_rest, read_at, read, discard, purge, get_avail}
use libos.Queue.Facts.{IsValid, distance, distance-lt, round, wrap-round, avail_lem, get_avail_lem}
use libos.Queue.View.{byte_at, count, contents, length-contents, ring-pieces}
use native.Mathlib.Decide.{dec_lt}

read_rest_lem :
    (q : Queue) (out : List ℕ) (first len : ℕ)
    → len ≤ length q.buf
    → first + len ≤ length out
    → 0 < len
    → read_rest q out first len
      ≡ some (patch out first (tabulate len (λ i. get_or q.buf (0 + i) 0)))
unfolding read_rest
read_rest_lem q out first len h k pos = ground (
  arith,
  slice_lem q.buf 0 len (omega arith),
  splice_lem out first (tabulate len (λ i. get_or q.buf (0 + i) 0))
      (omega (arith, length-tabulate len (λ i. get_or q.buf (0 + i) 0))),
)

read_rest-zero : (q : Queue) (out : List ℕ) (first : ℕ) → read_rest q out first 0 ≡ some out
unfolding read_rest
read_rest-zero q out first = refl

-- Both `memcpy` calls together deliver `len` bytes from index `start` on.
read_from :
    {q : Queue} (out : List ℕ) (start len first : ℕ)
    → IsValid q
    → start < q.size
    → first ≡ min len (q.size - start)
    → len ≤ q.size
    → len ≤ length out
    → (do
      bytes ← slice q.buf start first
      out' ← splice out 0 bytes
      read_rest q out' first (len - first))
      ≡ some (patch out 0 (tabulate len (λ i. get_or q.buf (round q.size (start + i)) 0)))
read_from {q} out start len first v inside e le room =
    let one = tabulate first (λ i. get_or q.buf (start + i) 0) in
    let two = tabulate (len - first) (λ i. get_or q.buf (0 + i) 0) in
    let size : length one ≡ first = length-tabulate first (λ i. get_or q.buf (start + i) 0) in
    let size₂ : length two ≡ len - first =
      length-tabulate (len - first) (λ i. get_or q.buf (0 + i) 0) in
    let pieces = ring-pieces q.buf q.size start len first e inside le in
    let got = slice_lem q.buf start first (omega (arith, v.storage)) in
    let put = splice_lem out 0 one (omega arith) in
    rw (got, put)
      (elim (dec_lt first len) [
        | yes p ↦
            read_rest_lem q (patch out 0 one) first (len - first) (omega (arith, v.storage))
              (omega (arith, length-patch out 0 one (omega arith))) (omega arith)
            ∙ ap (λ k. some (patch (patch out 0 one) k two)) {y = 0 + length one} (omega arith)
            ∙ ap some (patch-patch out 0 one two (omega arith) ∙ ap (patch out 0) pieces)
        | no p ↦
            ap (read_rest q (patch out 0 one) first) {y = 0} (omega arith)
            ∙ read_rest-zero q (patch out 0 one) first
            ∙ ap (λ l. some (patch out 0 l))
                (sym (append-nil one)
                  ∙ ap (λ n. one ++ tabulate n (λ i. get_or q.buf (0 + i) 0)) {x = 0} (omega arith)
                  ∙ pieces)
      ])

-- The bytes of `[off, off + len)` from the head are delivered at the start of `out`.
pub read_at_lem :
    {q : Queue} (out : List ℕ) (off len : ℕ)
    → IsValid q
    → off + len ≤ count q
    → len ≤ length out
    → read_at q out off len ≡ some (patch out 0 (tabulate len (λ i. byte_at q (off + i))))
unfolding read_at
read_at_lem {q} out off len v avail room =
    let start : ℕ = round q.size (q.head + off) in
    let at : wrap q (add64 q.head off) ≡ start =
      ap (wrap q)
        (omega (arith, v.small, v.head_in, distance-lt q.size q.head q.tail v.head_in v.tail_in))
      ∙ wrap-round v (q.head + off) (ground (arith, v.head_in, v.tail_in)) in
    let near : start < q.size = ground (arith, v.head_in, v.tail_in) in
    let left : sub64 q.size start ≡ q.size - start = omega (arith, v.small) in
    rw (at, left)
      (read_from out start len (min len (q.size - start)) v near refl
          (ground (arith, v.head_in, v.tail_in)) room
        ∙ ap (λ l. some (patch out 0 l))
            (tabulate-ext len (λ i. get_or q.buf (round q.size (start + i)) 0)
              (λ i. byte_at q (off + i))
              (λ i p. ap (λ k. get_or q.buf k 0) (ground (arith, v.head_in, v.tail_in)))))

-- Taking `n` bytes off the head leaves the others.
pub advance-contents :
    {q : Queue} (n : ℕ)
    → IsValid q
    → n ≤ count q
    → IsValid (record q { head = round q.size (q.head + n) })
      × (contents (record q { head = round q.size (q.head + n) }) ≡ drop n (contents q))
advance-contents {q} n v le =
    let h : ℕ = round q.size (q.head + n) in
    (
      record {
        order = v.order;
        small = v.small;
        storage = v.storage;
        head_in = ground (arith, v.head_in, v.tail_in);
        tail_in = v.tail_in;
      },
      ap (λ m. tabulate m (λ i. get_or q.buf (round q.size (h + i)) 0))
            {x = distance q.size h q.tail} {y = count q - n} (ground (arith, v.head_in, v.tail_in))
          ∙ tabulate-ext (count q - n) (λ i. get_or q.buf (round q.size (h + i)) 0)
              (λ i. byte_at q (n + i))
              (λ i p. ap (λ k. get_or q.buf k 0) (ground (arith, v.head_in, v.tail_in)))
          ∙ sym (drop-tabulate n (count q) (byte_at q)),
    )

head-next :
    {q : Queue} (n : ℕ)
    → IsValid q
    → n ≤ count q
    → u32 (wrap q (add64 q.head n)) ≡ round q.size (q.head + n)
head-next {q} n v le =
    let small = distance-lt q.size q.head q.tail v.head_in v.tail_in in
    ap (λ x. u32 (wrap q x)) {y = q.head + n} (omega (arith, v.small, v.head_in))
    ∙ ap u32 (wrap-round v (q.head + n) (omega (arith, v.head_in)))
    ∙ ground (arith, v.head_in, v.small)

-- Of a valid queue and a destination with room for `len` bytes, `read` delivers the oldest
-- `min(held, len)` bytes in order at the start of the destination, without an access outside a
-- buffer, and returns their number. It takes exactly these off the queue, or none when it peeks, and
-- the queue stays valid and keeps its size.
pub read_refines :
    {q : Queue} (out : List ℕ) (len : ℕ) (peek : Bool)
    → IsValid q
    → len ≤ length out
    → let n = min (length (contents q)) len in
      (q' : Queue) × (read q out len peek ≡ some (n, patch out 0 (take n (contents q)), q'))
      × IsValid q'
      × (contents q' ≡ (if peek then contents q else drop n (contents q)))
      × (q'.size ≡ q.size)
unfolding read
read_refines {q} out len peek v room =
    let n : ℕ = min (length (contents q)) len in
    let held = length-contents q in
    let next = advance-contents n v (omega arith) in
    let delivered : read_at q out 0 n ≡ some (patch out 0 (take n (contents q))) =
      read_at_lem out 0 n v (omega arith) (omega arith)
      ∙ ap (λ l. some (patch out 0 l))
          (tabulate-ext n (λ i. byte_at q (0 + i)) (byte_at q) (λ i p. ap (byte_at q) (omega arith))
            ∙ sym (take-tabulate_le n (count q) (byte_at q) (omega arith))) in
    let asked : min (wrap q (sub64 q.tail q.head)) len ≡ n = omega (arith, avail_lem v) in
    rw (asked, delivered) (choose peek n next (head-next n v (omega arith)))
  where
    choose :
        (peek : Bool) (n : ℕ)
        → IsValid (record q { head = round q.size (q.head + n) })
          × (contents (record q { head = round q.size (q.head + n) }) ≡ drop n (contents q))
        → u32 (wrap q (add64 q.head n)) ≡ round q.size (q.head + n)
        → (q' : Queue) × (◌≡◌ {A = Option (ℕ × List ℕ × Queue)}
            (some (
              n,
              patch out 0 (take n (contents q)),
              if peek then q else record q { head = u32 (wrap q (add64 q.head n)) },
            ))
            (some (n, patch out 0 (take n (contents q)), q')))
          × IsValid q'
          × (contents q' ≡ (if peek then contents q else drop n (contents q)))
          × (q'.size ≡ q.size)
    choose true n next e = (q, refl, v, refl, refl)
    choose false n next e = (
      record q { head = round q.size (q.head + n) },
      ap (λ h. some (n, patch out 0 (take n (contents q)), record q { head = h })) e,
      next.0,
      next.1,
      refl,
    )

-- `discard` drops the oldest `min(held, num)` bytes and returns their number.
pub discard_refines :
    {q : Queue} (num : ℕ)
    → IsValid q
    → let n = min num (length (contents q)) in
      ((discard q num).0 ≡ n)
      × IsValid (discard q num).1
      × (contents (discard q num).1 ≡ drop n (contents q))
unfolding discard
discard_refines {q} num v =
    let n : ℕ = min num (length (contents q)) in
    let asked : min num (get_avail q) ≡ n = omega (arith, get_avail_lem v, length-contents q) in
    let le : n ≤ count q = omega (arith, length-contents q) in
    let next = advance-contents n v le in rw (asked, head-next n v le) (refl, next.0, next.1)

-- `purge` leaves a valid queue with nothing in it.
pub purge_refines : {q : Queue} → IsValid q → IsValid (purge q) × (contents (purge q) ≡ [])
unfolding purge
purge_refines {q} v = (
  record {
    order = v.order;
    small = v.small;
    storage = v.storage;
    head_in = v.tail_in;
    tail_in = v.tail_in;
  },
  ap (λ n. tabulate n (λ i. get_or q.buf (round q.size (q.tail + i)) 0)) {y = 0} (ground arith),
)
