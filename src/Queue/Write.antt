-- ===== src/Queue/Write.antt =====
-- `queue_write_at` and `queue_write` on the bytes held.
use libos.Prelude.{
  ℕ, zero, suc, ◌+◌, ◌-◌, ◌≤◌, ◌<◌, min, ◌≡◌, refl, ap, ap₂, sym, ◌∙◌, arith, some, List, ◌++◌, ltb,
  lt→ltb, if◌then◌else◌, length, get_or, take, tabulate, patch, patch-nil, slice_lem, splice_lem,
  length-tabulate, length-patch, get_or-patch, get_or-tabulate, tabulate-ext, tabulate-add,
  take-tabulate,
}
use libos.Prelude.Words.{u32, add64, sub64}
use libos.Queue.{Queue, wrap, write_rest, write_at, write}
use libos.Queue.Facts.{IsValid, distance, distance-lt, round, wrap-round, space_lem}
use libos.Queue.View.{byte_at, count, contents, length-contents}

-- The ring after the first `len` bytes of `src` went in from index `start` on.
abbrev pub part₁ : List ℕ → ℕ → List ℕ
part₁ src first = tabulate first (λ i. get_or src (0 + i) 0)

abbrev pub part₂ : List ℕ → ℕ → ℕ → List ℕ
part₂ src first rest = tabulate rest (λ i. get_or src (first + i) 0)

abbrev pub written : List ℕ → List ℕ → ℕ → ℕ → ℕ → List ℕ
written buf src start first rest =
    patch (patch buf start (part₁ src first)) 0 (part₂ src first rest)

write_rest_lem :
    (buf src : List ℕ) (first rest : ℕ)
    → rest ≤ length buf
    → first + rest ≤ length src
    → write_rest buf src first rest ≡ some (patch buf 0 (part₂ src first rest))
unfolding write_rest
write_rest_lem buf src first zero h k = ap some (sym (patch-nil buf))
write_rest_lem buf src first (suc rest) h k =
    rw (lt→ltb 0 (suc rest) (omega arith), slice_lem src first (suc rest) k)
      (splice_lem buf 0 (part₂ src first (suc rest))
        (omega (arith, length-tabulate (suc rest) (λ i. get_or src (first + i) 0))))

pub write_at_lem :
    {q : Queue} (src : List ℕ) (len : ℕ)
    → IsValid q
    → len ≤ q.size
    → len ≤ length src
    → let first = min len (q.size - q.tail) in
      write_at q src q.tail len ≡ some (written q.buf src q.tail first (len - first))
unfolding write_at
write_at_lem {q} src len v le room =
    let first : ℕ = min len (q.size - q.tail) in
    let left : sub64 q.size q.tail ≡ q.size - q.tail = omega (arith, v.small, v.tail_in) in
    let size : length (part₁ src first) ≡ first =
      length-tabulate first (λ i. get_or src (0 + i) 0) in
    rw
      (
        left,
        slice_lem src 0 first (omega arith),
        splice_lem q.buf q.tail (part₁ src first) (omega (arith, v.storage, v.tail_in)),
      )
      (write_rest_lem (patch q.buf q.tail (part₁ src first)) src first (len - first)
        (omega (
          arith,
          v.storage,
          v.tail_in,
          length-patch q.buf q.tail (part₁ src first) (omega (arith, v.storage, v.tail_in)),
        ))
        (omega arith))

-- What stands at index `j` of the ring afterwards.
get_or-written :
    (buf src : List ℕ) (size start len first j : ℕ)
    → first ≡ min len (size - start)
    → start < size
    → size ≤ length buf
    → len ≤ size
    → j < size
    → get_or (written buf src start first (len - first)) j 0 ≡ (
        if ltb (distance size start j) len
        then get_or src (distance size start j) 0
        else get_or buf j 0)
get_or-written buf src size start len first j e inside storage le below =
    let f₁ : ℕ → ℕ = λ i. get_or src (0 + i) 0 in
    let f₂ : ℕ → ℕ = λ i. get_or src (first + i) 0 in
    ground (
      arith,
      length-tabulate first f₁,
      length-tabulate (len - first) f₂,
      length-patch buf start (part₁ src first),
      get_or-patch (patch buf start (part₁ src first)) 0 (part₂ src first (len - first)) j
          (omega arith),
      get_or-patch buf start (part₁ src first) j (omega arith),
      get_or-tabulate first f₁ (j - start) 0,
      get_or-tabulate (len - first) f₂ (j - 0) 0,
    )

-- Appending at the tail changes none of the bytes held and adds the first `n` of `src` behind them.
pub appended :
    {q : Queue} (src : List ℕ) (n : ℕ)
    → IsValid q
    → n + count q < q.size
    → n ≤ length src
    → let first = min n (q.size - q.tail) in
      let q' = record q {
        buf = written q.buf src q.tail first (n - first);
        tail = round q.size (q.tail + n);
      } in
      IsValid q' × (contents q' ≡ contents q ++ take n src)
appended {q} src n v fits room =
    let first : ℕ = min n (q.size - q.tail) in
    let buf' : List ℕ = written q.buf src q.tail first (n - first) in
    let at : (j : ℕ)
        → j < q.size
        → get_or buf' j 0 ≡ (
            if ltb (distance q.size q.tail j) n
            then get_or src (distance q.size q.tail j) 0
            else get_or q.buf j 0) =
      λ j p.
        get_or-written q.buf src q.size q.tail n first j refl v.tail_in v.storage (omega arith) p in
    let new : ℕ → ℕ = λ i. get_or buf' (round q.size (q.head + i)) 0 in
    let one = length-tabulate first (λ i. get_or src (0 + i) 0) in
    let two = length-tabulate (n - first) (λ i. get_or src (first + i) 0) in
    let inner = length-patch q.buf q.tail (part₁ src first) (omega (arith, v.storage, v.tail_in)) in
    (
      record {
        order = v.order;
        small = v.small;
        storage = omega (
          arith,
          v.storage,
          length-patch (patch q.buf q.tail (part₁ src first)) 0 (part₂ src first (n - first))
              (omega (arith, v.storage, v.tail_in)),
        );
        head_in = v.head_in;
        tail_in = ground (arith, v.tail_in);
      },
      ap (λ m. tabulate m new) {y = count q + n} (ground (arith, v.head_in, v.tail_in))
          ∙ tabulate-add (count q) n new
          ∙ ap₂ ◌++◌
              (tabulate-ext (count q) new (byte_at q) (λ i p.
                at (round q.size (q.head + i)) (ground (arith, v.head_in, v.tail_in))
                ∙ ground (arith, v.head_in, v.tail_in)))
              (tabulate-ext n (λ i. new (count q + i)) (λ i. get_or src i 0)
                  (λ i p.
                    at (round q.size (q.head + (count q + i)))
                      (ground (arith, v.head_in, v.tail_in))
                    ∙ ap
                        (λ d.
                          if ltb d n
                          then get_or src d 0
                          else get_or q.buf (round q.size (q.head + (count q + i))) 0)
                        {y = i} (ground (arith, v.head_in, v.tail_in))
                    ∙ ap
                        (λ b.
                          if b
                          then get_or src i 0
                          else get_or q.buf (round q.size (q.head + (count q + i))) 0)
                        (lt→ltb i n p))
                ∙ sym (take-tabulate n src 0 room)),
    )

-- Of a valid queue and a source of at least `len` bytes, `write` accepts `min(free, len)` bytes, where
-- one byte of the size always stays free, puts exactly the first of the source behind the bytes
-- held, in order and without an access outside a buffer, returns their number, and keeps the queue
-- valid and its size.
pub write_refines :
    {q : Queue} (src : List ℕ) (len : ℕ)
    → IsValid q
    → len ≤ length src
    → let n = min (q.size - 1 - length (contents q)) len in
      (q' : Queue) × (write q src len ≡ some (n, q'))
      × IsValid q'
      × (contents q' ≡ contents q ++ take n src)
      × (q'.size ≡ q.size)
unfolding write
write_refines {q} src len v room =
    let n : ℕ = min (q.size - 1 - length (contents q)) len in
    let held = length-contents q in
    let below = distance-lt q.size q.head q.tail v.head_in v.tail_in in
    let first : ℕ = min n (q.size - q.tail) in
    let q' : Queue = record q {
      buf = written q.buf src q.tail first (n - first);
      tail = round q.size (q.tail + n);
    } in
    let after = appended src n v (omega arith) (omega arith) in
    let asked : min (wrap q (sub64 (sub64 q.head q.tail) 1)) len ≡ n = omega (arith, space_lem v) in
    let next : u32 (wrap q (add64 q.tail n)) ≡ round q.size (q.tail + n) =
      ap (λ x. u32 (wrap q x)) {y = q.tail + n} (omega (arith, v.small, v.tail_in))
      ∙ ap u32 (wrap-round v (q.tail + n) (omega (arith, v.tail_in)))
      ∙ ground (arith, v.tail_in, v.small) in
    (q', rw (asked, write_at_lem src n v (omega arith) (omega arith), next), after.0, after.1, refl)
