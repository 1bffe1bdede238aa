-- ===== src/Queue/View.antt =====
-- The bytes that a queue holds, oldest first: what its clients may know of it.
use libos.Prelude.{
  ℕ, ◌+◌, ◌-◌, ◌≤◌, ◌<◌, min, ◌≡◌, ap, ap₂, sym, ◌∙◌, arith, List, ◌++◌, length, get_or, tabulate,
  length-tabulate, tabulate-ext, tabulate-add,
}
use libos.Queue.{Queue}
use libos.Queue.Facts.{distance, round}

abbrev pub byte_at : Queue → ℕ → ℕ
byte_at q i = get_or q.buf (round q.size (q.head + i)) 0

abbrev pub count : Queue → ℕ
count q = distance q.size q.head q.tail

abbrev pub contents : Queue → List ℕ
contents q = tabulate (count q) (byte_at q)

pub length-contents : (q : Queue) → length (contents q) ≡ count q
length-contents q = length-tabulate (count q) (byte_at q)

-- The bytes of a ring from index `start` on: those up to its end, then those from its beginning.
pub ring-pieces :
    (buf : List ℕ) (size start len first : ℕ)
    → first ≡ min len (size - start)
    → start < size
    → len ≤ size
    → tabulate first (λ i. get_or buf (start + i) 0)
        ++ tabulate (len - first) (λ i. get_or buf (0 + i) 0)
      ≡ tabulate len (λ i. get_or buf (round size (start + i)) 0)
ring-pieces buf size start len first e inside le =
    let all : ℕ → ℕ = λ i. get_or buf (round size (start + i)) 0 in
    ap₂ ◌++◌
      (tabulate-ext first (λ i. get_or buf (start + i) 0) all
        (λ i p. ap (λ k. get_or buf k 0) (ground arith)))
      (tabulate-ext (len - first) (λ i. get_or buf (0 + i) 0) (λ i. all (first + i))
        (λ i p. ap (λ k. get_or buf k 0) (ground arith)))
    ∙ sym (tabulate-add first (len - first) all)
    ∙ ap (λ n. tabulate n all) (omega arith)
