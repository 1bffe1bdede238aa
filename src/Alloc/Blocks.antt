-- ===== src/Alloc/Blocks.antt =====
-- The blocks that the allocator grants.
use native.Mathlib.Decide.{dec_lt, dec_le}
use libos.Prelude.{
  ℕ, ◌+◌, ◌%◌, ◌^◌, ◌<◌, ◌≤◌, ◌≡◌, ◌⊎◌, inl, inr, refl, ap, arith, false, List, [], ◌∷◌, ltb, leb,
  lt→ltb, le→ltb, lt→leb, le→leb, ◌||◌,
}
use libos.Prelude.Words.{add64}
use libos.Prelude.Align.{align_up, align_up_lem}
use libos.Prelude.Bits.{IsPowerOfTwo}
use libos.Alloc.Served.{Served}
use libos.Alloc.{Allocator, take_block, alloc}

-- The two answers to a request for `size` bytes that would get the block at `p`.
abbrev pub Granted : Allocator → ℕ → ℕ → ℕ × Allocator → Type 0
Granted a p size answer =
    (p + size ≤ a.end) × (a.start < p + size) × (answer ≡ (p, record a { start = p + size }))

abbrev pub Refused : Allocator → ℕ → ℕ → ℕ × Allocator → Type 0
Refused a p size answer = ((a.end < p + size) ⊎ (p + size ≤ a.start)) × (answer ≡ (0, a))

take_block_lem :
    (a : Allocator) (p size next : ℕ)
    → next ≡ p + size
    → Granted a p size (take_block a p next) ⊎ Refused a p size (take_block a p next)
unfolding take_block
take_block_lem a p size next e = elim (dec_lt a.end next) [
  | yes h ↦ inr (inl (omega arith), rw (lt→ltb a.end next h) refl)
  | no h ↦ elim (dec_le next a.start) [
    | yes k ↦
        inr (inr (omega arith), rw (le→ltb a.end next (omega arith), le→leb next a.start k) refl)
    | no k ↦ inl (
      omega arith,
      omega arith,
      rw (le→ltb a.end next (omega arith), lt→leb a.start next (omega arith))
          (ap (λ n. (p, record a { start = n })) e),
    )
  ]
]

-- A request that can be answered without passing the end of the address space.
abbrev pub Request : Allocator → ℕ → ℕ → Type 0
Request a size align = IsPowerOfTwo align × (1 ≤ align) × (a.start + align + size ≤ 2 ^ 64)

-- `alloc` rounds the start of the free range up to the alignment. It grants the block that begins there
-- exactly when the range goes on to its end (and the start moves at all), and then the free range
-- begins behind the block; else it returns `NULL` and changes nothing.
pub alloc_lem :
    (a : Allocator) (size align : ℕ)
    → Request a size align
    → (p : ℕ) × (a.start ≤ p)
      × (p < a.start + align)
      × (p % align ≡ 0)
      × (Granted a p size (alloc a size align) ⊎ Refused a p size (alloc a size align))
unfolding alloc
alloc_lem a size align (two, one, fits) =
    let (lo, hi, m) = align_up_lem a.start align two (omega arith) one in
    (
      align_up a.start align,
      lo,
      hi,
      m,
      take_block_lem a (align_up a.start align) size (add64 (align_up a.start align) size)
          (no_wrap (align_up a.start align) (omega arith)),
    )
  where
    no_wrap : (p : ℕ) → p + size < 2 ^ 64 → add64 p size ≡ p + size
    no_wrap p h = omega arith

-- Requests for which the start can be rounded up, and that are smaller than the address space. Their end may lie
-- behind the end of the address space.
abbrev pub Requests : ℕ → List (ℕ × ℕ) → Type 0
Requests end [] = Unit
Requests end ((size, align) ∷ calls) =
    IsPowerOfTwo align
    × (1 ≤ align)
    × (end + align ≤ 2 ^ 64)
    × (align + size ≤ 2 ^ 64)
    × Requests end calls

wrapped_lem :
    (a : Allocator) (p size next : ℕ)
    → size < 2 ^ 64
    → next + 2 ^ 64 ≡ p + size
    → a.start < next
    → next ≤ a.end
    → ((take_block a p next).0 ≡ p) × ((take_block a p next).1.start < p)
unfolding take_block
wrapped_lem a p size next small e above below =
    let shut : (ltb a.end next || leb next a.start) ≡ false = ground arith in
    (rw shut refl, rw shut (omega arith))

-- The test against wrap-around compares with the old start and not with the block: a size for which the
-- sum wraps to an address between the two is granted, however small the region, and the free range then
-- begins before the block.
pub alloc_wraps :
    (a : Allocator) (size align : ℕ)
    → size < 2 ^ 64
    → align_up a.start align < 2 ^ 64
    → 2 ^ 64 + a.start < align_up a.start align + size
    → align_up a.start align + size ≤ 2 ^ 64 + a.end
    → ((alloc a size align).0 ≡ align_up a.start align)
      × ((alloc a size align).1.start < align_up a.start align)
unfolding alloc
alloc_wraps a size align small low wraps fits =
    wrapped_lem a (align_up a.start align) size (add64 (align_up a.start align) size) small
      (omega arith) (omega arith) (omega arith)
