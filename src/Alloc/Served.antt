-- ===== src/Alloc/Served.antt =====
-- What a sequence of requests to the allocator gets, without the arithmetic of the code.
use libos.Prelude.{ℕ, ◌+◌, ◌%◌, ◌<◌, ◌≤◌, ◌≡◌, ◌⊎◌, arith, List, [], ◌∷◌}

-- Blocks that follow one another without overlap, from `lo` on and up to `hi`.
abbrev pub Packed : ℕ → ℕ → List (ℕ × ℕ) → Type 0
Packed lo hi [] = Unit
Packed lo hi ((p, size) ∷ blocks) = (lo ≤ p) × (p + size ≤ hi) × Packed (p + size) hi blocks

-- The first address from `lo` on that is a multiple of the alignment.
abbrev pub IsFirst : ℕ → ℕ → ℕ → Type 0
IsFirst lo align p = (lo ≤ p) × (p < lo + align) × (p % align ≡ 0)

-- Which blocks the requests get from a free range: the one at the first suitable address, when the range goes on
-- to its end and is shortened by it. A block at the address 0 is not told from a refusal.
pub data Served (hi : ℕ) : ℕ → List (ℕ × ℕ) → List (ℕ × ℕ) → Type 0 where
  done : (lo : ℕ) → Served hi lo [] []
  granted :
      (lo p size align : ℕ) (calls blocks : List (ℕ × ℕ))
      → IsFirst lo align p
      → 0 < p
      → lo < p + size
      → p + size ≤ hi
      → Served hi (p + size) calls blocks
      → Served hi lo ((size, align) ∷ calls) ((p, size) ∷ blocks)
  at_null :
      (lo p size align : ℕ) (calls blocks : List (ℕ × ℕ))
      → IsFirst lo align p
      → p ≡ 0
      → lo < p + size
      → p + size ≤ hi
      → Served hi (p + size) calls blocks
      → Served hi lo ((size, align) ∷ calls) blocks
  refused :
      (lo p size align : ℕ) (calls blocks : List (ℕ × ℕ))
      → IsFirst lo align p
      → (hi < p + size) ⊎ (p + size ≤ lo)
      → Served hi lo calls blocks
      → Served hi lo ((size, align) ∷ calls) blocks

pub Packed-from :
    (lo lo' hi : ℕ) (blocks : List (ℕ × ℕ)) → lo ≤ lo' → Packed lo' hi blocks → Packed lo hi blocks
Packed-from lo lo' hi [] h packed = tt
Packed-from lo lo' hi ((p, size) ∷ blocks) h (above, below, rest) =
    (omega (arith, above), below, rest)
