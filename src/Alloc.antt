-- ===== src/Alloc.antt =====
-- lib/simple-alloc.c: blocks from one region that are never given back. The lock is left out: one
-- context runs at a time. An address is a number, and `NULL` is 0.
pub mod Served
pub mod Blocks
mod Tests
use libos.Prelude.{ℕ, List, [], ◌∷◌, ltb, leb, ◌||◌, ◌==◌, ◌-◌, ◌≡◌, if◌then◌else◌}
use libos.Prelude.Words.{add64, sub64}
use libos.Prelude.Align.{align_up}

pub record Allocator : Type 0 where
  pub start : ℕ
  pub end : ℕ

-- `__alloc` behind its test: `ret` and the new start.
unfoldable pub take_block : Allocator → ℕ → ℕ → ℕ × Allocator
take_block a ret next =
    if ltb a.end next || leb next a.start then (0, a) else (ret, record a { start = next })

unfoldable pub alloc : Allocator → ℕ → ℕ → ℕ × Allocator
alloc a size align = take_block a (align_up a.start align) (add64 (align_up a.start align) size)

unfoldable pub simple_alloc_init : ℕ → ℕ → Allocator
simple_alloc_init start size = record { start = start; end = sub64 (add64 start size) 1 }

unfoldable pub valloc_init : ℕ → ℕ → Allocator
valloc_init start end = record { start = start; end = end }

-- A sequence of calls, each with a size and an alignment, and the blocks that were granted.
unfoldable pub alloc_all : Allocator → List (ℕ × ℕ) → List (ℕ × ℕ)
alloc_all a [] = []
alloc_all a ((size, align) ∷ calls) =
    let (ret, a') = alloc a size align in
    let rest = alloc_all a' calls in if ret == 0 then rest else (ret, size) ∷ rest
