-- ===== src/Segments.antt =====
-- lib/malloc-wrapper.c: the memory segments that blocks are taken from before the allocator starts. The
-- array up to `nextseg` is a list; an address is a number, and `NULL` is 0.
pub mod Cover
mod Tests
use libos.Prelude.{
  ℕ, zero, suc, ◌+◌, ◌-◌, Bool, Option, some, none, List, [], ◌∷◌, ◌++◌, ltb, ◌==◌, not, ◌&&◌, ◌||◌,
  if◌then◌else◌, length, get_elem?, take,
}
use libos.Prelude.Words.{add64, sub64}
use libos.Prelude.Align.{align_up}

pub record Segment : Type 0 where
  pub start : ℕ
  pub end : ℕ

-- `NUM_SEGMENTS`; a segment that finds no place is dropped.
unfoldable pub add_segment : List Segment → ℕ → ℕ → List Segment
add_segment segments start end =
    if ltb (length segments) 64
    then segments ++ (record { start = start; end = end } ∷ [])
    else segments

unfoldable pub set_segment : List Segment → ℕ → Segment → List Segment
set_segment [] i s = []
set_segment (x ∷ segments) zero s = s ∷ segments
set_segment (x ∷ segments) (suc i) s = x ∷ set_segment segments i s

-- `*s = segments[--nextseg]`.
unfoldable pub replace_by_last : List Segment → ℕ → List Segment
replace_by_last segments i = elim (get_elem? segments (length segments - 1)) [
  | none ↦ segments
  | some last ↦ take (length segments - 1) (set_segment segments i last)
]

-- The body of the loop of `exclude_segment`, for the segment `s` at index `i`.
unfoldable pub exclude_one : List Segment → ℕ → Segment → ℕ → ℕ → List Segment
exclude_one segments i s start end =
    if ltb s.end start || ltb end s.start
    then segments
    else if ltb s.start start
    then set_segment (if ltb end s.end then add_segment segments (end + 1) s.end else segments) i
        (record { start = s.start; end = start - 1 })
    else if ltb end s.end
    then set_segment segments i (record { start = end + 1; end = s.end })
    else replace_by_last segments i

-- The first argument is fuel; no more than 64 indices are looked at.
unfoldable pub exclude_loop : ℕ → ℕ → List Segment → ℕ → ℕ → List Segment
exclude_loop zero i segments start end = segments
exclude_loop (suc fuel) i segments start end = elim (get_elem? segments i) [
  | none ↦ segments
  | some s ↦ exclude_loop fuel (i + 1) (exclude_one segments i s start end) start end
]

unfoldable pub exclude_segment : List Segment → ℕ → ℕ → List Segment
exclude_segment segments start end = exclude_loop 64 0 segments start end

-- Where a block would begin in a segment.
abbrev pub block_start : Segment → ℕ → ℕ
block_start s align = if align == 0 then s.start else align_up s.start align

abbrev pub unusable : Segment → ℕ → ℕ → ℕ → Bool
unusable s first size align =
    (not (align == 0) && ltb first s.start)
    || (ltb s.end (add64 first size) || ltb (add64 first size) first)

-- The loop of `alloc_segment` over the segments that are left.
unfoldable pub alloc_from : List Segment → List Segment → ℕ → ℕ → ℕ × List Segment
alloc_from segments [] size align = (0, segments)
alloc_from segments (s ∷ rest) size align =
    let first = block_start s align in
    if unusable s first size align
    then alloc_from segments rest size align
    else (first, exclude_segment segments first (sub64 (add64 first size) 1))

unfoldable pub alloc_segment : List Segment → ℕ → ℕ → ℕ × List Segment
alloc_segment segments size align = alloc_from segments segments size align
