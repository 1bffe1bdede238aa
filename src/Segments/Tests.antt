-- ===== src/Segments/Tests.antt =====
-- Runs of the segment functions at fixed inputs.
use libos.Prelude.{◌≡◌, inl, inr, refl, arith, [], ◌∷◌}
use libos.Segments.{
  Segment, add_segment, set_segment, exclude_one, exclude_loop, exclude_segment, alloc_segment,
  alloc_from,
}
use libos.Segments.Cover.{Covered, exclude_segment-Covered}

abbrev low : Segment
low = record { start = 10; end = 19 }

abbrev high : Segment
high = record { start = 30; end = 39 }

cut_in_two :
    exclude_segment (low ∷ high ∷ []) 12 15
    ≡ (record { start = 10; end = 11 }) ∷ high ∷ (record { start = 16; end = 19 }) ∷ []
unfolding exclude_segment exclude_loop exclude_one set_segment add_segment
cut_in_two = refl

taken :
    alloc_segment (low ∷ high ∷ []) 6 8
    ≡ (32, (low ∷ (record { start = 30; end = 31 }) ∷ (record { start = 38; end = 39 }) ∷ []))
unfolding alloc_segment alloc_from exclude_segment exclude_loop exclude_one set_segment add_segment
taken = refl

exclude_segment-Covered_example : Covered 17 (low ∷ high ∷ [])
unfolding exclude_segment exclude_loop exclude_one set_segment add_segment
exclude_segment-Covered_example =
    exclude_segment-Covered 17 (low ∷ high ∷ []) 12 15 (inr (inr (inl (omega arith, omega arith))))
