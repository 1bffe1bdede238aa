-- ===== src/Alloc/Tests.antt =====
-- Runs of the allocator at fixed inputs.
use libos.Prelude.{◌≡◌, refl, [], ◌∷◌}
use libos.Alloc.{Allocator, alloc, take_block, alloc_all}
use libos.Alloc.Served.{Served}

abbrev region : Allocator
region = record { start = 1; end = 100 }

granted : alloc_all region ((20, 16) ∷ (90, 4) ∷ (8, 8) ∷ []) ≡ (16, 20) ∷ (40, 8) ∷ []
unfolding alloc_all alloc take_block
granted = refl
