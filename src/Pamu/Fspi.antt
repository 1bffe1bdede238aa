-- ===== src/Pamu/Fspi.antt =====
-- The ranges of secondary entries that `pamu_get_fspi_and_allocate` hands out.
use libos.Prelude.{
  ℕ, ◌+◌, ◌<◌, ◌≤◌, ◌≡◌, refl, sym, subst, arith, List, [], ◌∷◌, some, none, lt→ltb, le→ltb,
}
use native.Mathlib.Decide.{dec_lt}
use libos.Alloc.Served.{Packed}
use libos.Pamu.{Pamu, spaace_number_entries, get_fspi_and_allocate}

-- A sequence of calls, and the ranges that were handed out, each with its length.
unfoldable pub fspi_all : Pamu → List ℕ → List (ℕ × ℕ)
fspi_all p [] = []
fspi_all p (cnt ∷ calls) = elim (get_fspi_and_allocate p cnt) [
  | none ↦ fspi_all p calls
  | some (fspi, p') ↦ (fspi, cnt) ∷ fspi_all p' calls
]

refused_lem :
    (p : Pamu) (cnt : ℕ) (calls : List ℕ)
    → spaace_number_entries < p.pamu_fspi + cnt
    → fspi_all p (cnt ∷ calls) ≡ fspi_all p calls
unfolding fspi_all get_fspi_and_allocate
refused_lem p cnt calls over =
    rw (lt→ltb spaace_number_entries (p.pamu_fspi + cnt) over, fspi_all) refl

granted_lem :
    (p : Pamu) (cnt : ℕ) (calls : List ℕ)
    → p.pamu_fspi + cnt ≤ spaace_number_entries
    → fspi_all p (cnt ∷ calls)
      ≡ (p.pamu_fspi, cnt) ∷ fspi_all (record p { pamu_fspi = p.pamu_fspi + cnt }) calls
unfolding fspi_all get_fspi_and_allocate
granted_lem p cnt calls fits =
    rw (le→ltb spaace_number_entries (p.pamu_fspi + cnt) fits, fspi_all) refl

-- Whatever numbers of subwindows are asked for, the ranges follow one another in the secondary table: no
-- two of them overlap and none leaves the table.
pub fspi_all-Packed :
    (p : Pamu) (calls : List ℕ)
    → p.pamu_fspi ≤ spaace_number_entries
    → Packed p.pamu_fspi spaace_number_entries (fspi_all p calls)
unfolding fspi_all
fspi_all-Packed p [] h = tt
fspi_all-Packed p (cnt ∷ calls) h = elim (dec_lt spaace_number_entries (p.pamu_fspi + cnt)) [
  | yes over ↦
      subst (Packed p.pamu_fspi spaace_number_entries) (sym (refused_lem p cnt calls over))
        (fspi_all-Packed p calls h)
  | no fits ↦
      subst (Packed p.pamu_fspi spaace_number_entries) (sym (granted_lem p cnt calls (omega arith)))
        (
          omega arith,
          omega arith,
          fspi_all-Packed (record p { pamu_fspi = p.pamu_fspi + cnt }) calls (omega arith),
        )
]
