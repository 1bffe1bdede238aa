-- ===== src/Strings/Search/Laws.antt =====
-- What `memchr` and `strchr` find.
use libos.Prelude.{
  ℕ, zero, suc, ◌<◌, ◌≡◌, ◌≢◌, refl, ap, sym, arith, Option, some, none, List, [], ◌∷◌, ◌++◌, ◌==◌,
  ==_ne, ==_refl, if◌then◌else◌, length,
}
use libos.Strings.Measure.{c_string}
use libos.Strings.Search.{shift, strchr, memchr}

-- No byte of the list is NUL or `c`.
abbrev pub Lacks : ℕ → List ℕ → Type 0
Lacks c [] = Unit
Lacks c (x ∷ xs) = (x ≢ 0) × (x ≢ c) × Lacks c xs

-- What `memchr` returns of the byte behind the range, of which `n` bytes were passed.
abbrev pub looked_at : ℕ → List ℕ → ℕ → Option (Option ℕ)
looked_at c [] n = none
looked_at c (x ∷ r) n = if x == c then some (some n) else some none

-- A byte inside the range is found at its first place if no NUL stands before it.
pub memchr-first :
    (p r : List ℕ) (c n : ℕ)
    → Lacks c p
    → length p < n
    → memchr (p ++ (c ∷ r)) c n ≡ some (some (length p))
unfolding memchr
memchr-first p r c zero h lt = elim lt [ ]
memchr-first [] r zero (suc n) h lt = refl
memchr-first [] r (suc c) (suc n) h lt = rw (==_ne (suc c) 0 (omega arith), ==_refl (suc c)) refl
memchr-first (x ∷ p) r c (suc n) h lt =
    rw (==_ne x 0 h.0, ==_ne x c h.1, memchr-first p r c n h.2 (omega arith))
      (ap (λ k. some (some k)) (omega arith))

-- When the whole range holds neither NUL nor `c`, `memchr` looks one byte too far: it reports that
-- byte as found if it is `c`, and reads outside the object if the object ends with the range.
pub memchr_overrun :
    (p r : List ℕ) (c : ℕ) → Lacks c p → memchr (p ++ r) c (length p) ≡ looked_at c r (length p)
unfolding memchr
memchr_overrun [] [] c h = refl
memchr_overrun [] (x ∷ r) c h = refl
memchr_overrun (x ∷ p) r c h =
    rw (==_ne x 0 h.0, ==_ne x c h.1, memchr_overrun p r c h.2) (shifted r (length p))
  where
    shifted : (r : List ℕ) (n : ℕ) → shift (looked_at c r n) ≡ looked_at c r (suc n)
    shifted [] n = refl
    shifted (y ∷ r) n = ground arith

-- A NUL inside the range hides all that stands behind it.
pub memchr-nul :
    (p r : List ℕ) (c n : ℕ)
    → Lacks c p
    → c ≢ 0
    → length p < n
    → memchr (p ++ (0 ∷ r)) c n ≡ some none
unfolding memchr
memchr-nul p r c zero h nz lt = elim lt [ ]
memchr-nul [] r c (suc n) h nz lt = rw (==_ne 0 c (λ e. nz (sym e))) refl
memchr-nul (x ∷ p) r c (suc n) h nz lt =
    rw (==_ne x 0 h.0, ==_ne x c h.1, memchr-nul p r c n h.2 nz (omega arith)) refl

-- `strchr` finds the first place of a character in a text, and nothing when the text lacks it.
pub strchr-c_string :
    (p r : List ℕ) (c : ℕ)
    → Lacks c p
    → c ≢ 0
    → (strchr (p ++ (c ∷ r)) c ≡ some (some (length p))) × (strchr (c_string p r) c ≡ some none)
unfolding strchr
strchr-c_string [] r c h nz =
    (rw (==_ne c 0 nz, ==_refl c) refl, rw (==_ne 0 c (λ e. nz (sym e))) refl)
strchr-c_string (x ∷ p) r c h nz =
    let (hit, miss) = strchr-c_string p r c h.2 nz in
    (
      rw (==_ne x 0 h.0, ==_ne x c h.1, hit) (ap (λ k. some (some k)) (omega arith)),
      rw (==_ne x 0 h.0, ==_ne x c h.1, miss) refl,
    )
