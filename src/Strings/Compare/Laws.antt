-- ===== src/Strings/Compare/Laws.antt =====
-- What the comparisons say of two texts.
use native.Mathlib.Decide.{ℕ_discrete}
use libos.Prelude.{
  ℕ, zero, suc, ◌<◌, ◌≡◌, ◌≢◌, ◌↔◌, refl, ap₂, arith, some, List, [], ◌∷◌, ◌++◌, ==_ne, ==_refl,
  length,
}
use libos.Prelude.Int.{ℤ, pos, sub_ℕ}
use libos.Strings.Measure.{NoNul, c_string}
use libos.Strings.Compare.{memcmp, strcmp, strncmp}

-- On texts `strcmp` returns 0 exactly when they are equal.
pub strcmp_iff :
    (xs ys r t : List ℕ)
    → NoNul xs
    → NoNul ys
    → (z : ℤ) × (strcmp (c_string xs r) (c_string ys t) ≡ some z) × ((z ≡ pos 0) ↔ (xs ≡ ys))
unfolding strcmp
strcmp_iff [] [] r t hx hy = (pos 0, refl, ((λ e. refl), (λ e. refl)))
strcmp_iff [] (y ∷ ys) r t hx hy = (sub_ℕ y 0, refl, ((λ e. ground arith), λ e. cc))
strcmp_iff (x ∷ xs) [] r t hx hy =
    (sub_ℕ 0 x, rw (==_ne x 0 hx.0) refl, ((λ e. ground arith), λ e. cc))
strcmp_iff (x ∷ xs) (y ∷ ys) r t hx hy = elim (ℕ_discrete x y) [
  | yes e ↦
      let (z, p, q) = strcmp_iff xs ys r t hx.1 hy.1 in
      (
        z,
        rw (==_ne x 0 hx.0, ==_ne y 0 hy.0, e, ==_refl y) p,
        ((λ a. ap₂ ◌∷◌ e (q.0 a)), λ a. q.1 (cc)),
      )
  | no n ↦ (
    sub_ℕ y x,
    rw (==_ne x 0 hx.0, ==_ne y 0 hy.0, ==_ne x y n) refl,
    ((λ a. ground arith), λ a. ground arith),
  )
]

-- Where two byte sequences first differ, `x` in the first and `y` in the second, `memcmp` returns
-- `x - y`, as C demands of all three, but `strcmp` and `strncmp` return `y - x`.
pub compare_at_difference :
    (p r t : List ℕ) (x y n : ℕ)
    → NoNul p
    → x ≢ y
    → length p < n
    → (memcmp (p ++ (x ∷ r)) (p ++ (y ∷ t)) n ≡ some (sub_ℕ x y))
      × (strcmp (p ++ (x ∷ r)) (p ++ (y ∷ t)) ≡ some (sub_ℕ y x))
      × (strncmp (p ++ (x ∷ r)) (p ++ (y ∷ t)) n ≡ some (sub_ℕ y x))
unfolding memcmp strcmp strncmp
compare_at_difference p r t x y zero hp ne lt = absurd (omega arith)
compare_at_difference [] r t x y (suc n) hp ne lt =
    (rw (==_ne x y ne) refl, ground (arith, ==_ne x y ne), ground (arith, ==_ne x y ne))
compare_at_difference (c ∷ p) r t x y (suc n) hp ne lt =
    let (a, b, d) = compare_at_difference p r t x y n hp.1 ne (omega arith) in
    (rw (==_refl c) a, rw (==_ne c 0 hp.0, ==_refl c) b, rw (==_ne c 0 hp.0, ==_refl c) d)
