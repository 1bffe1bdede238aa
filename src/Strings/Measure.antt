-- ===== src/Strings/Measure.antt =====
-- `strlen` and `strnlen`, and texts as they stand in memory.
use libos.Prelude.{
  ℕ, zero, suc, ◌+◌, ◌≢◌, min, ◌≡◌, refl, ap, arith, Option, some, none, List, [], ◌∷◌, ◌++◌, ◌==◌,
  ==_ne, if◌then◌else◌, ◌>>=◌, length,
}

unfoldable pub strlen : List ℕ → Option ℕ
strlen [] = none
strlen (c ∷ s) = if c == 0 then some 0 else (do n ← strlen s; some (n + 1))

unfoldable pub strnlen : List ℕ → ℕ → Option ℕ
strnlen s zero = some 0
strnlen [] (suc n) = none
strnlen (c ∷ s) (suc n) = if c == 0 then some 0 else (do k ← strnlen s n; some (k + 1))

-- The characters of a text, which has no NUL; in memory it is followed by one.
abbrev pub NoNul : List ℕ → Type 0
NoNul [] = Unit
NoNul (c ∷ cs) = (c ≢ 0) × NoNul cs

abbrev pub c_string : List ℕ → List ℕ → List ℕ
c_string text rest = text ++ (0 ∷ rest)

-- The length of a text, and the length cut at a limit, whatever stands behind the text.
pub strlen-c_string :
    (text rest : List ℕ) (limit : ℕ)
    → NoNul text
    → (strlen (c_string text rest) ≡ some (length text))
      × (strnlen (c_string text rest) limit ≡ some (min limit (length text)))
unfolding strlen strnlen
strlen-c_string [] rest zero h = (refl, refl)
strlen-c_string [] rest (suc limit) h = (refl, ap some (omega arith))
strlen-c_string (c ∷ text) rest zero h = (
  rw (==_ne c 0 h.0, (strlen-c_string text rest 0 h.1).0) (ap some (omega arith)),
  ap some (omega arith),
)
strlen-c_string (c ∷ text) rest (suc limit) h =
    let (whole, cut) = strlen-c_string text rest limit h.1 in
    (
      rw (==_ne c 0 h.0, whole) (ap some (omega arith)),
      rw (==_ne c 0 h.0, cut) (ap some (omega arith)),
    )
