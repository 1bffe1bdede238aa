-- ===== src/Strings/Compare.antt =====
-- `memcmp`, `strcmp` and `strncmp`. The results of C's `int` are integers.
pub mod Laws
use libos.Prelude.{ℕ, zero, suc, Option, some, none, List, [], ◌∷◌, not, ◌==◌, ◌&&◌, if◌then◌else◌}
use libos.Prelude.Int.{ℤ, pos, sub_ℕ}

unfoldable pub memcmp : List ℕ → List ℕ → ℕ → Option ℤ
memcmp b₁ b₂ zero = some (pos 0)
memcmp [] b₂ (suc len) = none
memcmp (x ∷ b₁) [] (suc len) = none
memcmp (x ∷ b₁) (y ∷ b₂) (suc len) = if not (x == y) then some (sub_ℕ x y) else memcmp b₁ b₂ len

-- It returns `*s2 - *s1`.
unfoldable pub strcmp : List ℕ → List ℕ → Option ℤ
strcmp [] s₂ = none
strcmp (x ∷ s₁) [] = none
strcmp (x ∷ s₁) (y ∷ s₂) =
    if not (x == 0) && (not (y == 0) && (x == y)) then strcmp s₁ s₂ else some (sub_ℕ y x)

unfoldable pub strncmp : List ℕ → List ℕ → ℕ → Option ℤ
strncmp s₁ s₂ zero = some (pos 0)
strncmp [] s₂ (suc n) = none
strncmp (x ∷ s₁) [] (suc n) = none
strncmp (x ∷ s₁) (y ∷ s₂) (suc n) =
    if not (x == 0) && (not (y == 0) && (x == y)) then strncmp s₁ s₂ n else some (sub_ℕ y x)
