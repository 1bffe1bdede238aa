-- ===== src/Strings/Search.antt =====
-- `strchr`, `memchr`, `memrchr` and `strstr`. The outer option is a fault; a hit is the offset.
pub mod Laws
use libos.Prelude.{
  ℕ, zero, suc, ◌+◌, ◌-◌, Option, some, none, List, [], ◌∷◌, not, ltb, ◌==◌, ◌||◌, ◌&&◌,
  if◌then◌else◌, ◌>>=◌, get_elem?, drop, Bool, false,
}
use libos.Prelude.Int.{ℤ, pos, negsuc}
use libos.Strings.Measure.{strlen}
use libos.Strings.Compare.{memcmp}

-- One more step from the start.
abbrev pub shift : Option (Option ℕ) → Option (Option ℕ)
shift none = none
shift (some none) = some none
shift (some (some i)) = some (some (i + 1))

unfoldable pub strchr : List ℕ → ℕ → Option (Option ℕ)
strchr [] c = none
strchr (x ∷ s) c =
    if not (x == 0) && not (x == c)
    then shift (strchr s c)
    else if x == c
    then some (some 0)
    else some none

-- The byte is read before the length is looked at.
unfoldable pub memchr : List ℕ → ℕ → ℕ → Option (Option ℕ)
memchr [] c len = none
memchr (x ∷ s) c zero = if x == c then some (some 0) else some none
memchr (x ∷ s) c (suc len) =
    if not (x == 0) && not (x == c)
    then shift (memchr s c len)
    else if x == c
    then some (some 0)
    else some none

-- The index goes down from the given length; at index -1 it reads before the range.
unfoldable pub memrchr : List ℕ → ℕ → ℕ → Option (Option ℕ)
memrchr s c zero = none
memrchr s c (suc i) =
    let rest = memrchr s c i in
    do
      x ← get_elem? s i
      if not (x == 0) && not (x == c) then rest else if x == c then some (some i) else some none

-- `while (pos < len && s1[pos] != s2[0]) pos++;` with `left` for `len - pos`.
unfoldable pub skip_to : List ℕ → ℕ → ℕ → ℕ → Option ℕ
skip_to s c i zero = some i
skip_to s c i (suc left) =
    let rest = skip_to s c (i + 1) left in
    do x ← get_elem? s i; if not (x == c) then rest else some i

abbrev pub is_zero : ℤ → Bool
is_zero (pos n) = n == 0
is_zero (negsuc n) = false

-- The outer loop from `pos` on. The first argument is fuel, and `len + 1 - pos` is enough.
unfoldable pub strstr_loop : ℕ → List ℕ → List ℕ → ℕ → ℕ → ℕ → ℕ → Option (Option ℕ)
strstr_loop zero s₁ s₂ c len len₂ i = none
strstr_loop (suc fuel) s₁ s₂ c len len₂ i = do
  p ← skip_to s₁ c i (len - i)
  if not (ltb p len) || ltb (len - p) len₂ then some none else (do
    r ← memcmp (drop p s₁) s₂ len₂
    let rest = strstr_loop fuel s₁ s₂ c len len₂ (p + 1) in
        if is_zero r then some (some p) else rest)

unfoldable pub strstr : List ℕ → List ℕ → Option (Option ℕ)
strstr s₁ s₂ = do
  len ← strlen s₁
  len₂ ← strlen s₂
  c ← get_elem? s₂ 0
  if len₂ == 0 then some (some 0) else strstr_loop (len + 1) s₁ s₂ c len len₂ 0
