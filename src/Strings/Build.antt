-- ===== src/Strings/Build.antt =====
-- `strcpy`, `strncpy`, `strcat` and `strncat`. The destination is an object, the source another.
pub mod Laws
use libos.Prelude.{
  ℕ, zero, suc, ◌+◌, ◌-◌, Option, some, none, List, [], ◌∷◌, ltb, ◌==◌, if◌then◌else◌, ◌>>=◌, drop,
  replicate, splice, store,
}
use libos.Strings.Measure.{strlen}

-- `do { *dest = *src++; } while (*dest++);` from index `i` of the destination.
unfoldable pub copy_string : List ℕ → ℕ → List ℕ → Option (List ℕ)
copy_string dest i [] = none
copy_string dest i (c ∷ src) = do
  dest' ← store dest i c
  if c == 0 then some dest' else copy_string dest' (i + 1) src

unfoldable pub strcpy : List ℕ → List ℕ → Option (List ℕ)
strcpy dest src = copy_string dest 0 src

unfoldable pub strcat : List ℕ → List ℕ → Option (List ℕ)
strcat dest src = do n ← strlen dest; copy_string dest n src

-- The loop `while (pos < len)` of `strncpy` and `strncat`, with `left` for `len - pos`, and the final
-- `pos`. The source is given from `src[pos]` on.
unfoldable pub copy_bounded : List ℕ → ℕ → List ℕ → ℕ → Option (List ℕ × ℕ)
copy_bounded dest i src zero = some (dest, i)
copy_bounded dest i [] (suc left) = none
copy_bounded dest i (c ∷ src) (suc left) = do
  dest' ← store dest i c
  if c == 0 then some (dest', i + 1) else copy_bounded dest' (i + 1) src left

unfoldable pub strncpy : List ℕ → List ℕ → ℕ → Option (List ℕ)
strncpy dest src len = do
  (dest', i) ← copy_bounded dest 0 src len
  splice dest' i (replicate (len - i) 0)

-- It goes on in the source from the index at which the destination ends.
unfoldable pub strncat : List ℕ → List ℕ → ℕ → Option (List ℕ)
strncat dest src len = do
  n ← strlen dest
  (dest', i) ← copy_bounded dest n (drop n src) (len - n)
  if ltb i len then splice dest' i (replicate (len - i) 0) else some dest'
