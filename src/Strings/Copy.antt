-- ===== src/Strings/Copy.antt =====
-- `memcpy` with its loop over words, and `memmove`, on one memory that holds both ranges.
pub mod Laws
use libos.Prelude.{
  ℕ, zero, suc, ◌+◌, ◌-◌, ◌%◌, Option, some, List, ◌∷◌, [], ltb, not, ◌==◌, if◌then◌else◌, ◌&&◌,
  ◌>>=◌, slice, splice,
}

-- `for (i = 0; i < len; i++) cd[i] = cs[i];`, and the last loop of `memcpy`.
unfoldable pub copy_bytes : List ℕ → ℕ → ℕ → ℕ → Option (List ℕ)
copy_bytes mem dest src zero = some mem
copy_bytes mem dest src (suc len) = do
  c ← slice mem src 1
  mem' ← splice mem dest c
  copy_bytes mem' (dest + 1) (src + 1) len

-- What the loops of `memcpy` carry on: the memory, `cd`, `cs` and `len`.
abbrev pub Cursor : Type 0
Cursor = List ℕ × ℕ × ℕ × ℕ

-- `while (len > 0 && (cd & lowbits))`, by bytes up to a word boundary.
unfoldable pub align_loop : List ℕ → ℕ → ℕ → ℕ → Option Cursor
align_loop mem dest src zero = some (mem, dest, src, 0)
align_loop mem dest src (suc len) = if dest % 8 == 0 then some (mem, dest, src, suc len) else (do
  c ← slice mem src 1
  mem' ← splice mem dest c
  align_loop mem' (dest + 1) (src + 1) len)

-- `while (len > lowbits)`, by words of eight bytes. The first argument is fuel, and `len` is enough.
unfoldable pub word_loop : ℕ → List ℕ → ℕ → ℕ → ℕ → Option Cursor
word_loop zero mem dest src len = some (mem, dest, src, len)
word_loop (suc fuel) mem dest src len =
    if ltb 7 len
    then (do
      w ← slice mem src 8
      mem' ← splice mem dest w
      word_loop fuel mem' (dest + 8) (src + 8) (len - 8))
    else some (mem, dest, src, len)

unfoldable pub memcpy : List ℕ → ℕ → ℕ → ℕ → Option (List ℕ)
memcpy mem dest src len = if not (dest % 8 == src % 8) then copy_bytes mem dest src len else (do
  (mem₁, d₁, s₁, n₁) ← align_loop mem dest src len
  (mem₂, d₂, s₂, n₂) ← word_loop n₁ mem₁ d₁ s₁ n₁
  copy_bytes mem₂ d₂ s₂ n₂)

-- `for (i = len - 1; i < len; i--) cd[i] = cs[i];`, down from the last byte.
unfoldable pub copy_down : List ℕ → ℕ → ℕ → ℕ → Option (List ℕ)
copy_down mem dest src zero = some mem
copy_down mem dest src (suc i) = do
  c ← slice mem (src + i) 1
  mem' ← splice mem (dest + i) c
  copy_down mem' dest src i

unfoldable pub memmove : List ℕ → ℕ → ℕ → ℕ → Option (List ℕ)
memmove mem dest src len =
    if ltb dest src then memcpy mem dest src len else copy_down mem dest src len
