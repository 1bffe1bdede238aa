-- ===== src/Printf/Output.antt =====
-- `printf_string` and `printf_fill`: the buffer and the position `*opos`, which goes on counting when
-- the buffer is full.
pub mod Laws
use libos.Prelude.{
  ℕ, ◌-◌, Option, some, List, ltb, leb, if◌then◌else◌, ◌>>=◌, length, replicate, slice, splice,
}
use libos.Prelude.Words.{add64}

pub record Output : Type 0 where
  pub buf : List ℕ
  pub opos : ℕ

-- How many of `len` bytes are stored.
abbrev pub olen : ℕ → ℕ → ℕ → ℕ
olen opos limit len = if leb (add64 opos len) limit then len else limit - opos

unfoldable pub printf_string : Output → ℕ → List ℕ → ℕ → Option Output
printf_string out limit src len =
    if ltb out.opos limit
    then (do
      bytes ← slice src 0 (olen out.opos limit len)
      buf' ← splice out.buf out.opos bytes
      some (record { buf = buf'; opos = add64 out.opos len }))
    else some (record out { opos = add64 out.opos len })

unfoldable pub printf_fill : Output → ℕ → ℕ → ℕ → Option Output
printf_fill out limit ch len =
    if ltb out.opos limit
    then (do
      buf' ← splice out.buf out.opos (replicate (olen out.opos limit len) ch)
      some (record { buf = buf'; opos = add64 out.opos len }))
    else some (record out { opos = add64 out.opos len })
