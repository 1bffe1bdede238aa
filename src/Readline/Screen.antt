-- ===== src/Readline/Screen.antt =====
-- Where the escape sequences of `set_cursor_temp` take the cursor of the terminal.
use libos.Prelude.{
  ℕ, ◌+◌, ◌-◌, ◌≡◌, ◌≢◌, inl, inr, refl, ap, ◌∙◌, arith, Bool-cases, some, List, [], ◌∷◌, ◌++◌, ltb,
  ◌==◌, if◌then◌else◌,
}
use libos.Readline.{Output, vertical, column, chars, Readline, line_at, column_at, set_cursor_temp}
use libos.Readline.Draw.{vertical_move, column_move, moves, set_cursor_temp-moves}

-- A place on the screen: row and column.
abbrev pub Place : Type 0
Place = ℕ × ℕ

-- ANSI: `CSI n A` and `CSI n B` move up and down in the column; a carriage return and `CSI n C` lead to
-- column `n`. Characters are not shown here.
unfoldable pub cursor_after : List Output → Place → Place
cursor_after [] place = place
cursor_after (vertical back n ∷ out) place =
    cursor_after out (if back then place.0 - n else place.0 + n, place.1)
cursor_after (column n ∷ out) place = cursor_after out (place.0, n)
cursor_after (chars bytes ∷ out) place = cursor_after out place

cursor_after-column :
    (row c col : ℕ) → cursor_after (column_move col) (row, c) ≡ (row, if col == 0 then c else col)
unfolding cursor_after
cursor_after-column row c col = elim (Bool-cases (col == 0)) [
  | inl z ↦ rw z refl
  | inr z ↦ rw z refl
]

cursor_after-moves :
    (from to c col : ℕ)
    → cursor_after (vertical_move from to ++ column_move col) (from, c)
      ≡ (to, if col == 0 then c else col)
unfolding cursor_after
cursor_after-moves from to c col = elim (Bool-cases (ltb to from)) [
  | inl up ↦ rw up (
      cursor_after-column (from - (from - to)) c col
      ∙ ap (λ r. (r, if col == 0 then c else col)) {x = from - (from - to)} {y = to} (ground arith))
  | inr down ↦ elim (Bool-cases (to - from == 0)) [
    | inl z ↦
        rw (down, z)
          (cursor_after-column from c col
            ∙ ap (λ r. (r, if col == 0 then c else col)) {x = from} {y = to} (ground arith))
    | inr z ↦
        rw (down, z)
          (cursor_after-column (from + (to - from)) c col
            ∙ ap (λ r. (r, if col == 0 then c else col)) {x = from + (to - from)} {y = to}
                (ground arith))
  ]
]

-- With the cursor in the row of the line's position, `set_cursor_temp` fails in no way and takes it to the
-- row of the new position, and to its column unless that is the first one: then the cursor stays in the
-- column that it was in.
pub set_cursor_temp-cursor_after :
    (rl : Readline) (pos c : ℕ)
    → rl.width ≢ 0
    → (out : List Output) × (set_cursor_temp rl pos ≡ some (record rl { out = rl.out ++ out }))
      × (cursor_after out (line_at rl rl.line.pos, c)
          ≡ (line_at rl pos, if column_at rl pos == 0 then c else column_at rl pos))
unfolding moves
set_cursor_temp-cursor_after rl pos c wide = (
  moves rl pos,
  set_cursor_temp-moves rl pos wide,
  cursor_after-moves (line_at rl rl.line.pos) (line_at rl pos) c (column_at rl pos),
)
