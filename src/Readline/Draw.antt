-- ===== src/Readline/Draw.antt =====
-- What drawing leaves alone: the functions that move the cursor and show the line change the output only.
use native.Mathlib.Decide.{dec_lt}
use libos.Prelude.{
  ℕ, ◌+◌, ◌-◌, ◌/◌, ◌≡◌, ◌≢◌, ◌≤◌, ◌<◌, inl, inr, refl, ap, sym, ◌∙◌, arith, true, false,
  Bool-cases, some, List, [], ◌∷◌, ◌++◌, ltb, lt→ltb, ltb→lt, ◌==◌, ==_ne, if◌then◌else◌, length,
  slice_lem, tabulate, get_or, replicate, append-nil, append_assoc,
}
use libos.Readline.{
  Line, Output, vertical, column, Readline, line_at, column_at, set_cursor_temp, set_cursor,
  display_to_end, hide_line, unhide_line, at_pos, emit, chars, move_column, scroll, clear_line,
  clear_above,
}

div_mono : (a b w : ℕ) → a ≤ b → a / w ≤ b / w
div_mono a b w h = grind arith

-- The moves of the cursor from the place of the line to another.
abbrev pub vertical_move : ℕ → ℕ → List Output
vertical_move from to =
    if ltb to from
    then vertical true (from - to) ∷ []
    else if to - from == 0
    then []
    else vertical false (to - from) ∷ []

abbrev pub column_move : ℕ → List Output
column_move col = if col == 0 then [] else column col ∷ []

unfoldable pub moves : Readline → ℕ → List Output
moves rl pos =
    vertical_move (line_at rl rl.line.pos) (line_at rl pos) ++ column_move (column_at rl pos)

move_column_lem :
    (rl : Readline) (col : ℕ) → move_column rl col ≡ record rl { out = rl.out ++ column_move col }
move_column_lem rl col = elim (Bool-cases (col == 0)) [
  | inl z ↦ rw z (ap (λ o. record rl { out = o }) (sym (append-nil rl.out)))
  | inr z ↦ rw z refl
]

two_moves :
    (rl : Readline) (v : List Output) (col : ℕ)
    → move_column (record rl { out = rl.out ++ v }) col
      ≡ record rl { out = rl.out ++ (v ++ column_move col) }
two_moves rl v col =
    move_column_lem (record rl { out = rl.out ++ v }) col
    ∙ ap (λ o. record rl { out = o }) (append_assoc rl.out v (column_move col))

before :
    (rl : Readline) (pos : ℕ)
    → ltb (line_at rl pos) (line_at rl rl.line.pos) ≡ true
    → pos < rl.line.pos
unfolding line_at
before rl pos up = elim (dec_lt pos rl.line.pos) [
  | yes p ↦ p
  | no p ↦
      let mono =
        div_mono (rl.line.pos + length rl.prompt) (pos + length rl.prompt) rl.width (omega arith) in
      absurd (omega (arith, ltb→lt _ _ up))
]

-- Where the screen has a width, `set_cursor_temp` fails in no way, and gives out the moves.
pub set_cursor_temp-moves :
    (rl : Readline) (pos : ℕ)
    → rl.width ≢ 0
    → set_cursor_temp rl pos ≡ some (record rl { out = rl.out ++ moves rl pos })
unfolding set_cursor_temp moves
set_cursor_temp-moves rl pos wide =
    let to : ℕ = line_at rl pos in
    let from : ℕ = line_at rl rl.line.pos in
    elim (Bool-cases (ltb to from)) [
      | inl back ↦
          let lower : ltb pos rl.line.pos ≡ true = lt→ltb pos rl.line.pos (before rl pos back) in
          let some_up : (from - to == 0) ≡ false = ground arith in
          rw (==_ne rl.width 0 wide, back, lower, some_up)
            (ap some (two_moves rl (vertical true (from - to) ∷ []) (column_at rl pos)))
      | inr down ↦ elim (Bool-cases (to - from == 0)) [
        | inl z ↦
            rw (==_ne rl.width 0 wide, down, z) (ap some (move_column_lem rl (column_at rl pos)))
        | inr z ↦
            rw (==_ne rl.width 0 wide, down, z)
              (ap some (two_moves rl (vertical false (to - from) ∷ []) (column_at rl pos)))
      ]
    ]

-- A line that lies in its buffer.
pub record IsLine (l : Line) : Type 0 where
  pub inside : l.pos ≤ l.end
  pub short : l.end < 256
  pub size : length l.buf ≡ 256

pub set_cursor_lem :
    (rl : Readline) (pos : ℕ)
    → rl.width ≢ 0
    → set_cursor rl pos ≡ some (record (at_pos rl pos) { out = rl.out ++ moves rl pos })
unfolding set_cursor
set_cursor_lem rl pos wide = rw (set_cursor_temp-moves rl pos wide) refl

pub display_to_end_lem :
    (rl : Readline)
    → rl.width ≢ 0
    → rl.line.end ≤ length rl.line.buf
    → rl.line.pos ≤ rl.line.end
    → (out : List Output) × (display_to_end rl ≡ some (record rl { out = out }))
unfolding display_to_end
display_to_end_lem rl wide inside before = elim (Bool-cases (rl.line.end == rl.line.pos)) [
  | inl e ↦ (rl.out, rw e refl)
  | inr e ↦
      let bytes : List ℕ =
        tabulate (rl.line.end - rl.line.pos) (λ i. get_or rl.line.buf (rl.line.pos + i) 0) in
      let shown : Readline = scroll (emit rl (chars bytes)) (column_at rl rl.line.end) in
      elim (Bool-cases (column_at rl rl.line.end == 0)) [
        | inl c ↦
            let r : Readline =
              at_pos (emit (emit rl (chars bytes)) (chars (b' ' ∷ 8 ∷ []))) rl.line.end in
            (
              r.out ++ moves r rl.line.pos,
              rw
                  (
                    e,
                    ==_ne rl.width 0 wide,
                    slice_lem rl.line.buf rl.line.pos (rl.line.end - rl.line.pos) (omega arith),
                    c,
                    set_cursor_temp-moves r rl.line.pos wide,
                  )
                  refl,
            )
        | inr c ↦
            let r : Readline = at_pos (emit rl (chars bytes)) rl.line.end in
            (
              r.out ++ moves r rl.line.pos,
              rw
                  (
                    e,
                    ==_ne rl.width 0 wide,
                    slice_lem rl.line.buf rl.line.pos (rl.line.end - rl.line.pos) (omega arith),
                    c,
                    set_cursor_temp-moves r rl.line.pos wide,
                  )
                  refl,
            )
      ]
]

pub hide_line_lem :
    (rl : Readline)
    → rl.width ≢ 0
    → (out : List Output) × (hide_line rl ≡ some (record rl { out = out }))
unfolding hide_line
hide_line_lem rl wide = (
  (rl.out ++ moves rl rl.line.end)
      ++ (chars clear_line ∷ replicate (line_at rl rl.line.end) (chars clear_above)),
  rw (set_cursor_temp-moves rl rl.line.end wide) refl,
)

pub unhide_line_lem :
    (rl : Readline)
    → rl.width ≢ 0
    → rl.line.end ≤ length rl.line.buf
    → (out : List Output) × (unhide_line rl ≡ some (record rl { out = out }))
unfolding unhide_line
unhide_line_lem rl wide inside =
    let start : Readline = at_pos (emit rl (chars rl.prompt)) 0 in
    let (out, e) = display_to_end_lem start wide inside (omega arith) in
    let r : Readline = record start { out = out } in
    (
      out ++ moves r rl.line.pos,
      rw (==_ne rl.width 0 wide, e, set_cursor_lem r rl.line.pos wide) refl,
    )
