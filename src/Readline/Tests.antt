-- ===== src/Readline/Tests.antt =====
-- Sessions at the prompt.
use libos.Prelude.{
  ℕ, ◌≡◌, ◌⊎◌, inl, refl, arith, Bool, true, false, Option, some, none, List, [], ◌∷◌, ◌++◌, ◌==◌,
  if◌then◌else◌, replicate,
}
use libos.Readline.{normal, Line, Output, Readline, line_at, column_at, set_cursor_temp}
use libos.Readline.Edit.{insert_char, delete_char}
use libos.Readline.Keys.{run, key_step}
use libos.Readline.Draw.{IsLine}
use libos.Readline.History.{IsValid}
use libos.Readline.Editing.{IsEdited, insert_char-IsEdited, delete_char-IsEdited}
use libos.Readline.Total.{key_step-IsValid}
use libos.Readline.Screen.{cursor_after, set_cursor_temp-cursor_after}
use libos.Readline.Typing.{run-typed}
use libos.Readline.Faults.{run-third_digit}

-- The line "abc" with the cursor behind "a", on a screen of 10 columns with the prompt "> ".
abbrev abc : Line
abc = record { pos = 1; end = 3; buf = b'a' ∷ b'b' ∷ b'c' ∷ replicate 253 0 }

abbrev editor : Readline
editor = record {
  prompt = b'>' ∷ b' ' ∷ [];
  older = [];
  line = abc;
  newer = [];
  state = normal;
  num₀ = 0;
  num₁ = 0;
  num_idx = 0;
  width = 10;
  suspended = false;
  out = [];
}

abbrev at_end : Readline
at_end = record editor { line = record abc { pos = 3 } }

abc-IsLine : IsLine abc
abc-IsLine = record { inside = omega arith; short = omega arith; size = refl }

editor-IsValid : IsValid editor
editor-IsValid = record { stored = tt; newest = abc-IsLine; narrow = inl (omega arith) }

at_end-IsValid : IsValid at_end
at_end-IsValid = record {
  stored = tt;
  newest = record { inside = omega arith; short = omega arith; size = refl };
  narrow = inl (omega arith);
}

insert_char-IsEdited_example :
    (◌≡◌ {A = ℕ} 4 256) × (insert_char true editor b'x' ≡ some editor)
    ⊎ ((rl' : Readline) × (insert_char true editor b'x' ≡ some rl')
        × IsEdited editor rl' 2 (b'a' ∷ b'x' ∷ b'b' ∷ b'c' ∷ []))
insert_char-IsEdited_example = insert_char-IsEdited editor b'x' editor-IsValid (omega arith)

delete_char-IsEdited_example :
    ((◌≡◌ {A = ℕ} 1 3) × (delete_char true editor ≡ some editor))
    ⊎ ((rl' : Readline) × (delete_char true editor ≡ some rl')
        × IsEdited editor rl' 1 (b'a' ∷ b'c' ∷ []))
delete_char-IsEdited_example = delete_char-IsEdited editor editor-IsValid (omega arith)

key_step-IsValid_example :
    (rl' : Readline) × (command : Option (List ℕ)) × (key_step true editor 13 ≡ some (rl', command))
    × IsValid rl'
key_step-IsValid_example = key_step-IsValid editor 13 editor-IsValid refl

-- The cursor to place 8, which is the first column of the second row: it stays in column 3.
set_cursor_temp-cursor_after_example :
    (out : List Output) × (set_cursor_temp editor 8 ≡ some (record editor { out = [] ++ out }))
    × (cursor_after out (line_at editor 1, 3)
        ≡ (line_at editor 8, if column_at editor 8 == 0 then 3 else column_at editor 8))
set_cursor_temp-cursor_after_example = set_cursor_temp-cursor_after editor 8 3 (omega arith)

abbrev never : List ℕ → Bool
never line = false

run-typed_example :
    (rl' : Readline) × (run never true at_end (b'd' ∷ 13 ∷ [])
      ≡ some (rl', (b'a' ∷ b'b' ∷ b'c' ∷ b'd' ∷ []) ∷ []))
run-typed_example =
    run-typed never at_end (b'd' ∷ []) at_end-IsValid (omega arith) refl refl (omega arith)
      (omega arith)

run-third_digit_example : run never true editor (27 ∷ b'[' ∷ b'1' ∷ b';' ∷ b';' ∷ b'1' ∷ []) ≡ none
run-third_digit_example = run-third_digit never editor b'1' b'1' [] refl refl refl
