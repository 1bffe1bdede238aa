-- ===== src/Readline/Commands.antt =====
-- The edits in every valid state, and the return key.
use libos.Prelude.{
  ℕ, ◌-◌, ◌≡◌, ◌≢◌, inl, inr, refl, ap, sym, ◌∙◌, arith, Bool, true, false, Bool-cases, Option,
  some, none, List, [], ◌∷◌, ◌++◌, le→ltb, ◌==◌, ◌||◌, if◌then◌else◌,
}
use libos.Readline.{Line, normal, action, Readline, Output, chars, emit, at_pos}
use libos.Readline.Edit.{
  Fresh, insert_char, delete_char, backspace, is_nil, get_newline, rev_onto, shorten,
}
use libos.Readline.Keys.{Outcome, enter, leave_line, next_lines, cleared, plain, to_normal}
use libos.Readline.Draw.{IsLine, moves, set_cursor_temp-moves}
use libos.Printf.Output.Laws.{slice-take}
use libos.Readline.Text.{text}
use libos.Readline.History.{
  IsValid, Newest-head, Newest-tail, is_nil-nil, some_newer, get_newline_lem, rev_onto-AllStored,
}
use libos.Readline.Editing.{insert_char-IsEdited, delete_char-IsEdited, backspace-IsEdited}
use libos.Readline.Safe.{Safe, width_cases, narrow_lem, insert_char-narrow, Newest-alone}

pub insert_char-Safe : (rl : Readline) (ch : ℕ) → IsValid rl → Safe (insert_char true rl ch)
insert_char-Safe rl ch v = elim (width_cases rl) [
  | inl z ↦ insert_char-narrow rl ch v z
  | inr (z, wide) ↦ elim (insert_char-IsEdited rl ch v wide) [
    | inl (full, e) ↦ (rl, e, v)
    | inr (rl', e, edited) ↦ (rl', e, edited.valid)
  ]
]

delete_char-narrow : (rl : Readline) → rl.line.pos ≡ rl.line.end → delete_char true rl ≡ some rl
unfolding delete_char
delete_char-narrow rl e =
    let here : (rl.line.pos == rl.line.end) ≡ true = ground arith in
    rw (le→ltb rl.line.end rl.line.pos (omega arith), here) refl

pub delete_char-Safe : (rl : Readline) → IsValid rl → Safe (delete_char true rl)
delete_char-Safe rl v = elim (width_cases rl) [
  | inl z ↦ (rl, delete_char-narrow rl (narrow_lem rl v z).2, v)
  | inr (z, wide) ↦ elim (delete_char-IsEdited rl v wide) [
    | inl (at_end, e) ↦ (rl, e, v)
    | inr (rl', e, edited) ↦ (rl', e, edited.valid)
  ]
]

backspace-narrow : (rl : Readline) → IsValid rl → (rl.width == 0) ≡ true → Safe (backspace true rl)
unfolding backspace
backspace-narrow rl v z = elim (Bool-cases (rl.line.pos == 0)) [
  | inl start ↦ (rl, rw start refl, v)
  | inr more ↦
      let (older, newer, at_end) = narrow_lem rl v z in
      let line = Newest-head rl.line rl.newer v.newest in
      let short = line.short in
      let size = line.size in
      (
        shorten (emit (at_pos rl (rl.line.pos - 1)) (chars (8 ∷ b' ' ∷ 8 ∷ []))),
        rw (more, z) refl,
        record {
          stored = v.stored;
          newest =
              Newest-alone (record rl.line { pos = rl.line.pos - 1; end = rl.line.end - 1 })
                rl.newer newer (record { inside = omega arith; short = omega arith; size = size });
          narrow = inr (older, newer, omega arith);
        },
      )
]

pub backspace-Safe : (rl : Readline) → IsValid rl → Safe (backspace true rl)
backspace-Safe rl v = elim (width_cases rl) [
  | inl z ↦ backspace-narrow rl v z
  | inr (z, wide) ↦ elim (backspace-IsEdited rl v wide) [
    | inl (start, e) ↦ (rl, e, v)
    | inr (rl', e, edited) ↦ (rl', e, edited.valid)
  ]
]

leave_line-Safe :
    (rl : Readline)
    → IsValid rl
    → (out : List Output) × (leave_line rl ≡ some (record rl { out = out }))
unfolding leave_line
leave_line-Safe rl v = elim (Bool-cases (rl.line.pos == rl.line.end)) [
  | inl e ↦ (rl.out, rw e refl)
  | inr e ↦ elim (width_cases rl) [
    | inl z ↦ let n = narrow_lem rl v z in absurd (ground arith)
    | inr (z, wide) ↦
        (rl.out ++ moves rl rl.line.end, rw e (set_cursor_temp-moves rl rl.line.end wide))
  ]
]

cleared-IsLine : (l : Line) → IsLine l → IsLine (cleared l)
cleared-IsLine l v = record { inside = omega arith; short = omega arith; size = v.size }

-- The line that follows a command.
fresh_lem :
    (rl : Readline)
    → IsValid rl
    → (f : Fresh) × (get_newline true rl ≡ some f)
      × ((r : Readline)
          → r.older ≡ rl.older
          → r.line ≡ rl.line
          → r.width ≡ rl.width
          → IsValid (next_lines r f))
unfolding get_newline rev_onto
fresh_lem rl v = elim (Bool-cases (rl.width == 0 || rl.line.end == 0)) [
  | inl same ↦ elim (Bool-cases (is_nil rl.newer)) [
    | inl alone ↦
        let none_newer = is_nil-nil rl.newer alone in
        (
          record { older = rl.older; newer = rl.newer; found = none },
          simp (same, alone),
          λ (r : Readline) a b c. record {
            stored = rw none_newer v.stored;
            newest = cleared-IsLine r.line (rw b (Newest-head rl.line rl.newer v.newest));
            narrow = elim (width_cases rl) [
              | inl z ↦ inr (rw (none_newer, (narrow_lem rl v z).0) refl, refl, refl)
              | inr (z, wide) ↦ inl (λ e. wide (sym c ∙ e))
            ];
          },
        )
    | inr more ↦ elim (width_cases rl) [
      | inl z ↦ let n = narrow_lem rl v z in absurd (cc (ap is_nil n.1))
      | inr (z, wide) ↦
          let filled = some_newer rl.line rl.newer more v.newest in absurd (ground arith)
    ]
  ]
  | inr found ↦
      let wide : rl.width ≢ 0 = λ e. ground arith in
      let filled : rl.line.end ≢ 0 = λ e. ground arith in
      let (newer', l, g, a, b) =
        get_newline_lem rl v.stored (Newest-tail rl.line rl.newer v.newest) wide filled in
      (
        record { older = rl.older; newer = newer'; found = some l },
        unfold get_newline in g,
        λ (r : Readline) p q c. record {
          stored = (
            rw q (Newest-head rl.line rl.newer v.newest, filled),
            rev_onto-AllStored newer' rl.older a v.stored,
          );
          newest = cleared-IsLine l b;
          narrow = inl (λ e. wide (sym c ∙ e));
        },
      )
]

pub choose : (b : Bool) (x y : Option Readline) → Safe x → Safe y → Safe (if b then x else y)
choose true x y h k = h
choose false x y h k = k

-- An outcome without a fault, in a valid state.
abbrev pub SafeOutcome : Outcome → Type 0
SafeOutcome o =
    (rl' : Readline) × (command : Option (List ℕ)) × (o ≡ some (rl', command)) × IsValid rl'

pub plain-Safe : (o : Option Readline) → Safe o → SafeOutcome (plain o)
plain-Safe o (rl', e, v) = (rl', none, ap plain e, v)

pub to_normal-Safe : (o : Option Readline) → Safe o → Safe (to_normal o)
to_normal-Safe o (rl', e, v) = (
  record rl' { state = normal },
  ap to_normal e,
  record { stored = v.stored; newest = v.newest; narrow = v.narrow },
)

-- The text of the line is the command.
pub enter_lem :
    (rl : Readline)
    → IsValid rl
    → (rl' : Readline) × (enter true rl ≡ some (rl', some (text rl.line))) × IsValid rl'
unfolding enter
enter_lem rl v =
    let line = Newest-head rl.line rl.newer v.newest in
    let (f, g, next) = fresh_lem rl v in
    let (out, left_it) = leave_line-Safe rl v in
    let r : Readline = emit (record rl { out = out }) (chars (13 ∷ 10 ∷ [])) in
    let w = next r refl refl refl in
    (
      record (next_lines r f) { state = action },
      rw (g, left_it, slice-take rl.line.buf rl.line.end (omega (arith, line.short, line.size)))
          refl,
      record { stored = w.stored; newest = w.newest; narrow = w.narrow },
    )

pub enter-Safe : (rl : Readline) → IsValid rl → SafeOutcome (enter true rl)
enter-Safe rl v = let (rl', e, w) = enter_lem rl v in (rl', some (text rl.line), e, w)
