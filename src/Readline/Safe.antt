-- ===== src/Readline/Safe.antt =====
-- No key makes the editor fail, but for two: a third number, and a terminal that reports a width of 0.
use libos.Prelude.{
  ℕ, ◌+◌, ◌-◌, ◌≡◌, ◌≢◌, ◌≤◌, ◌<◌, ◌⊎◌, inl, inr, refl, ap, sym, ◌∙◌, arith, true, false,
  Bool-cases, Option, some, List, [], ◌∷◌, ◌++◌, lt→ltb, lt→leb, ◌==◌, ==_iff, ◌||◌, length, store,
  splice_lem, patch, length-patch,
}
use libos.Readline.{Line, Readline, Output, chars, at_pos, set_cursor, display_to_end}
use libos.Readline.Edit.{own_line, insert_char, open_gap, is_nil}
use libos.Readline.Keys.{jump, left, right, up, up_to, down, down_to}
use libos.Readline.Draw.{IsLine, moves, set_cursor_lem, hide_line_lem, unhide_line_lem}
use libos.Readline.History.{IsValid, AllStored, Newest, Newest-head}

-- A result without a fault, in a valid state.
abbrev pub Safe : Option Readline → Type 0
Safe o = (rl' : Readline) × (o ≡ some rl') × IsValid rl'

Newest-change :
    (l l' : Line) (ls : List Line) → Newest (l ∷ ls) → IsLine l' → l'.end ≡ l.end → Newest (l' ∷ ls)
Newest-change l l' [] h k e = k
Newest-change l l' (l₂ ∷ ls) h k e = ((k, λ z. h.0.1 (sym e ∙ z)), h.1)

-- The cursor somewhere in the line.
pub placed :
    (rl : Readline) (pos : ℕ) (out : List Output)
    → IsValid rl
    → rl.width ≢ 0
    → pos ≤ rl.line.end
    → IsValid (record (at_pos rl pos) { out = out })
placed rl pos out v wide h =
    let line = Newest-head rl.line rl.newer v.newest in
    record {
      stored = v.stored;
      newest =
          Newest-change rl.line (record rl.line { pos = pos }) rl.newer v.newest
            (record { inside = h; short = line.short; size = line.size }) refl;
      narrow = inl wide;
    }

set_cursor-Safe :
    (rl : Readline) (pos : ℕ)
    → IsValid rl
    → rl.width ≢ 0
    → pos ≤ rl.line.end
    → Safe (set_cursor rl pos)
set_cursor-Safe rl pos v wide h = (
  record (at_pos rl pos) { out = rl.out ++ moves rl pos },
  set_cursor_lem rl pos wide,
  placed rl pos (rl.out ++ moves rl pos) v wide h,
)

pub width_cases :
    (rl : Readline) → ((rl.width == 0) ≡ true) ⊎ (((rl.width == 0) ≡ false) × (rl.width ≢ 0))
width_cases rl = elim (Bool-cases (rl.width == 0)) [
  | inl z ↦ inl z
  | inr z ↦ inr (z, λ e. cc ((==_iff rl.width 0).1 e))
]

-- Before a width is known there is one line, with the cursor at its end.
pub narrow_lem :
    (rl : Readline)
    → IsValid rl
    → (rl.width == 0) ≡ true
    → (rl.older ≡ []) × (rl.newer ≡ []) × (rl.line.pos ≡ rl.line.end)
narrow_lem rl v z = elim v.narrow [ inl wide ↦ absurd (wide ((==_iff rl.width 0).0 z)) | inr n ↦ n ]

pub jump-Safe : (rl : Readline) (pos : ℕ) → IsValid rl → pos ≤ rl.line.end → Safe (jump rl pos)
unfolding jump
jump-Safe rl pos v h = elim (width_cases rl) [
  | inl z ↦ (rl, rw z refl, v)
  | inr (z, wide) ↦ rw z (set_cursor-Safe rl pos v wide h)
]

pub left-Safe : (rl : Readline) → IsValid rl → Safe (left rl)
unfolding left
left-Safe rl v = elim (Bool-cases (rl.line.pos == 0 || rl.width == 0)) [
  | inl z ↦ (rl, rw z refl, v)
  | inr z ↦
      let inside = (Newest-head rl.line rl.newer v.newest).inside in
      rw z (set_cursor-Safe rl (rl.line.pos - 1) v (λ e. ground arith) (omega arith))
]

pub right-Safe : (rl : Readline) → IsValid rl → Safe (right rl)
unfolding right
right-Safe rl v = elim (Bool-cases (rl.line.pos == rl.line.end)) [
  | inl z ↦ (rl, rw z refl, v)
  | inr z ↦
      let inside = (Newest-head rl.line rl.newer v.newest).inside in
      let before : rl.line.pos < rl.line.end = ground arith in
      elim (width_cases rl) [
        | inl w ↦ let n = narrow_lem rl v w in absurd (omega arith)
        | inr (w, wide) ↦
            rw (z, w, lt→ltb rl.line.pos rl.line.end before)
              (set_cursor-Safe rl (rl.line.pos + 1) v wide (omega arith))
      ]
]

up_to-Safe :
    (rl : Readline) (ls : List Line) → IsValid rl → rl.width ≢ 0 → AllStored ls → Safe (up_to rl ls)
unfolding up_to
up_to-Safe rl [] v wide h = (rl, refl, v)
up_to-Safe rl (l ∷ ls) v wide h =
    let (out, hidden) = hide_line_lem rl wide in
    let r : Readline = record rl { older = ls; line = l; newer = rl.line ∷ rl.newer; out = out } in
    let line = h.0.0 in
    let (out', shown) = unhide_line_lem r wide (omega (arith, line.short, line.size)) in
    (
      record r { out = out' },
      rw hidden shown,
      record { stored = h.1; newest = (h.0, v.newest); narrow = inl wide },
    )

pub up-Safe : (rl : Readline) → IsValid rl → Safe (up rl)
unfolding up up_to
up-Safe rl v = elim (width_cases rl) [
  | inl z ↦ (rl, ap (up_to rl) (narrow_lem rl v z).0, v)
  | inr (z, wide) ↦ up_to-Safe rl rl.older v wide v.stored
]

down_to-Safe :
    (rl : Readline) (ls : List Line)
    → IsValid rl
    → rl.width ≢ 0
    → Newest (rl.line ∷ ls)
    → Safe (down_to rl ls)
unfolding down_to
down_to-Safe rl [] v wide h = (rl, refl, v)
down_to-Safe rl (l ∷ ls) v wide h =
    let (out, hidden) = hide_line_lem rl wide in
    let r : Readline = record rl { newer = ls; line = l; older = rl.line ∷ rl.older; out = out } in
    let line = Newest-head l ls h.1 in
    let (out', shown) = unhide_line_lem r wide (omega (arith, line.short, line.size)) in
    (
      record r { out = out' },
      rw hidden shown,
      record { stored = (h.0, v.stored); newest = h.1; narrow = inl wide },
    )

pub down-Safe : (rl : Readline) → IsValid rl → Safe (down rl)
unfolding down down_to
down-Safe rl v = elim (width_cases rl) [
  | inl z ↦ (rl, ap (down_to rl) (narrow_lem rl v z).1, v)
  | inr (z, wide) ↦ down_to-Safe rl rl.newer v wide v.newest
]

store_end :
    (mem : List ℕ) (i c : ℕ)
    → i < length mem
    → (store mem i c ≡ some (patch mem i (c ∷ []))) × (length (patch mem i (c ∷ [])) ≡ length mem)
unfolding store
store_end mem i c h =
    (splice_lem mem i (c ∷ []) (omega arith), length-patch mem i (c ∷ []) (omega arith))

pub Newest-alone : (l : Line) (ls : List Line) → ls ≡ [] → IsLine l → Newest (l ∷ ls)
Newest-alone l [] e h = h
Newest-alone l (l' ∷ ls) e h = cc

-- Without a width a line is edited at its end only.
pub insert_char-narrow :
    (rl : Readline) (ch : ℕ) → IsValid rl → (rl.width == 0) ≡ true → Safe (insert_char true rl ch)
unfolding insert_char own_line open_gap display_to_end
insert_char-narrow rl ch v z =
    let (older, newer, at_end) = narrow_lem rl v z in
    let line = Newest-head rl.line rl.newer v.newest in
    let short = line.short in
    let size = line.size in
    let alone : is_nil rl.newer ≡ true = ap is_nil newer in
    elim (Bool-cases (rl.line.end + 1 == 256)) [
      | inl full ↦ (rl, rw (lt→leb rl.line.end 256 short, full) refl, v)
      | inr room ↦
          let fits : rl.line.end + 1 < 256 = ground arith in
          let here : (rl.line.end == rl.line.pos) ≡ true = ground arith in
          let there : (rl.line.end + 1 == rl.line.pos + 1) ≡ true = ground arith in
          let (put, same) = store_end rl.line.buf rl.line.pos ch (omega arith) in
          let l : Line = record {
            pos = rl.line.pos + 1;
            end = rl.line.end + 1;
            buf = patch rl.line.buf rl.line.pos (ch ∷ []);
          } in
          (
            record rl { line = l; out = rl.out ++ (chars (ch ∷ []) ∷ []) },
            simp (lt→leb rl.line.end 256 short, room, alone, here, put, there),
            record {
              stored = v.stored;
              newest =
                  Newest-alone l rl.newer newer
                    (record { inside = omega arith; short = fits; size = omega (arith, same) });
              narrow = inr (older, newer, omega arith);
            },
          )
    ]
