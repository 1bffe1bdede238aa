-- ===== src/Readline/Faults.antt =====
-- Input that makes the editor write behind its two numbers.
use libos.Prelude.{
  ℕ, ◌+◌, ◌-◌, ◌*◌, ◌%◌, ◌^◌, ◌≡◌, refl, ap, ◌∙◌, Bool, true, some, none, List, ◌∷◌,
}
use libos.Readline.{normal, escape, bracket, numeric, Readline}
use libos.Readline.Keys.{
  key_in, key_step, normal_key, escape_key, bracket_key, numeric_key, number_digit, is_digit, run,
}

run_step :
    (quits : List ℕ → Bool) (rl rl' : Readline) (ch : ℕ) (keys : List ℕ)
    → key_step true rl ch ≡ some (rl', none)
    → run quits true rl (ch ∷ keys) ≡ run quits true rl' keys
unfolding run
run_step quits rl rl' ch keys e = rw (e, run) refl

run_fault :
    (quits : List ℕ → Bool) (rl : Readline) (ch : ℕ) (keys : List ℕ)
    → key_step true rl ch ≡ none
    → run quits true rl (ch ∷ keys) ≡ none
unfolding run
run_fault quits rl ch keys e = rw (e, run) refl

escaped : Readline → Readline
escaped rl = record rl { state = escape; num₀ = 0; num₁ = 0; num_idx = 0 }

escape_step : (rl : Readline) → rl.state ≡ normal → key_step true rl 27 ≡ some (escaped rl, none)
unfolding key_step key_in normal_key escaped
escape_step rl st = ap (λ s. key_in s true rl 27) st

bracketed : Readline → Readline
unfolding escaped
bracketed rl = record (escaped rl) { state = bracket }

bracket_step : (rl : Readline) → key_step true (escaped rl) b'[' ≡ some (bracketed rl, none)
unfolding key_step key_in escape_key bracketed
bracket_step rl = refl

numbered : Readline → ℕ → ℕ → Readline
unfolding bracketed
numbered rl d idx = record (bracketed rl) {
  state = numeric;
  num₀ = (0 * 10 + (d - b'0')) % 2 ^ 32;
  num_idx = idx;
}

digit_step :
    (rl : Readline) (d : ℕ)
    → is_digit d ≡ true
    → key_step true (bracketed rl) d ≡ some (numbered rl d 0, none)
unfolding key_step key_in bracket_key number_digit numbered
digit_step rl d h = rw h refl

first_semicolon :
    (rl : Readline) (d : ℕ) → key_step true (numbered rl d 0) b';' ≡ some (numbered rl d 1, none)
unfolding key_step key_in numeric_key numbered
first_semicolon rl d = refl

second_semicolon :
    (rl : Readline) (d : ℕ) → key_step true (numbered rl d 1) b';' ≡ some (numbered rl d 2, none)
unfolding key_step key_in numeric_key numbered
second_semicolon rl d = refl

third_digit :
    (rl : Readline) (d e : ℕ) → is_digit e ≡ true → key_step true (numbered rl d 2) e ≡ none
unfolding key_step key_in numeric_key number_digit numbered
third_digit rl d e h = rw h refl

-- An escape sequence with a third number, as in `ESC [ 1 ; ; 1`, writes behind `rl->num`, in any state of
-- the lines.
pub run-third_digit :
    (quits : List ℕ → Bool) (rl : Readline) (d e : ℕ) (keys : List ℕ)
    → rl.state ≡ normal
    → is_digit d ≡ true
    → is_digit e ≡ true
    → run quits true rl (27 ∷ b'[' ∷ d ∷ b';' ∷ b';' ∷ e ∷ keys) ≡ none
run-third_digit quits rl d e keys st hd he =
    run_step quits rl (escaped rl) 27 (b'[' ∷ d ∷ b';' ∷ b';' ∷ e ∷ keys) (escape_step rl st)
    ∙ run_step quits (escaped rl) (bracketed rl) b'[' (d ∷ b';' ∷ b';' ∷ e ∷ keys) (bracket_step rl)
    ∙ run_step quits (bracketed rl) (numbered rl d 0) d (b';' ∷ b';' ∷ e ∷ keys)
        (digit_step rl d hd)
    ∙ run_step quits (numbered rl d 0) (numbered rl d 1) b';' (b';' ∷ e ∷ keys)
        (first_semicolon rl d)
    ∙ run_step quits (numbered rl d 1) (numbered rl d 2) b';' (e ∷ keys) (second_semicolon rl d)
    ∙ run_fault quits (numbered rl d 2) e keys (third_digit rl d e he)
