-- ===== src/Readline/Total.antt =====
-- No key makes the editor fail, but for two: a third number, and a terminal that reports a width of 0.
use libos.Prelude.{
  ℕ, ◌+◌, ◌-◌, ◌*◌, ◌%◌, ◌^◌, ◌≡◌, ◌<◌, inl, inr, refl, arith, Bool, true, false, Bool-cases, not,
  Option, some, none, List, leb, ◌==◌, ==_iff, ◌&&◌, ◌||◌, if◌then◌else◌,
}
use libos.Readline.{State, normal, escape, bracket, numeric, action, Readline}
use libos.Readline.Edit.{insert_char, backspace}
use libos.Readline.Keys.{
  Outcome, jump, arrow, is_digit, number_digit, bracket_key, numeric_key, report_width,
  report_status, tilde, escape_key, normal_key, key_in, key_step,
}
use libos.Readline.History.{IsValid}
use libos.Readline.Safe.{Safe, jump-Safe, left-Safe, right-Safe, up-Safe, down-Safe}
use libos.Readline.Commands.{
  SafeOutcome, insert_char-Safe, delete_char-Safe, backspace-Safe, plain-Safe, to_normal-Safe,
  enter-Safe, choose,
}

number_digit-Safe :
    (rl : Readline) (ch : ℕ) → IsValid rl → rl.num_idx < 2 → Safe (number_digit rl ch)
unfolding number_digit
number_digit-Safe rl ch v h = elim (Bool-cases (rl.num_idx == 0)) [
  | inl z ↦ (
    record rl { state = numeric; num₀ = (rl.num₀ * 10 + (ch - b'0')) % 2 ^ 32 },
    rw z refl,
    record { stored = v.stored; newest = v.newest; narrow = v.narrow },
  )
  | inr z ↦
      let one : (rl.num_idx == 1) ≡ true = ground arith in
      (
        record rl { state = numeric; num₁ = (rl.num₁ * 10 + (ch - b'0')) % 2 ^ 32 },
        rw (z, one) refl,
        record { stored = v.stored; newest = v.newest; narrow = v.narrow },
      )
]

arrow-Safe : (rl : Readline) (ch : ℕ) → IsValid rl → Safe (arrow rl ch)
unfolding arrow
arrow-Safe rl ch v = choose (ch == b'A') _ _ (up-Safe rl v) (
    choose (ch == b'B') _ _ (down-Safe rl v) (
      choose (ch == b'D') _ _ (left-Safe rl v) (
        choose (ch == b'C') _ _ (right-Safe rl v) (
          choose (ch == b'H') _ _ (jump-Safe rl 0 v (omega arith))
            (choose (ch == b'F') _ _ (jump-Safe rl rl.line.end v (omega arith)) (rl, refl, v))))))

tilde-Safe : (rl : Readline) → IsValid rl → Safe (tilde true rl)
unfolding tilde
tilde-Safe rl v =
    choose (not (rl.num_idx == 0)) _ _ (rl, refl, v)
      (choose (rl.num₀ == 1) _ _ (jump-Safe rl 0 v (omega arith)) (
        choose (rl.num₀ == 3) _ _ (delete_char-Safe rl v)
          (choose (rl.num₀ == 4) _ _ (jump-Safe rl rl.line.end v (omega arith)) (rl, refl, v))))

-- The two keys that are not answered for: a digit after two semicolons, and a report of a width of 0.
abbrev pub third_number : Readline → ℕ → Bool
third_number rl ch = is_digit ch && leb 2 rl.num_idx

abbrev pub zero_width : Readline → ℕ → Bool
zero_width rl ch = ch == b'R' && (rl.num_idx == 1 && rl.num₁ == 0)

abbrev pub breaks_in : State → Readline → ℕ → Bool
breaks_in normal rl ch = false
breaks_in escape rl ch = false
breaks_in bracket rl ch = third_number rl ch
breaks_in numeric rl ch = third_number rl ch || zero_width rl ch
breaks_in action rl ch = true

digit-Safe :
    (rl : Readline) (ch : ℕ)
    → IsValid rl
    → is_digit ch ≡ true
    → third_number rl ch ≡ false
    → Safe (number_digit rl ch)
digit-Safe rl ch v digit h = number_digit-Safe rl ch v (ground arith)

bracket_key-Safe :
    (rl : Readline) (ch : ℕ) → IsValid rl → third_number rl ch ≡ false → Safe (bracket_key rl ch)
unfolding bracket_key
bracket_key-Safe rl ch v h = elim (Bool-cases (is_digit ch)) [
  | inl digit ↦ rw digit (digit-Safe rl ch v digit h)
  | inr other ↦ rw other (to_normal-Safe (arrow rl ch) (arrow-Safe rl ch v))
]

report_width-IsValid :
    (rl : Readline) (ch : ℕ)
    → IsValid rl
    → ch ≡ b'R'
    → zero_width rl ch ≡ false
    → IsValid (report_width rl)
unfolding report_width
report_width-IsValid rl ch v e h = elim (Bool-cases (rl.num_idx == 1)) [
  | inr z ↦ rw z v
  | inl z ↦ rw z (record { stored = v.stored; newest = v.newest; narrow = inl (λ q. ground arith) })
]

report_status-IsValid : (rl : Readline) → IsValid rl → IsValid (report_status rl)
unfolding report_status
report_status-IsValid rl v = elim (Bool-cases (rl.num_idx == 0 && rl.num₀ == 0)) [
  | inr z ↦ rw z v
  | inl z ↦ rw z (record { stored = v.stored; newest = v.newest; narrow = v.narrow })
]

made_normal : (rl : Readline) → IsValid rl → Safe (some (record rl { state = normal }))
made_normal rl v = (
  record rl { state = normal },
  refl,
  record { stored = v.stored; newest = v.newest; narrow = v.narrow },
)

semicolon-Safe :
    (rl : Readline)
    → IsValid rl
    → Safe (
        some (
          if leb 2 rl.num_idx
          then record rl { state = normal }
          else record rl { num_idx = rl.num_idx + 1 }))
semicolon-Safe rl v = elim (Bool-cases (leb 2 rl.num_idx)) [
  | inl z ↦ simp z (made_normal rl v)
  | inr z ↦ (
    record rl { num_idx = rl.num_idx + 1 },
    simp z,
    record { stored = v.stored; newest = v.newest; narrow = v.narrow },
  )
]

numeric_key-Safe :
    (rl : Readline) (ch : ℕ)
    → IsValid rl
    → (third_number rl ch || zero_width rl ch) ≡ false
    → Safe (numeric_key true rl ch)
unfolding numeric_key
numeric_key-Safe rl ch v h = elim (Bool-cases (is_digit ch)) [
  | inl digit ↦ rw digit (digit-Safe rl ch v digit (ground arith))
  | inr other ↦ rw other (
      choose (ch == b';') _ _ (semicolon-Safe rl v) (elim (Bool-cases (ch == b'R')) [
        | inl y ↦
            let w = report_width-IsValid rl ch v ((==_iff ch b'R').0 y) (ground arith) in
            rw y (made_normal (report_width rl) w)
        | inr y ↦ rw y (
            choose (ch == b'n') _ _ (made_normal (report_status rl) (report_status-IsValid rl v)) (
              choose (ch == b'~') _ _ (to_normal-Safe (tilde true rl) (tilde-Safe rl v))
                (made_normal rl v)))
      ]))
]

choose_key :
    (b : Bool) (x y : Outcome) → SafeOutcome x → SafeOutcome y → SafeOutcome (if b then x else y)
choose_key true x y h k = h
choose_key false x y h k = k

normal_key-Safe : (rl : Readline) (ch : ℕ) → IsValid rl → SafeOutcome (normal_key true rl ch)
unfolding normal_key
normal_key-Safe rl ch v =
    choose_key (ch == 27) _ _
      (
        record rl { state = escape; num₀ = 0; num₁ = 0; num_idx = 0 },
        none,
        refl,
        record { stored = v.stored; newest = v.newest; narrow = v.narrow },
      )
      (choose_key (ch == 13) _ _ (enter-Safe rl v) (
        choose_key (ch == 8 || ch == 127) _ _ (plain-Safe (backspace true rl) (backspace-Safe rl v))
          (choose_key (ch == 1) _ _ (plain-Safe (jump rl 0) (jump-Safe rl 0 v (omega arith))) (
            choose_key (ch == 5) _ _
              (plain-Safe (jump rl rl.line.end) (jump-Safe rl rl.line.end v (omega arith)))
              (choose_key (leb 32 ch && leb ch 126) _ _
                (plain-Safe (insert_char true rl ch) (insert_char-Safe rl ch v))
                (rl, none, refl, v))))))

key_in-Safe :
    (s : State) (rl : Readline) (ch : ℕ)
    → IsValid rl
    → breaks_in s rl ch ≡ false
    → SafeOutcome (key_in s true rl ch)
unfolding key_in escape_key
key_in-Safe normal rl ch v h = normal_key-Safe rl ch v
key_in-Safe escape rl ch v h = (
  escape_key rl ch,
  none,
  refl,
  record { stored = v.stored; newest = v.newest; narrow = v.narrow },
)
key_in-Safe bracket rl ch v h = plain-Safe (bracket_key rl ch) (bracket_key-Safe rl ch v h)
key_in-Safe numeric rl ch v h = plain-Safe (numeric_key true rl ch) (numeric_key-Safe rl ch v h)
key_in-Safe action rl ch v h = cc

-- While there is memory, every key but the two that `breaks_in` names, in every state but that of a running
-- command, is handled without a failed assertion, an access outside a buffer or a division by zero, and
-- leaves a valid state.
pub key_step-IsValid :
    (rl : Readline) (ch : ℕ)
    → IsValid rl
    → breaks_in rl.state rl ch ≡ false
    → (rl' : Readline) × (command : Option (List ℕ)) × (key_step true rl ch ≡ some (rl', command))
      × IsValid rl'
unfolding key_step
key_step-IsValid rl ch v h = key_in-Safe rl.state rl ch v h
