-- ===== src/Readline/Typing.antt =====
-- A line that is typed and sent.
use libos.Prelude.{
  ℕ, zero, suc, ◌+◌, ◌≡◌, ◌≢◌, ◌≤◌, ◌<◌, inl, inr, refl, ap, sym, ◌∙◌, arith, Bool, true,
  Bool-cases, some, none, List, [], ◌∷◌, ◌++◌, append_assoc, append-nil, ==_ne, length, take, drop,
  length-take, length-append, ap₂, le→leb,
}
use libos.Readline.{normal, Readline, Line}
use libos.Readline.Edit.{insert_char}
use libos.Readline.Keys.{normal_key, key_in, key_step, enter, plain, run, finish_action}
use libos.Readline.Draw.{IsLine}
use libos.Readline.Text.{text, insert_at}
use libos.Readline.History.{IsValid, Newest-head}
use libos.Readline.Editing.{insert_char-IsEdited}
use libos.Readline.Commands.{enter_lem}

-- Characters from 32 to 126.
abbrev pub IsPrintable : List ℕ → Type 0
IsPrintable [] = Unit
IsPrintable (c ∷ cs) = (32 ≤ c) × (c ≤ 126) × IsPrintable cs

take-length : (xs : List ℕ) (n : ℕ) → length xs ≤ n → take n xs ≡ xs
take-length [] zero h = refl
take-length [] (suc n) h = refl
take-length (x ∷ xs) zero h = absurd (omega arith)
take-length (x ∷ xs) (suc n) h = ap (λ l. x ∷ l) (take-length xs n (omega arith))

drop-length : (xs : List ℕ) (n : ℕ) → length xs ≤ n → drop n xs ≡ []
drop-length [] zero h = refl
drop-length [] (suc n) h = refl
drop-length (x ∷ xs) zero h = absurd (omega arith)
drop-length (x ∷ xs) (suc n) h = drop-length xs n (omega arith)

-- At the end a character is put behind the text.
insert_at-end : (xs : List ℕ) (i c : ℕ) → i ≡ length xs → insert_at xs i c ≡ xs ++ (c ∷ [])
insert_at-end xs i c e =
    ap₂ (λ a b. a ++ (c ∷ b)) (take-length xs i (omega arith)) (drop-length xs i (omega arith))

printable_key :
    (rl : Readline) (c : ℕ)
    → rl.state ≡ normal
    → 32 ≤ c
    → c ≤ 126
    → key_step true rl c ≡ plain (insert_char true rl c)
unfolding key_step key_in normal_key
printable_key rl c st low high =
    ap (λ s. key_in s true rl c) st
    ∙ rw
        (
          ==_ne c 27 (λ e. absurd (omega arith)),
          ==_ne c 13 (λ e. absurd (omega arith)),
          ==_ne c 8 (λ e. absurd (omega arith)),
          ==_ne c 127 (λ e. absurd (omega arith)),
          ==_ne c 1 (λ e. absurd (omega arith)),
          ==_ne c 5 (λ e. absurd (omega arith)),
          le→leb 32 c low,
          le→leb c 126 high,
        )
        refl

run_printable :
    (quits : List ℕ → Bool) (rl rl' : Readline) (c : ℕ) (keys : List ℕ)
    → rl.state ≡ normal
    → 32 ≤ c
    → c ≤ 126
    → insert_char true rl c ≡ some rl'
    → run quits true rl (c ∷ keys) ≡ run quits true rl' keys
unfolding run
run_printable quits rl rl' c keys st low high e =
    let step : key_step true rl c ≡ some (rl', none) =
      printable_key rl c st low high ∙ ap plain e in
    rw (step, run) refl

length-text : (l : Line) → IsLine l → length (text l) ≡ l.end
length-text l v = let short = v.short in let size = v.size in omega (arith, length-take l.end l.buf)

-- Printable characters, as many as the line has room for, are put behind the text.
typed_lem :
    (quits : List ℕ → Bool) (rl : Readline) (cs keys : List ℕ)
    → IsValid rl
    → rl.width ≢ 0
    → rl.state ≡ normal
    → rl.line.pos ≡ rl.line.end
    → rl.line.end + length cs < 256
    → IsPrintable cs
    → (rl' : Readline) × (run quits true rl (cs ++ keys) ≡ run quits true rl' keys)
      × IsValid rl'
      × (rl'.state ≡ normal)
      × (text rl'.line ≡ text rl.line ++ cs)
typed_lem quits rl [] keys v wide st at_end room h =
    (rl, refl, v, st, sym (append-nil (text rl.line)))
typed_lem quits rl (c ∷ cs) keys v wide st at_end room (low, high, h) =
    elim (insert_char-IsEdited rl c v wide) [
      | inl (full, e) ↦ absurd (omega arith)
      | inr (r, e, edited) ↦
          let line = Newest-head rl.line rl.newer v.newest in
          let line' = Newest-head r.line r.newer edited.valid.newest in
          let longer : text r.line ≡ text rl.line ++ (c ∷ []) =
            edited.contents
            ∙ insert_at-end (text rl.line) rl.line.pos c
                (omega (arith, length-text rl.line line)) in
          let end' : r.line.end ≡ rl.line.end + 1 = omega (
            arith,
            length-text r.line line',
            length-text rl.line line,
            ap length longer,
            length-append (text rl.line) (c ∷ []),
          ) in
          let (rl', more, v', st', contents) =
            typed_lem quits r cs keys edited.valid
              (λ z. wide (sym (ap (λ (x : Readline). x.width) edited.same) ∙ z))
              (ap (λ (x : Readline). x.state) edited.same ∙ st) (edited.place ∙ omega arith)
              (omega arith) h in
          (
            rl',
            run_printable quits rl r c (cs ++ keys) st low high e ∙ more,
            v',
            st',
            contents ∙ ap (λ t. t ++ cs) longer ∙ append_assoc (text rl.line) (c ∷ []) cs,
          )
    ]

enter_key : (rl : Readline) → rl.state ≡ normal → key_step true rl 13 ≡ enter true rl
unfolding key_step key_in normal_key
enter_key rl st = ap (λ s. key_in s true rl 13) st

send_lem :
    (quits : List ℕ → Bool) (rl : Readline)
    → IsValid rl
    → rl.state ≡ normal
    → (rl' : Readline) × (run quits true rl (13 ∷ []) ≡ some (rl', text rl.line ∷ []))
unfolding run
send_lem quits rl v st =
    let (r, e, w) = enter_lem rl v in
    let step = enter_key rl st ∙ e in
    elim (Bool-cases (quits (text rl.line))) [
      | inl q ↦ (r, rw (step, run, q) refl)
      | inr q ↦ (finish_action r, rw (step, run, q) refl)
    ]

-- On a terminal of known width, in a valid state outside an escape sequence, printable characters that are typed
-- at the end of a line, so many that it stays below 256 characters, and then the return key, call the action
-- once, with the text that was in the line followed by these characters.
pub run-typed :
    (quits : List ℕ → Bool) (rl : Readline) (cs : List ℕ)
    → IsValid rl
    → rl.width ≢ 0
    → rl.state ≡ normal
    → rl.line.pos ≡ rl.line.end
    → rl.line.end + length cs < 256
    → IsPrintable cs
    → (rl' : Readline) × (run quits true rl (cs ++ (13 ∷ []))
        ≡ some (rl', (text rl.line ++ cs) ∷ []))
run-typed quits rl cs v wide st at_end room h =
    let (r, typed, v', st', contents) = typed_lem quits rl cs (13 ∷ []) v wide st at_end room h in
    let (rl', sent) = send_lem quits r v' st' in
    (rl', typed ∙ sent ∙ ap (λ t. some (rl', t ∷ [])) contents)
