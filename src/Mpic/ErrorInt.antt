-- ===== src/Mpic/ErrorInt.antt =====
-- The error interrupts that share one source: `error_int_handler` and the operations on `EIMR0`.
use libos.Prelude.{
  true, Option, some, none, ◌++◌, ◌&&◌, ◌>>=◌, length, ℕ, zero, suc, ◌+◌, ◌-◌, ◌*◌, ◌/◌, ◌%◌, ◌^◌,
  ◌<◌, ◌≤◌, ◌≡◌, refl, ap, ◌∙◌, arith, Bool, false, not, List, [], ◌∷◌, ◌==◌, ==_ne, ==_iff,
  Bool-cases, inl, inr, if◌then◌else◌, bit_and, bit_or,
}
use native.Mathlib.Nat.{two-pow-succ, one-le-pow, mul-div_cancel}
use libos.Prelude.Fields.{count_lsb_zeroes, clear_lem, bit_and_one, mul-double}

-- `call_irq_handler` of an error interrupt with these handlers, and then the rest of the loop: the handlers
-- that are called, in order. `none` is its failed `assert`.
unfoldable pub call_handlers : List ℕ → Option (List ℕ) → Option (List ℕ)
call_handlers [] rest = none
call_handlers (a ∷ actions) rest = do called ← rest; some (a ∷ actions ++ called)

-- The loop of `error_int_handler`, from the value that `EISR0` had; `actions` has the handlers of each error
-- interrupt. The second argument is fuel: `none` if it runs out too.
unfoldable pub handler_loop : (ℕ → List ℕ) → ℕ → ℕ → Option (List ℕ)
handler_loop actions zero val = if val == 0 then some [] else none
handler_loop actions (suc fuel) val =
    let i = count_lsb_zeroes 32 val in
    let rest = handler_loop actions fuel (bit_and val (2 ^ 32 - 1 - 2 ^ i)) in
    if val == 0 then some [] else call_handlers (actions (31 - i)) rest

unfoldable pub error_int_handler : (ℕ → List ℕ) → ℕ → Option (List ℕ)
error_int_handler actions val = handler_loop actions 32 val

-- The bit of an error interrupt in `EIMR0`.
abbrev pub subint_bit : ℕ → ℕ
subint_bit subintnum = 0x80000000 / 2 ^ subintnum

unfoldable pub error_int_mask : ℕ → ℕ → ℕ
error_int_mask eimr subintnum = bit_or eimr (subint_bit subintnum)

unfoldable pub error_int_unmask : ℕ → ℕ → ℕ
error_int_unmask eimr subintnum = bit_and eimr (2 ^ 32 - 1 - subint_bit subintnum)

unfoldable pub error_int_get_mask : ℕ → ℕ → Bool
error_int_get_mask eimr subintnum = not (bit_and eimr (subint_bit subintnum) == 0)

-- The numbers of the bits that are set, from bit `s` on, in a word of which the bits below `s` are clear
-- and the rest is `val`; counted from the left.
unfoldable pub set_bits : ℕ → ℕ → ℕ → List ℕ
set_bits zero s val = []
set_bits (suc width) s val =
    if val % 2 == 1
    then (31 - s) ∷ set_bits width (suc s) (val / 2)
    else set_bits width (suc s) (val / 2)

-- Each of these error interrupts has a handler, and the handlers of all of them in a row.
unfoldable pub all_handled : (ℕ → List ℕ) → List ℕ → Bool
all_handled actions [] = true
all_handled actions (i ∷ numbers) = not (length (actions i) == 0) && all_handled actions numbers

unfoldable pub handlers_of : (ℕ → List ℕ) → List ℕ → List ℕ
handlers_of actions [] = []
handlers_of actions (i ∷ numbers) = actions i ++ handlers_of actions numbers

abbrev expected : (ℕ → List ℕ) → List ℕ → Option (List ℕ)
expected actions numbers =
    if all_handled actions numbers then some (handlers_of actions numbers) else none

call_handlers-cons :
    (actions : ℕ → List ℕ) (i : ℕ) (numbers : List ℕ)
    → call_handlers (actions i) (expected actions numbers) ≡ expected actions (i ∷ numbers)
unfolding all_handled handlers_of call_handlers
call_handlers-cons actions i numbers = by_actions (actions i) (all_handled actions numbers)
  where
    by_actions :
        (ids : List ℕ) (b : Bool)
        → call_handlers ids (if b then some (handlers_of actions numbers) else none)
          ≡ (if not (length ids == 0) && b then some (ids ++ handlers_of actions numbers) else none)
    by_actions [] b = refl
    by_actions (a ∷ ids) true = rw (==_ne (length (a ∷ ids)) 0 (omega arith)) refl
    by_actions (a ∷ ids) false = rw (==_ne (length (a ∷ ids)) 0 (omega arith)) refl

count_shifted :
    (width s val : ℕ) → s < width → val % 2 ≡ 1 → count_lsb_zeroes width (val * 2 ^ s) ≡ s
unfolding count_lsb_zeroes
count_shifted zero s val h odd = elim h [ ]
count_shifted (suc width) zero val h odd =
    let same : val * 2 ^ 0 % 2 ≡ 1 = omega arith in rw same refl
count_shifted (suc width) (suc s) val h odd =
    let double = mul-double val (2 ^ s) (2 ^ suc s) (omega (arith, two-pow-succ s)) in
    let half : val * 2 ^ suc s / 2 ≡ val * 2 ^ s = omega arith in
    let even : val * 2 ^ suc s % 2 ≡ 0 = omega arith in
    rw (even, half, count_shifted width s val (omega arith) odd) (omega arith)

handler_loop-zero : (actions : ℕ → List ℕ) (fuel : ℕ) → handler_loop actions fuel 0 ≡ some []
unfolding handler_loop
handler_loop-zero actions zero = refl
handler_loop-zero actions (suc fuel) = refl

digit_split : (v p : ℕ) → v * p ≡ v / 2 * p + v / 2 * p + v % 2 * p
digit_split v p =
    ap (λ (t : ℕ). t * p) {x = v} {y = v / 2 + v / 2 + v % 2} (omega arith) ∙ omega arith

-- One round, for a word whose lowest bit is number `s`.
round_lem :
    (actions : ℕ → List ℕ) (fuel s val : ℕ)
    → s < 32
    → val % 2 ≡ 1
    → val * 2 ^ s < 2 ^ 32
    → handler_loop actions (suc fuel) (val * 2 ^ s)
      ≡ call_handlers (actions (31 - s)) (handler_loop actions fuel (val / 2 * 2 ^ suc s))
unfolding handler_loop
round_lem actions fuel s val low odd word =
    let one : 1 ≤ 2 ^ s = one-le-pow s 2 (omega arith) in
    let at : count_lsb_zeroes 32 (val * 2 ^ s) ≡ s = count_shifted 32 s val low odd in
    let grows : 2 ^ s ≤ val * 2 ^ s = grind arith in
    let bit : val * 2 ^ s / 2 ^ s ≡ val = mul-div_cancel val one in
    let double = mul-double (val / 2) (2 ^ s) (2 ^ suc s) (omega (arith, two-pow-succ s)) in
    let split : val * 2 ^ s ≡ val / 2 * 2 ^ s + val / 2 * 2 ^ s + 2 ^ s =
      digit_split val (2 ^ s) ∙ omega (arith, ap (λ (t : ℕ). t * 2 ^ s) odd) in
    let cleared : bit_and (val * 2 ^ s) (2 ^ 32 - 1 - 2 ^ s) ≡ val / 2 * 2 ^ suc s = omega (
      arith,
      clear_lem (val * 2 ^ s) (2 ^ s) word (omega arith),
      bit_and_one s (val * 2 ^ s),
      ap (λ (t : ℕ). t % 2 * 2 ^ s) bit,
      ap (λ (t : ℕ). t * 2 ^ s) odd,
    ) in
    rw (at, ==_ne (val * 2 ^ s) 0 (λ z. absurd (omega arith)), cleared) refl

handler_loop_lem :
    (actions : ℕ → List ℕ) (width fuel s val : ℕ)
    → s + width ≤ 32
    → width ≤ fuel
    → val < 2 ^ width
    → val * 2 ^ s < 2 ^ 32
    → handler_loop actions fuel (val * 2 ^ s) ≡ expected actions (set_bits width s val)
unfolding set_bits all_handled handlers_of
handler_loop_lem actions zero fuel s val fits enough small word =
    ap (handler_loop actions fuel) {x = val * 2 ^ s} {y = 0}
      (ap (λ (t : ℕ). t * 2 ^ s) {x = val} {y = 0} (omega arith) ∙ omega arith)
    ∙ handler_loop-zero actions fuel
handler_loop_lem actions (suc width) zero s val fits enough small word = absurd (omega arith)
handler_loop_lem actions (suc width) (suc fuel) s val fits enough small word =
    let double = mul-double (val / 2) (2 ^ s) (2 ^ suc s) (omega (arith, two-pow-succ s)) in
    let nothing = λ (p : ℕ) (e : (val % 2 == 1) ≡ false).
      ap (λ (t : ℕ). t * p) {x = val % 2} {y = 0} (ground arith) in
    let half : val / 2 < 2 ^ width = omega (arith, two-pow-succ width) in
    elim (Bool-cases (val % 2 == 1)) [
      | inl odd ↦
          let one = (==_iff (val % 2) 1).0 odd in
          round_lem actions fuel s val (omega arith) one word
          ∙ ap (call_handlers (actions (31 - s))) (
              handler_loop_lem actions width fuel (suc s) (val / 2) (omega arith) (omega arith) half
                (omega (arith, digit_split val (2 ^ s))))
          ∙ call_handlers-cons actions (31 - s) (set_bits width (suc s) (val / 2))
          ∙ ap (expected actions) {x = (31 - s) ∷ set_bits width (suc s) (val / 2)}
              {y = set_bits (suc width) s val} (rw odd refl)
      | inr even ↦
          ap (handler_loop actions (suc fuel)) {y = val / 2 * 2 ^ suc s}
            (omega (arith, digit_split val (2 ^ s), nothing (2 ^ s) even))
          ∙ handler_loop_lem actions width (suc fuel) (suc s) (val / 2) (omega arith) (omega arith)
              half (omega (arith, digit_split val (2 ^ s)))
          ∙ ap (expected actions) {x = set_bits width (suc s) (val / 2)}
              {y = set_bits (suc width) s val} (rw even refl)
    ]

-- When every error interrupt whose bit is set has a handler, all handlers of each are called, the rightmost bit
-- first, and then the loop has ended, with no more rounds than bits; when one of them has none, it is a failed
-- assertion.
pub error_int_handler-set_bits :
    (actions : ℕ → List ℕ) (val fuel : ℕ)
    → val < 2 ^ 32
    → 32 ≤ fuel
    → handler_loop actions fuel val ≡ (
        if all_handled actions (set_bits 32 0 val)
        then some (handlers_of actions (set_bits 32 0 val))
        else none)
error_int_handler-set_bits actions val fuel h enough =
    ap (handler_loop actions fuel) {x = val} {y = val * 2 ^ 0} (omega arith)
    ∙ handler_loop_lem actions 32 fuel 0 val (omega arith) enough h (omega arith)
