-- ===== src/Mpic/Summary.antt =====
-- Which source the summary registers report.
use libos.Prelude.{
  ℕ, zero, suc, ◌+◌, ◌-◌, ◌*◌, ◌/◌, ◌^◌, ◌<◌, ◌≡◌, ◌≢◌, ◌⊎◌, inl, inr, refl, ap, subst, ◌∙◌, arith,
  Option, some, none, ◌==◌, ==_iff, if◌then◌else◌, Bool-cases,
}
use libos.Prelude.Fields.{count_msb_zeroes, count_msb_zeroes-top}

-- `get_ext_int`, of the value that it reads.
unfoldable pub get_ext_int : ℕ → Option ℕ
get_ext_int summary = if summary == 0 then none else some (count_msb_zeroes 32 summary)

-- The loop of `get_internal_int` from register `i` on, with `left` registers to read.
unfoldable pub internal_loop : ℕ → ℕ → (ℕ → ℕ) → Option ℕ
internal_loop zero i summary = none
internal_loop (suc left) i summary =
    if summary i == 0
    then internal_loop left (i + 1) summary
    else some (count_msb_zeroes 32 (summary i) + i * 32 + 16)

-- `MPIC_NUM_INT_SRCS / 32` registers.
unfoldable pub get_internal_int : (ℕ → ℕ) → Option ℕ
get_internal_int summary = internal_loop 16 0 summary

-- `__mpic_get_critint` and `__mpic_get_mcheckint`: the registers differ.
unfoldable pub get_int : ℕ → (ℕ → ℕ) → Option ℕ
get_int external internal = elim (get_ext_int external) [
  | some n ↦ some n
  | none ↦ get_internal_int internal
]

-- The word's highest bit is number `n`, counted from the left as the controller does.
abbrev pub First : ℕ → ℕ → Type 0
First word n = (n < 32) × (word / 2 ^ (31 - n) ≡ 1)

first_lem : (word : ℕ) → word ≢ 0 → word < 2 ^ 32 → First word (count_msb_zeroes 32 word)
first_lem word set small = count_msb_zeroes-top 32 word (omega arith) small

-- `n` registers from `i` on are zero.
abbrev pub Zeros : ℕ → ℕ → (ℕ → ℕ) → Type 0
Zeros zero i summary = Unit
Zeros (suc n) i summary = (summary i ≡ 0) × Zeros n (i + 1) summary

-- The answer of the loop: register `i + d` is the first that is not zero, and `n` its first bit.
abbrev pub Found : ℕ → (ℕ → ℕ) → ℕ → ℕ → Option ℕ → Type 0
Found i summary d n answer =
    Zeros d i summary × First (summary (i + d)) n × (answer ≡ some (n + (i + d) * 32 + 16))

internal_loop_lem :
    (left i : ℕ) (summary : ℕ → ℕ)
    → ((k : ℕ) → summary k < 2 ^ 32)
    → (Zeros left i summary × (internal_loop left i summary ≡ none))
      ⊎ ((d : ℕ) × (n : ℕ) × (d < left) × Found i summary d n (internal_loop left i summary))
unfolding internal_loop
internal_loop_lem zero i summary words = inl (tt, refl)
internal_loop_lem (suc left) i summary words = elim (Bool-cases (summary i == 0)) [
  | inr set ↦ inr (
    0,
    count_msb_zeroes 32 (summary i),
    omega arith,
    (
      tt,
      at_start i (first_lem (summary i) (λ z. cc ((==_iff (summary i) 0).1 z)) (words i)),
      rw set (
          ap (λ j. some (count_msb_zeroes 32 (summary i) + j * 32 + 16)) {x = i} {y = i + 0}
            (omega arith)),
    ),
  )
  | inl clear ↦
      let nought = (==_iff (summary i) 0).0 clear in
      elim (internal_loop_lem left (i + 1) summary words) [
        | inl (all, e) ↦ inl ((nought, all), rw clear e)
        | inr (d, n, below, (zeros, first, e)) ↦ inr (
          suc d,
          n,
          omega arith,
          (
            (nought, zeros),
            subst (λ j. First (summary j) n) (shift d) first,
            rw clear (e ∙ ap (λ j. some (n + j * 32 + 16)) (shift d)),
          ),
        )
      ]
]
  where
    shift : (d : ℕ) → i + 1 + d ≡ i + suc d
    shift d = omega arith

    at_start :
        (j : ℕ)
        → First (summary j) (count_msb_zeroes 32 (summary j))
        → First (summary (j + 0)) (count_msb_zeroes 32 (summary j))
    at_start j first =
        subst (λ k. First (summary k) (count_msb_zeroes 32 (summary j))) {x = j} {y = j + 0}
          (omega arith) first

-- The source that `__mpic_get_critint` and `__mpic_get_mcheckint` report is the first pending one: an
-- external one if there is any, else the first bit of the first of the 16 internal registers that is not
-- zero; and there is none exactly when all registers are zero.
pub get_int-First :
    (external : ℕ) (internal : ℕ → ℕ)
    → external < 2 ^ 32
    → ((k : ℕ) → internal k < 2 ^ 32)
    → ((n : ℕ) × First external n × (get_int external internal ≡ some n))
      ⊎ (((external ≡ 0) × Zeros 16 0 internal × (get_int external internal ≡ none))
          ⊎ ((external ≡ 0)
              × ((d : ℕ) × (n : ℕ) × (d < 16) × Found 0 internal d n (get_int external internal))))
unfolding get_int get_ext_int get_internal_int
get_int-First external internal word words = elim (Bool-cases (external == 0)) [
  | inr set ↦ inl (
    count_msb_zeroes 32 external,
    first_lem external (λ z. cc ((==_iff external 0).1 z)) word,
    rw (set, get_int) refl,
  )
  | inl clear ↦
      let nought = (==_iff external 0).0 clear in
      elim (internal_loop_lem 16 0 internal words) [
        | inl (zeros, e) ↦ inr (inl (nought, zeros, rw (clear, get_int) e))
        | inr (d, n, below, (zeros, first, e)) ↦
            inr (inr (nought, (d, n, below, (zeros, first, rw (clear, get_int) e))))
      ]
]
