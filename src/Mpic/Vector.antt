-- ===== src/Mpic/Vector.antt =====
-- The vector/priority register: each operation changes its own field.
use native.Mathlib.Nat.{one-le-pow}
use libos.Prelude.{
  ℕ, zero, suc, ◌+◌, ◌-◌, ◌*◌, ◌/◌, ◌%◌, ◌^◌, ◌<◌, ◌≡◌, ◌⊎◌, inl, inr, refl, ap, ap₂, ◌∙◌, arith,
  Bool, true, false, not, ◌==◌, ==_ne, if◌then◌else◌, Bool-cases, bit_and, bit_or,
}
use libos.Prelude.Fields.{
  set_bf, get_bf, set_bf_lem, get_bf_lem, bit_or-and, clear_lem, bit_and_one,
}
use libos.Errors.{ok, err, invalid}
use libos.Mpic.{
  Source, polarity, sense, priority, vector, irq_mask, irq_unmask, irq_get_mask, irq_set_priority,
  irq_get_priority, irq_set_config, irq_get_config, irq_get_activity, irq_get_vector, write_config,
  test_bit,
}

-- The mask bit, and what the register says beside it.
abbrev pub mask_bit : ℕ → ℕ
mask_bit v = v / 2 ^ 31 % 2

pub irq_get_mask_lem :
    (s : Source) (b : Bool) → (mask_bit s.vecpri ≡ (if b then 1 else 0)) → irq_get_mask s ≡ b
unfolding irq_get_mask
irq_get_mask_lem s true e = rw (bit_and_one 31 s.vecpri, e) refl
irq_get_mask_lem s false e = rw (bit_and_one 31 s.vecpri, e) refl

mask_words : (v : ℕ) → v < 2 ^ 32 → bit_or v 0x80000000 ≡ v % 2 ^ 31 + 2 ^ 31
mask_words v h = omega (arith, bit_or-and v 0x80000000, bit_and_one 31 v)

unmask_words : (v : ℕ) → v < 2 ^ 32 → bit_and v (2 ^ 32 - 1 - 0x80000000) ≡ v % 2 ^ 31
unmask_words v h = omega (arith, clear_lem v 0x80000000 h (omega arith), bit_and_one 31 v)

-- The readings but for the mask.
abbrev pub SameButMask : Source → Source → Type 0
SameButMask s t =
    (irq_get_vector t ≡ irq_get_vector s)
    × (irq_get_priority t ≡ irq_get_priority s)
    × (irq_get_config t ≡ irq_get_config s)
    × (irq_get_activity t ≡ irq_get_activity s)
    × (t.vecpri < 2 ^ 32)

readings_lem :
    (s t : Source)
    → s.vecpri < 2 ^ 32
    → t.vecpri < 2 ^ 32
    → t.vecpri % 2 ^ 31 ≡ s.vecpri % 2 ^ 31
    → SameButMask s t
unfolding irq_get_vector irq_get_priority irq_get_config irq_get_activity
readings_lem s t hs ht e = (
  omega (arith, get_bf_lem t.vecpri vector 16 refl, get_bf_lem s.vecpri vector 16 refl),
  omega (arith, get_bf_lem t.vecpri priority 4 refl, get_bf_lem s.vecpri priority 4 refl),
  ap₂ (λ (a b : ℕ). bit_or a (b * 2)) {x = get_bf t.vecpri polarity} {y = get_bf s.vecpri polarity}
      (omega (arith, get_bf_lem t.vecpri polarity 1 refl, get_bf_lem s.vecpri polarity 1 refl))
      (omega (arith, get_bf_lem t.vecpri sense 1 refl, get_bf_lem s.vecpri sense 1 refl)),
  ap (λ (b : ℕ). not (b == 0)) {x = bit_and t.vecpri 0x40000000} {y = bit_and s.vecpri 0x40000000}
      (omega (arith, bit_and_one 30 t.vecpri, bit_and_one 30 s.vecpri)),
  ht,
)

-- Masking and unmasking set what `is_disabled` reads, and nothing else of the register.
pub irq_mask-unmask :
    (s : Source)
    → s.vecpri < 2 ^ 32
    → (irq_get_mask (irq_mask s) ≡ true)
      × SameButMask s (irq_mask s)
      × (irq_get_mask (irq_unmask s) ≡ false)
      × SameButMask s (irq_unmask s)
unfolding irq_mask irq_unmask
irq_mask-unmask s h = (
  irq_get_mask_lem (irq_mask s) true (omega (arith, mask_words s.vecpri h)),
  readings_lem s (irq_mask s) h (omega (arith, mask_words s.vecpri h))
      (omega (arith, mask_words s.vecpri h)),
  irq_get_mask_lem (irq_unmask s) false (omega (arith, unmask_words s.vecpri h)),
  readings_lem s (irq_unmask s) h (omega (arith, unmask_words s.vecpri h))
      (omega (arith, unmask_words s.vecpri h)),
)

test_bit-lt : (config bit : ℕ) → test_bit config bit < 2
test_bit-lt config bit = ground arith

test_bit-one : (k config : ℕ) → test_bit config (2 ^ k) ≡ config / 2 ^ k % 2
test_bit-one k config = by_digit (config / 2 ^ k % 2) refl (digit_lt (config / 2 ^ k))
  where
    digit_lt : (n : ℕ) → n % 2 < 2
    digit_lt n = omega arith

    nothing : (n : ℕ) → 0 * n ≡ 0
    nothing n = omega arith

    by_digit :
        (d : ℕ) → config / 2 ^ k % 2 ≡ d → d < 2 → test_bit config (2 ^ k) ≡ config / 2 ^ k % 2
    by_digit zero e lt = rw (bit_and_one k config, e, nothing (2 ^ k)) refl
    by_digit (suc zero) e lt =
        rw
          (
            bit_and_one k config,
            e,
            ==_ne (1 * 2 ^ k) 0 (λ z. absurd (omega (arith, one-le-pow k 2 (omega arith)))),
          )
          refl
    by_digit (suc (suc d)) e lt = absurd (omega arith)

config_bits : (config : ℕ) → bit_or (test_bit config 1) (test_bit config 2 * 2) ≡ config % 4
config_bits config =
    both (test_bit config 1) (test_bit config 2) (test_bit-lt config 1) (test_bit-lt config 2)
    ∙ omega (arith, test_bit-one 0 config, test_bit-one 1 config)
  where
    both : (a b : ℕ) → a < 2 → b < 2 → bit_or a (b * 2) ≡ a + b * 2
    both zero zero p q = refl
    both zero (suc zero) p q = refl
    both (suc zero) zero p q = refl
    both (suc zero) (suc zero) p q = refl
    both (suc (suc a)) b p q = absurd (omega arith)
    both a (suc (suc b)) p q = absurd (omega arith)

-- What a configuration is read back as, cut to its two bits.
pub irq_get_config-write_config :
    (s : Source) (config : ℕ)
    → s.vecpri < 2 ^ 32
    → irq_get_config (write_config s config) ≡ config % 4
unfolding irq_get_config write_config
irq_get_config-write_config s config h =
    let high : ℕ = test_bit config 1 in
    let level : ℕ = test_bit config 2 in
    let e₁ = set_bf_lem s.vecpri polarity 1 high refl (omega arith) h in
    let w : ℕ = set_bf s.vecpri polarity high in
    let e₂ = set_bf_lem w sense 1 level refl (omega arith) (omega arith) in
    let w' : ℕ = set_bf w sense level in
    ap₂ (λ (a b : ℕ). bit_or a (b * 2)) {x = get_bf w' polarity} {y = high}
      (omega (arith, get_bf_lem w' polarity 1 refl, test_bit-lt config 1))
      (omega (arith, get_bf_lem w' sense 1 refl, test_bit-lt config 2))
    ∙ config_bits config

-- While the source is active its priority and its configuration stay as they are and `ERR_INVALID` is
-- returned; else they are what is read back, cut to their bits, and vector and mask are not touched.
pub irq_set_priority-config :
    (s : Source) (p config : ℕ)
    → s.vecpri < 2 ^ 32
    → ((irq_get_activity s ≡ true)
        × (irq_set_priority s p ≡ (err invalid, s))
        × (irq_set_config s config ≡ (err invalid, s)))
      ⊎ ((irq_get_activity s ≡ false)
          × ((irq_set_priority s p).0 ≡ ok tt)
          × (irq_get_priority (irq_set_priority s p).1 ≡ p % 16)
          × (irq_get_vector (irq_set_priority s p).1 ≡ irq_get_vector s)
          × (mask_bit (irq_set_priority s p).1.vecpri ≡ mask_bit s.vecpri)
          × ((irq_set_config s config).0 ≡ ok tt)
          × (irq_get_config (irq_set_config s config).1 ≡ config % 4)
          × (irq_get_priority (irq_set_config s config).1 ≡ irq_get_priority s)
          × (irq_get_vector (irq_set_config s config).1 ≡ irq_get_vector s)
          × (mask_bit (irq_set_config s config).1.vecpri ≡ mask_bit s.vecpri))
unfolding irq_set_priority irq_set_config irq_get_priority irq_get_vector irq_get_config
    write_config
irq_set_priority-config s p config h = elim (Bool-cases (irq_get_activity s)) [
  | inl busy ↦ inl (busy, rw busy refl, rw busy refl)
  | inr idle ↦
      let v : ℕ = s.vecpri in
      let e = set_bf_lem v priority 4 p refl (omega arith) h in
      let v' : ℕ = set_bf v priority p in
      let high : ℕ = test_bit config 1 in
      let level : ℕ = test_bit config 2 in
      let e₁ = set_bf_lem v polarity 1 high refl (omega arith) h in
      let w : ℕ = set_bf v polarity high in
      let e₂ = set_bf_lem w sense 1 level refl (omega arith) (omega arith) in
      let w' : ℕ = set_bf w sense level in
      inr (
        idle,
        rw idle refl,
        rw idle (omega (arith, get_bf_lem v' priority 4 refl)),
        rw idle (omega (arith, get_bf_lem v' vector 16 refl, get_bf_lem v vector 16 refl)),
        rw idle (omega arith),
        rw idle refl,
        rw idle (irq_get_config-write_config s config h),
        rw idle (omega (arith, get_bf_lem w' priority 4 refl, get_bf_lem v priority 4 refl)),
        rw idle (omega (arith, get_bf_lem w' vector 16 refl, get_bf_lem v vector 16 refl)),
        rw idle (omega arith),
      )
]
