-- ===== src/Prelude/Align.antt =====
-- Rounding an address up to a power of two with `(x + align - 1) & ~(align - 1)`.
use native.Mathlib.Nat.{
  one-le-pow, two-pow-succ, pow-le-pow_right, mod-lt, mod-add-div', mod-eq_of_lt,
}
use native.Mathlib.Decide.{dec_le}
use native.Mathlib.Omega.{arith}
use Prim.Native.Nat.{ℕ, zero, suc, ◌+◌, ◌-◌, ◌*◌, ◌/◌, ◌%◌, ◌^◌, ◌≤◌, ◌<◌, min, bit_and}
use mathlib.Core.Path.{◌≡◌, ap, ap₂, ◌∙◌}
use libos.Prelude.Bits.{bit_and-digit, bit_and_mask, mod_double, mod_unique, IsPowerOfTwo}
use libos.Prelude.Words.{add64, sub64}

-- A mask of high bits removes the remainder.
bit_and_high : (k w x : ℕ) → x < 2 ^ (w + k) → bit_and x (2 ^ (w + k) - 2 ^ k) ≡ x - x % 2 ^ k
bit_and_high zero w x h =
    bit_and_mask (w + 0) x ∙ omega (arith, mod-eq_of_lt {n = x} {m = 2 ^ (w + 0)} h)
bit_and_high (suc k) w x h =
    let one : 1 ≤ 2 ^ k = one-le-pow k 2 (omega arith) in
    let whole : 2 ^ (w + suc k) ≡ 2 ^ (w + k) + 2 ^ (w + k) =
      ap (λ (t : ℕ). 2 ^ t) {x = w + suc k} {y = suc (w + k)} (omega arith)
      ∙ two-pow-succ (w + k) in
    let twice : 2 ^ suc k ≡ 2 ^ k + 2 ^ k = two-pow-succ k in
    let mask : ℕ = 2 ^ (w + suc k) - 2 ^ suc k in
    let half : mask / 2 ≡ 2 ^ (w + k) - 2 ^ k = omega arith in
    bit_and-digit x mask
    ∙ ap (λ (t : ℕ). bit_and (x / 2) t * 2 + min (x % 2) (mask % 2)) half
    ∙ omega (
      arith,
      bit_and_high k w (x / 2) (omega arith),
      mod_double x (2 ^ k) one,
      ap (λ (t : ℕ). x % t) twice,
    )

-- `(x + align - 1) & ~(align - 1)` in 64 bits.
abbrev pub align_up : ℕ → ℕ → ℕ
align_up x align = bit_and (sub64 (add64 x align) 1) (2 ^ 64 - 1 - sub64 align 1)

-- It is the least multiple of `align` from `x` on, when that does not pass the end of the address space.
pub align_up_lem :
    (x align : ℕ)
    → IsPowerOfTwo align
    → x + align ≤ 2 ^ 64
    → 1 ≤ align
    → (x ≤ align_up x align) × (align_up x align < x + align) × (align_up x align % align ≡ 0)
align_up_lem x align (k, e) fits one =
    let small : k ≤ 64 = elim (dec_le k 64) [
      | yes p ↦ p
      | no p ↦
          absurd
            (omega (arith, pow-le-pow_right {n = 2} (omega arith) {i = 65} {j = k} (omega arith)))
    ] in
    let top : 2 ^ (64 - k + k) ≡ 2 ^ 64 = ap (λ (t : ℕ). 2 ^ t) {y = 64} (omega arith) in
    let last : ℕ = x + align - 1 in
    let first : sub64 (add64 x align) 1 ≡ last = omega arith in
    let mask : 2 ^ 64 - 1 - sub64 align 1 ≡ 2 ^ (64 - k + k) - 2 ^ k = omega arith in
    let value : align_up x align ≡ last - last % 2 ^ k =
      ap₂ bit_and first mask ∙ bit_and_high k (64 - k) last (omega arith) in
    let below : last % 2 ^ k < 2 ^ k = mod-lt last (omega arith) in
    let multiple : (last - last % 2 ^ k) % 2 ^ k ≡ 0 =
      mod_unique (last - last % 2 ^ k) (last / 2 ^ k) 0 (2 ^ k)
        (omega (arith, mod-add-div' last (2 ^ k))) (omega arith) in
    (omega (arith, value), omega (arith, value), ap₂ ◌%◌ value e ∙ multiple)
