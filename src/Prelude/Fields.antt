-- ===== src/Prelude/Fields.antt =====
-- Bit fields of a register: the macros `get_bf` and `set_bf` (include/libos/libos.h) and the counts of
-- zero bits (include/libos/bitops.h), with what they say of one another.
use native.Mathlib.Nat.{
  one-le-pow, two-pow-succ, div-eq_of_lt, div-eq-sub-div, mul-div_cancel, div-div-eq-div-mul,
}
use native.Mathlib.Decide.{dec_lt}
use native.Mathlib.Omega.{arith}
use Prim.Native.Nat.{
  ℕ, zero, suc, ◌+◌, ◌-◌, ◌*◌, ◌/◌, ◌%◌, ◌^◌, ◌≤◌, ◌<◌, min, max, bit_and, bit_or, bit_and-bitwise,
  bit_or-bitwise,
}
use mathlib.Core.Path.{◌≡◌, refl, ap, ap₂, sym, ◌∙◌}
use libos.Prelude.Bits.{bit_and-digit, bit_or-digit, bit_and-zero, bit_and_mask}
use libos.Prelude.Tests.{◌==◌, if◌then◌else◌}

-- `PAACE_AF_AP` and `PAACE_AF_AP_SHIFT`, for instance.
pub record Field : Type 0 where
  pub mask : ℕ
  pub shift : ℕ

-- On a variable of 32 bits.
unfoldable pub set_bf : ℕ → Field → ℕ → ℕ
set_bf v m x = bit_or (bit_and v (2 ^ 32 - 1 - m.mask)) (bit_and (x * 2 ^ m.shift) m.mask)

unfoldable pub get_bf : ℕ → Field → ℕ
get_bf v m = bit_and v m.mask / 2 ^ m.shift

-- The zero bits below the lowest one, in a word of `width` bits.
unfoldable pub count_lsb_zeroes : ℕ → ℕ → ℕ
count_lsb_zeroes zero val = 0
count_lsb_zeroes (suc width) val = if val % 2 == 1 then 0 else count_lsb_zeroes width (val / 2) + 1

pub count_lsb_zeroes-pow : (width k : ℕ) → k < width → count_lsb_zeroes width (2 ^ k) ≡ k
unfolding count_lsb_zeroes
count_lsb_zeroes-pow zero k h = elim h [ ]
count_lsb_zeroes-pow (suc width) zero h = refl
count_lsb_zeroes-pow (suc width) (suc k) h =
    let twice : 2 ^ suc k ≡ 2 ^ k + 2 ^ k = two-pow-succ k in
    let half : 2 ^ suc k / 2 ≡ 2 ^ k = omega arith in
    let even : 2 ^ suc k % 2 ≡ 0 = omega arith in
    rw (even, half, count_lsb_zeroes-pow width k (omega arith)) (omega arith)

-- Below the mask the new bits, elsewhere the old ones: what was under the mask is exchanged.
merge_lem :
    (n m v y : ℕ)
    → m < 2 ^ n
    → v < 2 ^ n
    → bit_or (bit_and v (2 ^ n - 1 - m)) (bit_and y m) + bit_and v m ≡ v + bit_and y m
merge_lem zero zero zero y hm hv = rw (bit_and-zero y) refl
merge_lem zero zero (suc v) y hm hv = absurd (omega arith)
merge_lem zero (suc m) v y hm hv = absurd (omega arith)
merge_lem (suc n) m v y hm hv =
    let one : 1 ≤ 2 ^ n = one-le-pow n 2 (omega arith) in
    let twice : 2 ^ suc n ≡ 2 ^ n + 2 ^ n = two-pow-succ n in
    let rest : ℕ = 2 ^ suc n - 1 - m in
    let half : rest / 2 ≡ 2 ^ n - 1 - m / 2 = omega arith in
    let last : rest % 2 ≡ 1 - m % 2 = omega arith in
    let kept : bit_and v rest ≡ bit_and (v / 2) (2 ^ n - 1 - m / 2) * 2 + min (v % 2) (1 - m % 2) =
      bit_and-digit v rest ∙ ap₂ (λ (a b : ℕ). bit_and (v / 2) a * 2 + min (v % 2) b) half last in
    let set : bit_and y m ≡ bit_and (y / 2) (m / 2) * 2 + min (y % 2) (m % 2) = bit_and-digit y m in
    let above : bit_and v rest / 2 ≡ bit_and (v / 2) (2 ^ n - 1 - m / 2) = omega arith in
    let under : bit_and y m / 2 ≡ bit_and (y / 2) (m / 2) = omega arith in
    let joined : bit_or (bit_and v rest) (bit_and y m)
        ≡ bit_or (bit_and (v / 2) (2 ^ n - 1 - m / 2)) (bit_and (y / 2) (m / 2)) * 2
          + max (bit_and v rest % 2) (bit_and y m % 2) =
      bit_or-digit (bit_and v rest) (bit_and y m)
      ∙ ap₂ (λ (a b : ℕ). bit_or a b * 2 + max (bit_and v rest % 2) (bit_and y m % 2)) above
          under in
    omega
      (arith, bit_and-digit v m, merge_lem n (m / 2) (v / 2) (y / 2) (omega arith) (omega arith))

pub mul-double : (a b c : ℕ) → c ≡ 2 * b → a * c ≡ a * b + a * b
mul-double a b c e = ap (λ (t : ℕ). a * t) e ∙ omega arith

-- A mask of `w` ones above `s` zeros.
bit_and_field : (s w x : ℕ) → bit_and x ((2 ^ w - 1) * 2 ^ s) ≡ x / 2 ^ s % 2 ^ w * 2 ^ s
bit_and_field zero w x =
    ap (λ (t : ℕ). bit_and x t) {x = (2 ^ w - 1) * 1} {y = 2 ^ w - 1} (omega arith)
    ∙ bit_and_mask w x
    ∙ omega (arith, ap (λ (t : ℕ). t % 2 ^ w) {x = x / 1} {y = x} (omega arith))
bit_and_field (suc s) w x =
    let twice : 2 ^ suc s ≡ 2 * 2 ^ s = omega (arith, two-pow-succ s) in
    let m : ℕ = (2 ^ w - 1) * 2 ^ s in
    let m' : ℕ = (2 ^ w - 1) * 2 ^ suc s in
    let double : m' ≡ m + m = mul-double (2 ^ w - 1) (2 ^ s) (2 ^ suc s) twice in
    let half : m' / 2 ≡ m = omega arith in
    let even : m' % 2 ≡ 0 = omega arith in
    let part : ℕ = x / 2 / 2 ^ s % 2 ^ w in
    let same : x / 2 ^ suc s % 2 ^ w ≡ part =
      ap (λ (t : ℕ). x / t % 2 ^ w) twice
      ∙ ap (λ (t : ℕ). t % 2 ^ w) (sym (div-div-eq-div-mul x 2 (2 ^ s))) in
    bit_and-digit x m'
    ∙ ap₂ (λ (a b : ℕ). bit_and (x / 2) a * 2 + min (x % 2) b) half even
    ∙ ap (λ (t : ℕ). t * 2 + min (x % 2) 0) (bit_and_field s w (x / 2))
    ∙ omega (arith, mul-double part (2 ^ s) (2 ^ suc s) twice, ap (λ (t : ℕ). t * 2 ^ suc s) same)

-- The mask of a field of `w` bits.
abbrev pub Width : Field → ℕ → Type 0
Width m w = m.mask ≡ (2 ^ w - 1) * 2 ^ m.shift

pub get_bf_lem : (v : ℕ) (m : Field) (w : ℕ) → Width m w → get_bf v m ≡ v / 2 ^ m.shift % 2 ^ w
unfolding get_bf
get_bf_lem v m w e =
    ap (λ (t : ℕ). bit_and v t / 2 ^ m.shift) e
    ∙ ap (λ (t : ℕ). t / 2 ^ m.shift) (bit_and_field m.shift w v)
    ∙ mul-div_cancel (v / 2 ^ m.shift % 2 ^ w) (one-le-pow m.shift 2 (omega arith))

-- Writing a field exchanges its bits for the low bits of the value, and leaves the other ones alone.
pub set_bf_lem :
    (v : ℕ) (m : Field) (w x : ℕ)
    → Width m w
    → m.mask < 2 ^ 32
    → v < 2 ^ 32
    → set_bf v m x + v / 2 ^ m.shift % 2 ^ w * 2 ^ m.shift ≡ v + x % 2 ^ w * 2 ^ m.shift
unfolding set_bf
set_bf_lem v m w x e small word =
    let old : bit_and v m.mask ≡ v / 2 ^ m.shift % 2 ^ w * 2 ^ m.shift =
      ap (λ (t : ℕ). bit_and v t) e ∙ bit_and_field m.shift w v in
    let new : bit_and (x * 2 ^ m.shift) m.mask ≡ x % 2 ^ w * 2 ^ m.shift =
      ap (λ (t : ℕ). bit_and (x * 2 ^ m.shift) t) e
      ∙ bit_and_field m.shift w (x * 2 ^ m.shift)
      ∙ ap (λ (t : ℕ). t % 2 ^ w * 2 ^ m.shift)
          (mul-div_cancel x (one-le-pow m.shift 2 (omega arith))) in
    let whole = merge_lem 32 m.mask v (x * 2 ^ m.shift) small word in omega (arith, whole, old, new)

below-bit_or-zero : (k x : ℕ) → x ≤ k → bit_or x 0 ≡ x
below-bit_or-zero k zero h = refl
below-bit_or-zero zero (suc x) h = elim h [ ]
below-bit_or-zero (suc k) (suc x) h =
    omega (arith, bit_or-digit (suc x) 0, below-bit_or-zero k (suc x / 2) (omega arith))

pub bit_or-zero : (x : ℕ) → bit_or x 0 ≡ x
bit_or-zero x = below-bit_or-zero x x (omega arith)

pub bit_or-one : (x : ℕ) → bit_or x 1 ≡ x / 2 * 2 + 1
bit_or-one x = omega (arith, bit_or-digit x 1, bit_or-zero (x / 2))

-- Bits that do not overlap are added.
pub bit_or_above : (s a b : ℕ) → b < 2 ^ s → bit_or (a * 2 ^ s) b ≡ a * 2 ^ s + b
bit_or_above zero a zero h = bit_or-zero (a * 2 ^ 0) ∙ omega arith
bit_or_above zero a (suc b) h = absurd (omega arith)
bit_or_above (suc s) a b h =
    let twice : 2 ^ suc s ≡ 2 * 2 ^ s = omega (arith, two-pow-succ s) in
    let double = mul-double a (2 ^ s) (2 ^ suc s) twice in
    let half : a * 2 ^ suc s / 2 ≡ a * 2 ^ s = omega arith in
    let even : a * 2 ^ suc s % 2 ≡ 0 = omega arith in
    bit_or-digit (a * 2 ^ suc s) b
    ∙ ap₂ (λ (x y : ℕ). bit_or x (b / 2) * 2 + max y (b % 2)) half even
    ∙ omega (arith, bit_or_above s a (b / 2) (omega arith))

-- The zero bits above the highest one.
unfoldable pub count_msb_zeroes : ℕ → ℕ → ℕ
count_msb_zeroes zero val = 0
count_msb_zeroes (suc width) val =
    if val / 2 ^ width % 2 == 1 then 0 else count_msb_zeroes width val + 1

-- The highest bit is where the count says, and there is none above it.
pub count_msb_zeroes-top :
    (width val : ℕ)
    → 0 < val
    → val < 2 ^ width
    → (count_msb_zeroes width val < width)
      × (val / 2 ^ (width - 1 - count_msb_zeroes width val) ≡ 1)
unfolding count_msb_zeroes
count_msb_zeroes-top zero val lo hi = absurd (omega arith)
count_msb_zeroes-top (suc width) val lo hi = elim (dec_lt val (2 ^ width)) [
  | yes p ↦
      let none_here : val / 2 ^ width ≡ 0 = div-eq_of_lt p in
      let (below, top) = count_msb_zeroes-top width val lo p in
      rw none_here (
        omega arith,
        ap (λ (t : ℕ). val / 2 ^ t) {y = width - 1 - count_msb_zeroes width val} (omega arith)
            ∙ top,
      )
  | no p ↦
      let one : 1 ≤ 2 ^ width = one-le-pow width 2 (omega arith) in
      let twice : 2 ^ suc width ≡ 2 ^ width + 2 ^ width = two-pow-succ width in
      let here : val / 2 ^ width ≡ 1 =
        div-eq-sub-div {m = 2 ^ width} {n = val} one (omega arith)
        ∙ ap (λ (t : ℕ). t + 1)
            (div-eq_of_lt {n = val - 2 ^ width} {m = 2 ^ width} (omega arith)) in
      rw here (
        omega arith,
        ap (λ (t : ℕ). val / 2 ^ t) {x = suc width - 1 - 0} {y = width} (omega arith) ∙ here,
      )
]

zero-and : (y : ℕ) → bit_and 0 y ≡ 0
zero-and y = bit_and-bitwise 0 y

zero-or : (y : ℕ) → bit_or 0 y ≡ y
zero-or y = bit_or-bitwise 0 y

below-or-and : (k v m : ℕ) → v ≤ k → bit_or v m + bit_and v m ≡ v + m
below-or-and zero zero m h =
    omega (arith, bit_or-digit 0 m, bit_and-digit 0 m, zero-or m, zero-and m)
below-or-and zero (suc v) m h = elim h [ ]
below-or-and (suc k) v m h =
    omega (arith, bit_or-digit v m, bit_and-digit v m, below-or-and k (v / 2) (m / 2) (omega arith))

-- Setting bits adds those that were not set.
pub bit_or-and : (v m : ℕ) → bit_or v m + bit_and v m ≡ v + m
bit_or-and v m = below-or-and v v m (omega arith)

-- Clearing bits takes away those that were set.
pub clear_lem : (v m : ℕ) → v < 2 ^ 32 → m < 2 ^ 32 → bit_and v (2 ^ 32 - 1 - m) + bit_and v m ≡ v
clear_lem v m word small = omega (
  arith,
  merge_lem 32 m v 0 small word,
  zero-and m,
  bit_or-and (bit_and v (2 ^ 32 - 1 - m)) (bit_and 0 m),
  ap (λ (t : ℕ). bit_and (bit_and v (2 ^ 32 - 1 - m)) t) (zero-and m),
  bit_and-zero (bit_and v (2 ^ 32 - 1 - m)),
)

pub bit_and_one : (s v : ℕ) → bit_and v (2 ^ s) ≡ v / 2 ^ s % 2 * 2 ^ s
bit_and_one s v =
    ap (λ (t : ℕ). bit_and v t) {x = 2 ^ s} {y = (2 ^ 1 - 1) * 2 ^ s} (omega arith)
    ∙ bit_and_field s 1 v
