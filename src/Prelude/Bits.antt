-- ===== src/Prelude/Bits.antt =====
-- The bit operations at variables: one equation for the lowest digit, masks of low bits, and the
-- test `n & (n - 1)` for a power of two. Used wherever the source masks an index or checks a size.
use Prim.Native.Nat.{
  ℕ, zero, suc, ◌+◌, ◌-◌, ◌*◌, ◌/◌, ◌%◌, ◌^◌, ◌≤◌, ◌<◌, min, max, bit_and, bit_or, digits, bitwise,
  bit_and-bitwise, bit_or-bitwise,
}
use mathlib.Core.Path.{◌≡◌, refl, ap, sym, ◌∙◌}
use mathlib.Core.Logic.{◌⊎◌, inl, inr}
use native.Mathlib.Nat.{
  one-le-pow, two-pow-succ, pow-le-pow_right, add-mul-mod_self_right, mod-eq_of_lt, mod_self,
}
use native.Mathlib.Decide.{dec_le}
use native.Mathlib.Omega.{arith}

-- The recursion on digits does not depend on its fuel, once that covers the first number.
module _ (last : ℕ → ℕ) (join : ℕ → ℕ → ℕ) where
  same_digits : (k l x y : ℕ) → x ≤ k → x ≤ l → digits last join k x y ≡ digits last join l x y
  same_digits zero zero x y p q = refl
  same_digits zero (suc l) (suc x) y p q = elim p [ ]
  same_digits (suc k) zero (suc x) y p q = elim q [ ]
  same_digits zero (suc l) zero y p q = refl
  same_digits (suc k) zero zero y p q = refl
  same_digits (suc k) (suc l) zero y p q = refl
  same_digits (suc k) (suc l) (suc x) y p q =
      ap (λ d. d * 2 + join (suc x % 2) (y % 2))
        (same_digits k l (suc x / 2) (y / 2) (omega arith) (omega arith))

  lowest_digit :
      (x y : ℕ)
      → bitwise last join (suc x) y
        ≡ bitwise last join (suc x / 2) (y / 2) * 2 + join (suc x % 2) (y % 2)
  lowest_digit x y =
      ap (λ d. d * 2 + join (suc x % 2) (y % 2))
        (same_digits x (suc x / 2) (suc x / 2) (y / 2) (omega arith) (omega arith))

pub bit_and-digit : (x y : ℕ) → bit_and x y ≡ bit_and (x / 2) (y / 2) * 2 + min (x % 2) (y % 2)
bit_and-digit zero y = omega (arith, bit_and-bitwise zero y, bit_and-bitwise zero (y / 2))
bit_and-digit (suc x) y = omega (
  arith,
  bit_and-bitwise (suc x) y,
  bit_and-bitwise (suc x / 2) (y / 2),
  lowest_digit (λ _. 0) min x y,
)

pub bit_or-digit : (x y : ℕ) → bit_or x y ≡ bit_or (x / 2) (y / 2) * 2 + max (x % 2) (y % 2)
bit_or-digit zero y = omega (arith, bit_or-bitwise zero y, bit_or-bitwise zero (y / 2))
bit_or-digit (suc x) y = omega (
  arith,
  bit_or-bitwise (suc x) y,
  bit_or-bitwise (suc x / 2) (y / 2),
  lowest_digit (λ b. b) max x y,
)

below-bit_and-zero : (k x : ℕ) → x ≤ k → bit_and x 0 ≡ 0
below-bit_and-zero k zero h = bit_and-bitwise zero 0
below-bit_and-zero zero (suc x) h = elim h [ ]
below-bit_and-zero (suc k) (suc x) h =
    omega (arith, bit_and-digit (suc x) 0, below-bit_and-zero k (suc x / 2) (omega arith))

pub bit_and-zero : (x : ℕ) → bit_and x 0 ≡ 0
bit_and-zero x = below-bit_and-zero x x (omega arith)

below-bit_and_self : (k x : ℕ) → x ≤ k → bit_and x x ≡ x
below-bit_and_self k zero h = bit_and-bitwise zero 0
below-bit_and_self zero (suc x) h = elim h [ ]
below-bit_and_self (suc k) (suc x) h =
    omega (arith, bit_and-digit (suc x) (suc x), below-bit_and_self k (suc x / 2) (omega arith))

pub bit_and_self : (x : ℕ) → bit_and x x ≡ x
bit_and_self x = below-bit_and_self x x (omega arith)

pub mod_unique : (x q r m : ℕ) → x ≡ r + q * m → r < m → x % m ≡ r
mod_unique x q r m e h = ap (λ (t : ℕ). t % m) e ∙ add-mul-mod_self_right r q m ∙ mod-eq_of_lt h

pub mod_double : (x m : ℕ) → 0 < m → x % (m + m) ≡ x / 2 % m * 2 + x % 2
mod_double x m h =
    mod_unique x (x / 2 / m) (x / 2 % m * 2 + x % 2) (m + m) (grind arith) (omega arith)

-- A mask of `k` ones is the remainder by `2 ^ k`.
pub bit_and_mask : (k x : ℕ) → bit_and x (2 ^ k - 1) ≡ x % 2 ^ k
bit_and_mask zero x = omega (arith, bit_and-zero x)
bit_and_mask (suc k) x =
    let pos : 1 ≤ 2 ^ k = one-le-pow k 2 (omega arith) in
    let twice : 2 ^ suc k ≡ 2 ^ k + 2 ^ k = two-pow-succ k in
    let half : (2 ^ suc k - 1) / 2 ≡ 2 ^ k - 1 = omega arith in
    bit_and-digit x (2 ^ suc k - 1)
    ∙ ap (λ (t : ℕ). bit_and (x / 2) t * 2 + min (x % 2) ((2 ^ suc k - 1) % 2)) half
    ∙ omega (arith, bit_and_mask k (x / 2), mod_double x (2 ^ k) pos, ap (λ (t : ℕ). x % t) twice)

abbrev pub IsPowerOfTwo : ℕ → Type 0
IsPowerOfTwo n = (k : ℕ) × (n ≡ 2 ^ k)

pub IsPowerOfTwo-test : (n : ℕ) → IsPowerOfTwo n → bit_and n (n - 1) ≡ 0
IsPowerOfTwo-test n (k, e) =
    ap (λ (t : ℕ). bit_and n (t - 1)) e
    ∙ bit_and_mask k n
    ∙ ap (λ (t : ℕ). t % 2 ^ k) e
    ∙ mod_self (2 ^ k)

parity : (n : ℕ) → (n % 2 ≡ 0) ⊎ (n % 2 ≡ 1)
parity n = split (n % 2) (omega arith) refl
  where
    split : (b : ℕ) → b < 2 → n % 2 ≡ b → (n % 2 ≡ 0) ⊎ (n % 2 ≡ 1)
    split zero lt p = inl p
    split (suc zero) lt p = inr p
    split (suc (suc b)) lt p = absurd (omega arith)

odd-test : (n : ℕ) → bit_and n (n - 1) ≡ 0 → n % 2 ≡ 1 → n ≡ 1
odd-test n e p =
    let same : (n - 1) / 2 ≡ n / 2 = omega arith in
    omega
      (arith, bit_and-digit n (n - 1), ap (λ (t : ℕ). bit_and (n / 2) t) same, bit_and_self (n / 2))

even-test : (n : ℕ) → bit_and n (n - 1) ≡ 0 → n % 2 ≡ 0 → bit_and (n / 2) (n / 2 - 1) ≡ 0
even-test n e p =
    let same : (n - 1) / 2 ≡ n / 2 - 1 = omega arith in
    omega (arith, bit_and-digit n (n - 1), ap (λ (t : ℕ). bit_and (n / 2) t) same)

double-IsPowerOfTwo : (n : ℕ) → n % 2 ≡ 0 → IsPowerOfTwo (n / 2) → IsPowerOfTwo n
double-IsPowerOfTwo n p (k, q) = (suc k, omega (arith, two-pow-succ k))

below-test-IsPowerOfTwo : (f n : ℕ) → n ≤ f → 0 < n → bit_and n (n - 1) ≡ 0 → IsPowerOfTwo n
below-test-IsPowerOfTwo zero n h pos e = absurd (omega arith)
below-test-IsPowerOfTwo (suc f) n h pos e = elim (parity n) [
  | inl p ↦
      double-IsPowerOfTwo n p
        (below-test-IsPowerOfTwo f (n / 2) (omega arith) (omega arith) (even-test n e p))
  | inr p ↦ (0, odd-test n e p)
]

pub test-IsPowerOfTwo : (n : ℕ) → 0 < n → bit_and n (n - 1) ≡ 0 → IsPowerOfTwo n
test-IsPowerOfTwo n = below-test-IsPowerOfTwo n n (omega arith)

-- A larger power of two is a multiple of a smaller one.
pub pow-multiple : (k d : ℕ) → (c : ℕ) × (2 ^ (k + d) ≡ c * 2 ^ k)
pow-multiple k zero = (1, ap (λ (t : ℕ). 2 ^ t) {y = k} (omega arith) ∙ omega arith)
pow-multiple k (suc d) =
    let (c, e) = pow-multiple k d in
    (
      c + c,
      ap (λ (t : ℕ). 2 ^ t) {y = suc (k + d)} (omega arith)
          ∙ two-pow-succ (k + d)
          ∙ grind (arith, e),
    )

-- A power of two up to `2 ^ 31` divides the moduli of the machine words.
pub IsPowerOfTwo-small :
    (n : ℕ) → IsPowerOfTwo n → n ≤ 2 ^ 31 → (j : ℕ) → 31 ≤ j → (c : ℕ) × (2 ^ j ≡ c * n)
IsPowerOfTwo-small n (k, e) small j h =
    let below : k ≤ 31 = elim (dec_le k 31) [
      | yes p ↦ p
      | no p ↦
          absurd
            (omega (arith, pow-le-pow_right {n = 2} (omega arith) {i = 32} {j = k} (omega arith)))
    ] in
    let (c, q) = pow-multiple k (j - k) in
    (c, ap (λ (t : ℕ). 2 ^ t) {y = k + (j - k)} (omega arith) ∙ q ∙ ap (λ (t : ℕ). c * t) (sym e))
