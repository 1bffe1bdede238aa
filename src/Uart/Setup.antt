-- ===== src/Uart/Setup.antt =====
-- The baud rate.
use native.Mathlib.Nat.{mod-lt, div-add-mod'}
use libos.Prelude.{ℕ, ◌+◌, ◌*◌, ◌/◌, ◌%◌, ◌^◌, ◌≡◌, ◌≤◌, ◌<◌, arith, some, bit_and, get_elem?, refl}
use libos.Prelude.Bits.{bit_and_mask}
use libos.Uart.{divisor, init_writes}

nearest :
    (baudclock step d r : ℕ)
    → d * step + r ≡ baudclock + step / 2
    → r < step
    → (d * step ≤ baudclock + step / 2) × (baudclock + step / 2 < d * step + step)
nearest baudclock step d r e h = (omega arith, omega arith)

-- The divisor is the nearest one: it makes the rate from the clock with an error of at most half a step.
divisor-nearest :
    (baudclock baud : ℕ)
    → 0 < baud
    → let d = divisor baudclock baud in
      (d * (baud * 16) ≤ baudclock + baud * 8) × (baudclock < d * (baud * 16) + baud * 8)
unfolding divisor
divisor-nearest baudclock baud h =
    let (low, high) =
      nearest baudclock (baud * 16) ((baudclock + baud * 16 / 2) / (baud * 16)) _
        (div-add-mod' (baudclock + baud * 16 / 2) (baud * 16)) (mod-lt _ (omega arith)) in
    (omega arith, omega arith)

-- The two bytes of the divisor latch, which are written second and third, make a divisor that is the nearest one
-- for the rate: its error is at most half a step. That holds if it has 16 bits.
pub init_writes-divisor :
    (baudclock baud mcr : ℕ)
    → 0 < baud
    → divisor baudclock baud < 2 ^ 16
    → (high : ℕ) × (low : ℕ) × (get_elem? (init_writes baudclock baud mcr) 1 ≡ some (1, high))
      × (get_elem? (init_writes baudclock baud mcr) 2 ≡ some (0, low))
      × (high < 2 ^ 8)
      × (low < 2 ^ 8)
      × ((high * 2 ^ 8 + low) * (baud * 16) ≤ baudclock + baud * 8)
      × (baudclock < (high * 2 ^ 8 + low) * (baud * 16) + baud * 8)
unfolding init_writes
init_writes-divisor baudclock baud mcr pos small =
    let d = divisor baudclock baud in
    let (below, above) = divisor-nearest baudclock baud pos in
    let hi : bit_and (d / 2 ^ 8) 0xff ≡ d / 2 ^ 8 % 2 ^ 8 = bit_and_mask 8 (d / 2 ^ 8) in
    let lo : bit_and d 0xff ≡ d % 2 ^ 8 = bit_and_mask 8 d in
    let whole : bit_and (d / 2 ^ 8) 0xff * 2 ^ 8 + bit_and d 0xff ≡ d = omega arith in
    (
      bit_and (d / 2 ^ 8) 0xff,
      bit_and d 0xff,
      refl,
      refl,
      omega arith,
      omega arith,
      rw whole below,
      rw whole above,
    )
