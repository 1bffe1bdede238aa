-- ===== src/Uart/Enable.antt =====
-- The bits of IER.
use libos.Prelude.{ℕ, ◌*◌, ◌/◌, ◌%◌, ◌≡◌, arith, bit_and, bit_or}
use libos.Prelude.Bits.{bit_and-digit, bit_or-digit}
use libos.Prelude.Fields.{bit_or-one, bit_and_one}

bit_and_two : (x : ℕ) → bit_and x 2 ≡ x / 2 % 2 * 2
bit_and_two x = bit_and_one 1 x

pub set_ethrei-on : (x : ℕ) → bit_and (bit_or x 2) 2 ≡ 2
set_ethrei-on x = omega (arith, bit_and_two (bit_or x 2), bit_or-digit x 2, bit_or-one (x / 2))

pub set_erdai-same : (x : ℕ) → bit_and (bit_or x 1) 2 ≡ bit_and x 2
set_erdai-same x = omega (arith, bit_and_two (bit_or x 1), bit_and_two x, bit_or-one x)

pub clear_erdai-same : (x : ℕ) → bit_and (bit_and x 254) 2 ≡ bit_and x 2
clear_erdai-same x = omega (
  arith,
  bit_and_two (bit_and x 254),
  bit_and_two x,
  bit_and-digit x 254,
  bit_and-digit (x / 2) 127,
)
