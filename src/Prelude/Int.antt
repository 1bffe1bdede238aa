-- ===== src/Prelude/Int.antt =====
-- The integers over the native numbers, for the signed results of the source.
use Prim.Native.Nat.{ℕ, ◌-◌}
use libos.Prelude.Tests.{leb, if◌then◌else◌}

-- `negsuc n` is -(n + 1).
pub data ℤ : Type 0 where
  pos : ℕ → ℤ
  negsuc : ℕ → ℤ

-- a - b
abbrev pub sub_ℕ : ℕ → ℕ → ℤ
sub_ℕ a b = if leb b a then pos (a - b) else negsuc (b - a - 1)
