-- ===== src/Prelude/Int.antt =====
-- Signed machine integers, as far as the INA260 driver computes with them.
use battery_tester.Prelude.Tests.{ltb, if◌then◌else◌}
use Prim.Native.Nat.{ℕ, suc, ◌-◌, ◌*◌, ◌/◌, ◌+◌}

-- `negsuc n` is -(n + 1).
pub data ℤ : Type 0 where
  pos : ℕ → ℤ
  negsuc : ℕ → ℤ

-- `u16 as i16`.
abbrev pub to_i16 : ℕ → ℤ
to_i16 n = if ltb n 32768 then pos n else negsuc (65535 - n)

-- The integer of sign `-` and the given magnitude.
abbrev pub neg_of : ℕ → ℤ
neg_of Prim.Native.Nat.zero = pos 0
neg_of (suc n) = negsuc n

-- A product with a literal, and a quotient by one, rounded towards zero.
abbrev pub mul_lit : ℤ → ℕ → ℤ
mul_lit (pos n) k = pos (n * k)
mul_lit (negsuc n) k = neg_of (suc n * k)

abbrev pub div_lit : ℤ → ℕ → ℤ
div_lit (pos n) k = pos (n / k)
div_lit (negsuc n) k = neg_of (suc n / k)

abbrev pub unsigned_abs : ℤ → ℕ
unsigned_abs (pos n) = n
unsigned_abs (negsuc n) = n + 1
