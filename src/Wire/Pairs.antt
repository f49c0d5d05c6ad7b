-- ===== src/Wire/Pairs.antt =====
-- A small codec for tests: a message is a number, written as two bytes.
use battery_tester.Prelude.{ℕ, refl, [], ◌∷◌, Option, none, some, ◌==◌, if◌then◌else◌, arith}
use battery_tester.Wire.{Bytes, Codec}

abbrev read_pair : Bytes → Option ℕ
read_pair (k ∷ n ∷ []) = if k == 1 then some n else none
read_pair _ = none

abbrev pub pairs : Codec ℕ
pairs = record {
  to_slice = λ n. 1 ∷ n ∷ [];
  from_bytes = read_pair;
  max_size = 2;
  from_bytes-to_slice = λ n. refl;
  length-to_slice = λ n. omega arith;
  max_size_byte = omega arith;
}
