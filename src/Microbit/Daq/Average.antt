-- ===== src/Microbit/Daq/Average.antt =====
-- Sums of ten 16-bit readings in u32 (lib.rs, lines 83 to 91).
use battery_tester.Prelude.{ℕ, ◌+◌, ◌*◌, ◌/◌, ◌≤◌, ◌<◌, ◌≡◌, List, [], ◌∷◌, length, u16, u32, arith}
use battery_tester.Microbit.Daq.{sum_u32}
use battery_tester.Microbit.Daq.Window.{sum}

abbrev pub AllBetween : ℕ → ℕ → List ℕ → Type 0
AllBetween lo hi [] = Unit
AllBetween lo hi (x ∷ xs) = (lo ≤ x) × (x ≤ hi) × AllBetween lo hi xs

pub sum_bounds :
    (lo hi : ℕ) (xs : List ℕ)
    → AllBetween lo hi xs
    → (lo * length xs ≤ sum xs) × (sum xs ≤ hi * length xs)
sum_bounds lo hi [] h = omega arith
sum_bounds lo hi (x ∷ xs) (l, h, r) = omega (arith, sum_bounds lo hi xs r)

pub sum_u32_exact :
    (acc : ℕ) (xs : List ℕ) → acc + sum xs < 4294967296 → sum_u32 acc xs ≡ acc + sum xs
unfolding sum_u32
sum_u32_exact acc [] h = omega arith
sum_u32_exact acc (x ∷ xs) h = omega (arith, sum_u32_exact (u32 (acc + x)) xs (omega arith))

-- The average that the code computes of ten words is the exact one.
pub average_exact :
    (xs : List ℕ) → length xs ≡ 10 → AllBetween 0 65535 xs → u16 (sum_u32 0 xs / 10) ≡ sum xs / 10
average_exact xs n h =
    omega
      (arith, sum_bounds 0 65535 xs h, sum_u32_exact 0 xs (omega (arith, sum_bounds 0 65535 xs h)))
