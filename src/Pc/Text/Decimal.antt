-- ===== src/Pc/Text/Decimal.antt =====
-- Decimal digits and the number that they spell.
use battery_tester.Prelude.{
  ℕ, zero, suc, ◌+◌, ◌-◌, ◌*◌, ◌/◌, ◌%◌, ◌^◌, ◌≤◌, ◌<◌, ◌≡◌, refl, [], ◌∷◌, inl, inr, ==→eq,
  Bool-cases, ◌==◌, ◌∙◌, ap, arith,
}
use native.Mathlib.Nat.{pow-suc}
use battery_tester.Pc.Text.{Text, digits, decimal}

-- The number that digits spell behind `n`.
unfoldable pub value : ℕ → Text → ℕ
value n [] = n
value n (c ∷ s) = value (n * 10 + (c - 48)) s

-- Every byte is a digit.
abbrev pub AllDigits : Text → Type 0
AllDigits [] = Unit
AllDigits (c ∷ s) = (48 ≤ c) × (c ≤ 57) × AllDigits s

below_one : (n : ℕ) → n < 10 ^ zero → n ≡ 0
below_one n h = omega arith

tenth : (n fuel : ℕ) → n < 10 ^ suc fuel → n / 10 < 10 ^ fuel
tenth n fuel h = omega (arith, pow-suc 10 fuel)

digits-value :
    (fuel n : ℕ) (rest : Text) → n < 10 ^ fuel → value 0 (digits fuel n rest) ≡ value n rest
unfolding digits value
digits-value zero n rest h = rw (below_one n h) refl
digits-value (suc fuel) n rest h = elim (Bool-cases (n == 0)) [
  | inl e ↦ rw (==→eq n 0 e) refl
  | inr e ↦
      rw e (digits-value fuel (n / 10) _ (tenth n fuel h) ∙ ap (λ k. value k rest) (omega arith))
]

digits-AllDigits : (fuel n : ℕ) (rest : Text) → AllDigits rest → AllDigits (digits fuel n rest)
unfolding digits
digits-AllDigits zero n rest h = h
digits-AllDigits (suc fuel) n rest h =
    ground (arith, digits-AllDigits fuel (n / 10) ((48 + n % 10) ∷ rest))

-- For every u64, and all numbers of at most twenty digits: the decimal text holds digits alone, and
-- they spell the number, so the twenty rounds of the loop are enough.
pub decimal-value : (n : ℕ) → n < 10 ^ 20 → (value 0 (decimal n) ≡ n) × AllDigits (decimal n)
unfolding decimal
decimal-value n h = elim (Bool-cases (n == 0)) [
  | inl e ↦ rw (==→eq n 0 e) (unfold value in refl, (omega arith, omega arith, tt))
  | inr e ↦ rw e (digits-value 20 n [] h ∙ unfold value in refl, digits-AllDigits 20 n [] tt)
]
