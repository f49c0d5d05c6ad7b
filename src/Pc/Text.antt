-- ===== src/Pc/Text.antt =====
-- Text as the PC programs write it: literals, and numbers by `{}` of Rust's `format!`.
pub mod Decimal
use Prim.Native.Char.{code}
use battery_tester.Prelude.{ℕ, zero, suc, ◌+◌, ◌/◌, ◌%◌, String, List, [], ◌∷◌, ◌==◌, if◌then◌else◌}

abbrev pub Text : Type 0
Text = List ℕ

-- The bytes of a literal, which is ASCII in this program.
unfoldable pub codes : String → Text
codes String.[] = []
codes (String.◌∷◌ c s) = code c ∷ codes s

-- The digits of `n`, before `rest`. A u64 has at most twenty.
unfoldable pub digits : ℕ → ℕ → Text → Text
digits zero n rest = rest
digits (suc fuel) n rest =
    let more = digits fuel (n / 10) ((48 + n % 10) ∷ rest) in if n == 0 then rest else more

unfoldable pub decimal : ℕ → Text
decimal n = if n == 0 then 48 ∷ [] else digits 20 n []
