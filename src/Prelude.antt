-- ===== src/Prelude.antt =====
-- The names that the other modules share: the libraries', passed on, and those of two children.
mod Tests
mod Lists
pub mod Int
pub use Tests.*
pub use Lists.*
pub use Prim.Native.Nat.{ℕ, zero, suc, ◌+◌, ◌-◌, ◌*◌, ◌/◌, ◌%◌, ◌^◌, ◌≤◌, ◌<◌, min}
pub use Prim.Native.String.{String}
pub use mathlib.Core.Path.{◌≡◌, refl, sym, ap, ◌∙◌}
pub use mathlib.Core.Logic.{◌≢◌, ◌↔◌, ◌⊎◌, inl, inr}
pub use mathlib.Core.Bool.{Bool, true, false, ◌&&◌, ◌||◌, not}
pub use mathlib.Core.Option.{Option, none, some}
pub use mathlib.Core.List.{List, [], ◌∷◌, ◌++◌, map, append-nil, append_assoc}
pub use native.Mathlib.Omega.{arith}

-- The result of code that panics on a failed check. `panic` stands for the panic.
pub data Checked {ℓ} (A : Type ℓ) : Type ℓ where
  returns : A → Checked A
  panic : Checked A

infixl 5 ◌>>=◌
abbrev pub ◌>>=◌ {ℓ κ} : {A : Type ℓ} {B : Type κ} → Checked A → (A → Checked B) → Checked B
returns a >>= f = f a
panic >>= f = panic

-- Rust's `Result`.
pub data Result {ℓ κ} (A : Type ℓ) (E : Type κ) : Type (ℓ ⊔ κ) where
  ok : A → Result A E
  err : E → Result A E

-- Whether the build checks arithmetic for overflow: a debug build panics, a release build wraps.
pub data Build : Type 0 where
  debug release : Build

-- Sums and differences of u16.
unfoldable pub add_u16 : Build → ℕ → ℕ → Checked ℕ
add_u16 debug a b = if ltb (a + b) 65536 then returns (a + b) else panic
add_u16 release a b = returns (u16 (a + b))

unfoldable pub sub_u16 : Build → ℕ → ℕ → Checked ℕ
sub_u16 debug a b = if ltb a b then panic else returns (a - b)
sub_u16 release a b = returns (u16 (a + 65536 - b))

-- The comparison that Rust's `Ord` gives, as far as it is used.
pub record Ord {ℓ} (A : Type ℓ) : Type ℓ where
  pub lt : A → A → Bool
