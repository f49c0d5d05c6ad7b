-- ===== src/Microbit/Ina260/Config.antt =====
-- The configuration register: its four fields, how they are packed, and what is sent
-- (ina260/mod.rs, lines 255 to 317).
use Prim.Native.Nat.{bit_or}
use battery_tester.Prelude.{ℕ, ◌+◌, ◌*◌, ◌/◌, ◌%◌, [], ◌∷◌, Result}
use battery_tester.Microbit.Twim.{Twim, TwimError}
use battery_tester.Microbit.Ina260.Registers.{
  Register, addr, Averaging, averaging_bits, BvConvTime, bv_bits, ScConvTime, sc_bits, OperMode,
  oper_bits,
}

pub record Ina260Config : Type 0 where
  pub om : OperMode
  pub am : Averaging
  pub scct : ScConvTime
  pub bvct : BvConvTime

unfoldable pub new : Ina260Config
new = record {
  om = OperMode.scbvc;
  am = Averaging.avg4;
  scct = ScConvTime.ms1_1;
  bvct = BvConvTime.ms1_1;
}

unfoldable pub set_operating_mode : Ina260Config → OperMode → Ina260Config
set_operating_mode c om = record c { om = om }

unfoldable pub set_averaging_mode : Ina260Config → Averaging → Ina260Config
set_averaging_mode c am = record c { am = am }

unfoldable pub set_sccov_time : Ina260Config → ScConvTime → Ina260Config
set_sccov_time c scct = record c { scct = scct }

unfoldable pub set_bvcov_time : Ina260Config → BvConvTime → Ina260Config
set_bvcov_time c bvct = record c { bvct = bvct }

-- `u16::to_be_bytes` and `u16::from_be_bytes`.
abbrev pub to_be_bytes : ℕ → ℕ × ℕ
to_be_bytes n = (n / 256 % 256, n % 256)

abbrev pub from_be_bytes : ℕ × ℕ → ℕ
from_be_bytes b = b.0 * 256 + b.1

unfoldable pub as_be_bytes : Ina260Config → ℕ × ℕ
unfolding oper_bits averaging_bits sc_bits bv_bits
as_be_bytes c = to_be_bytes (
    bit_or (bit_or (bit_or (oper_bits c.om) (averaging_bits c.am)) (sc_bits c.scct))
      (bv_bits c.bvct))

module _ (t : Twim) where
  open t use {Bus, write}

  unfoldable pub set_config : ℕ → Ina260Config → Bus → Result (Unit {0}) TwimError × Bus
  unfolding addr as_be_bytes
  set_config address conf bus =
      let bytes = as_be_bytes conf in
      write address (addr Register.config ∷ bytes.0 ∷ bytes.1 ∷ []) bus

  unfoldable pub power_down : ℕ → Bus → Result (Unit {0}) TwimError × Bus
  unfolding addr oper_bits
  power_down address bus =
      let bytes = to_be_bytes (oper_bits OperMode.shutdown) in
      write address (addr Register.config ∷ bytes.0 ∷ bytes.1 ∷ []) bus
