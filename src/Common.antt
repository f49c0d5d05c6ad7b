-- ===== src/Common.antt =====
-- The messages that PC and board exchange (battery_tester_common/src/lib.rs).
-- `MilliAmp` and `MilliVolt` are the source's newtypes of u16; their order is that of the number.
-- `derive`d code has no definition here: equality is `≡`, defaults are written out.
use battery_tester.Prelude.{ℕ, Option, Result, Ord, ltb}

pub record MilliAmp : Type 0 where
  pub raw : ℕ

pub record MilliVolt : Type 0 where
  pub raw : ℕ

pub data ClearFault : Type 0 where
  no yes : ClearFault

pub data Reset : Type 0 where
  no yes : Reset

pub data AllowUndercurrent : Type 0 where
  no yes : AllowUndercurrent

pub data LoadState : Type 0 where
  off on : LoadState

pub record BiCommand : Type 0 where
  pub load : LoadState
  pub reset : Reset
  pub clear_fault : ClearFault
  pub allow_undercurrent : AllowUndercurrent

-- Times are u64 milliseconds.
pub record Measurement : Type 0 where
  pub vbat : MilliVolt
  pub ibat : MilliAmp
  pub dt : ℕ
  pub duration : ℕ

pub data TiwmError : Type 0 where
  tx_buffer_too_long rx_buffer_too_long transmit receive ram_buffer_too_small : TiwmError
  address_nack data_nack overrun timeout unknown : TiwmError

pub data I2cError : Type 0 where
  ina_vin_current ina_vin_voltage ina_vin_config ina_vin_id : TiwmError → I2cError

pub data FaultKind : Type 0 where
  i2c : I2cError → FaultKind
  undercurrent no_battery overcurrent : FaultKind

pub record Fault : Type 0 where
  pub kind : FaultKind
  pub time : ℕ

pub record BiReply : Type 0 where
  pub measurement : Option Measurement
  pub fault : Result (Unit {0}) Fault

-- `#[derive(Default)]` takes the variants marked `#[default]`.
unfoldable pub default_command : BiCommand
default_command = record {
  load = LoadState.off;
  reset = Reset.no;
  clear_fault = ClearFault.no;
  allow_undercurrent = AllowUndercurrent.no;
}

-- `default = 0` of both newtypes.
unfoldable pub default_milliamp : MilliAmp
default_milliamp = record { raw = 0 }

unfoldable pub default_millivolt : MilliVolt
default_millivolt = record { raw = 0 }

-- The two replies that carry no measurement and those that report a fault.
abbrev pub ok_reply : Option Measurement → BiReply
ok_reply m = record { measurement = m; fault = Result.ok tt }

abbrev pub fault_reply : Fault → BiReply
fault_reply f = record { measurement = Option.none; fault = Result.err f }

instance abbrev pub milliamp_ord : Ord MilliAmp
milliamp_ord = record { lt = λ a b. ltb a.raw b.raw }
