-- ===== src/Pc/State.antt =====
-- The state of a test and the modes of the server (battery_tester_pc/src/lib.rs, lines 130 to 221).
use battery_tester.Prelude.{ℕ, String, Bool, true, false, ◌&&◌, Option, none, some}
use battery_tester.Common.{AllowUndercurrent, MilliVolt}

abbrev pub default_cutoff_milliv : ℕ
default_cutoff_milliv = 11000

pub data Mode : Type 0 where
  setup wait_for_battery wait_for_usr_start testing paused shutdown end_test comm_dc fault : Mode

pub record BatteryId : Type 0 where
  pub year : ℕ
  pub index : ℕ

pub record TestState : Type 0 where
  pub cutoff : MilliVolt
  pub battery_id : Option BatteryId
  pub device_name : Option String
  pub first_reply : Bool
  pub allow_undercurrent : AllowUndercurrent

unfoldable pub default_state : TestState
default_state = record {
  cutoff = record { raw = default_cutoff_milliv };
  battery_id = none;
  device_name = none;
  first_reply = false;
  allow_undercurrent = AllowUndercurrent.no;
}

unfoldable pub new_cutoff : TestState → MilliVolt → TestState
new_cutoff s millivolts = record s { cutoff = millivolts }

unfoldable pub new_batt_id : TestState → BatteryId → TestState
new_batt_id s id = record s { battery_id = some id }

unfoldable pub new_device_name : TestState → String → TestState
new_device_name s name = record s { device_name = some name }

unfoldable pub set_first_reply : TestState → TestState
set_first_reply s = record s { first_reply = true }

unfoldable pub unset_first_reply : TestState → TestState
unset_first_reply s = record s { first_reply = false }

unfoldable pub got_first_reply : TestState → Bool
got_first_reply s = s.first_reply

-- `TestState::end_test`, whose name is that of a mode here.
unfoldable pub clear_test : TestState → TestState
clear_test s = record s { battery_id = none; first_reply = false }

abbrev pub is_some {ℓ} : {A : Type ℓ} → Option A → Bool
is_some (some a) = true
is_some none = false

unfoldable pub ready_for_battery : TestState → Bool
ready_for_battery s = is_some s.battery_id && s.first_reply && is_some s.device_name

unfoldable pub set_allow_undercurrent : TestState → AllowUndercurrent → TestState
set_allow_undercurrent s allow = record s { allow_undercurrent = allow }
