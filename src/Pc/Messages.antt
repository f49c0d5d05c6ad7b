-- ===== src/Pc/Messages.antt =====
-- What the tasks of the server say to one another, and the commands for the battery interface
-- (battery_tester_pc/src/lib.rs, lines 223 to 332).
use battery_tester.Prelude.{ℕ, String}
use battery_tester.Common.{
  AllowUndercurrent, BiCommand, BiReply, ClearFault, LoadState, MilliAmp, MilliVolt, Reset,
}
use battery_tester.Pc.State.{BatteryId}

pub data ServerCmd : Type 0 where
  set_battery_id : BatteryId → ServerCmd
  set_serial_dev : String → ServerCmd
  set_cutoff_millis : MilliVolt → ServerCmd
  start_test cancel_test shut_down clear_fault allow_undercurrent disallow_undercurrent : ServerCmd

pub data Event : Type 0 where
  batt_id : BatteryId → Event
  set_serial_device : String → Event
  set_cutoff : MilliVolt → Event
  start_test comm_dc : Event
  com_reply : BiReply → Event
  cancel_test shutdown file_error clear_fault : Event
  under_current_response : AllowUndercurrent → Event

pub record SaveData : Type 0 where
  pub millivolts : MilliVolt
  pub milliamps : MilliAmp
  pub dt : ℕ
  pub duration : ℕ

-- An open `tokio::fs::File` is its number on the disk.
abbrev pub File : Type 0
File = ℕ

pub data FileCmd : Type 0 where
  new_file : File → FileCmd
  close_file shutdown : FileCmd
  push : SaveData → FileCmd

pub data ComCmd : Type 0 where
  new_device_name : String → ComCmd
  bi_command : BiCommand → ComCmd
  shutdown clear_fault : ComCmd

unfoldable pub idle_command : BiCommand
idle_command = record {
  load = LoadState.off;
  clear_fault = ClearFault.no;
  reset = Reset.no;
  allow_undercurrent = AllowUndercurrent.no;
}

unfoldable pub end_test_command : BiCommand
end_test_command = record {
  load = LoadState.off;
  clear_fault = ClearFault.no;
  reset = Reset.yes;
  allow_undercurrent = AllowUndercurrent.no;
}

unfoldable pub volts_command : BiCommand
volts_command = record {
  load = LoadState.off;
  clear_fault = ClearFault.no;
  reset = Reset.no;
  allow_undercurrent = AllowUndercurrent.no;
}

unfoldable pub testing_command : AllowUndercurrent → BiCommand
testing_command allow = record {
  load = LoadState.on;
  clear_fault = ClearFault.no;
  reset = Reset.no;
  allow_undercurrent = allow;
}

unfoldable pub clear_fault_command : BiCommand
clear_fault_command = record {
  load = LoadState.off;
  clear_fault = ClearFault.yes;
  reset = Reset.no;
  allow_undercurrent = AllowUndercurrent.no;
}
