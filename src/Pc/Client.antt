-- ===== src/Pc/Client.antt =====
-- The client (battery_tester_pc/src/client.rs): its subcommands, which `argh` parses, and what it
-- sends.
pub mod Arrival
pub mod Callers
mod Tests
use battery_tester.Prelude.{ℕ, Bool, if◌then◌else◌, String, [], Result, ok, err}
use battery_tester.Pc.Text.{Text}
use battery_tester.Wire.{Bytes}
use battery_tester.Pc.Messages.{ServerCmd}
use battery_tester.Pc.Ipc.{Postcard, Sending, write_ipc}

pub record BatteryIdCmd : Type 0 where
  pub year : ℕ
  pub index : ℕ

pub record CutoffCmd : Type 0 where
  pub millivolts : ℕ

pub record SerialDevCmd : Type 0 where
  pub device_name : String

pub record UndercurrentResponse : Type 0 where
  pub allow : Bool

-- The subcommands without arguments carry empty structs.
pub data Subcommands : Type 0 where
  battery_id : BatteryIdCmd → Subcommands
  serial_dev : SerialDevCmd → Subcommands
  set_cutoff : CutoffCmd → Subcommands
  start cancel shutdown clear_fault : Subcommands
  allow_undercurrent : UndercurrentResponse → Subcommands

-- `From<Subcommands> for ServerCmd`.
unfoldable pub from_subcommand : Subcommands → ServerCmd
from_subcommand (battery_id cmd) =
    ServerCmd.set_battery_id (record { year = cmd.year; index = cmd.index })
from_subcommand (serial_dev cmd) = ServerCmd.set_serial_dev cmd.device_name
from_subcommand (set_cutoff cmd) = ServerCmd.set_cutoff_millis (record { raw = cmd.millivolts })
from_subcommand start = ServerCmd.start_test
from_subcommand cancel = ServerCmd.cancel_test
from_subcommand shutdown = ServerCmd.shut_down
from_subcommand clear_fault = ServerCmd.clear_fault
from_subcommand (allow_undercurrent resp) =
    if resp.allow then ServerCmd.allow_undercurrent else ServerCmd.disallow_undercurrent

pub data Error : Type 0 where
  connect ipc_write : Text → Error

-- What `main` makes of the end of `write_ipc`.
of_write : Bytes × Result (Unit {0}) Text → Bytes × Result (Unit {0}) Error
of_write (bytes, ok _) = (bytes, ok tt)
of_write (bytes, err e) = (bytes, err (ipc_write e))

-- `main`: the bytes that go to the server, and what it returns.
unfoldable pub client :
    Postcard ServerCmd
    → Result (Unit {0}) Text
    → Sending
    → Subcommands
    → Bytes × Result (Unit {0}) Error
unfolding from_subcommand write_ipc of_write
client c (err ioe) answers cmd = ([], err (connect ioe))
client c (ok _) answers cmd = of_write (write_ipc c (from_subcommand cmd) answers)
