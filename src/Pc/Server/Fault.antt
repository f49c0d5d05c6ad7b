-- ===== src/Pc/Server/Fault.antt =====
-- The mode `Fault` (server.rs, lines 402 to 480).
use battery_tester.Prelude.{List, [], ◌∷◌, ◌++◌, none, some, Result, ok, err}
use battery_tester.Common.{Fault}
use battery_tester.Pc.Text.{Text, codes}
use battery_tester.Pc.State
use battery_tester.Pc.State.{BatteryId, Mode}
use battery_tester.Pc.Messages.{ComCmd, Event, File, FileCmd, idle_command}
use battery_tester.Pc.Server.Base.{
  FilePath, Debug, World, Out, to_com, to_file, Program, Turn, stat, prints, new_cutoff, new_file,
  cannot_create,
}

-- What is sent before the first event, and the state then.
unfoldable pub enter : Program → Program × List Out
unfolding idle_command State.clear_test
enter s = (
  record s { state = State.clear_test s.state },
  to_com (ComCmd.bi_command idle_command)
      ∷ stat "ending test, clear fault to continue"
      ∷ to_file FileCmd.close_file
      ∷ [],
)

opened : Program → BatteryId → Result File Text × FilePath × List Out → Turn
unfolding State.new_batt_id State.clear_test
opened s id (ok f, dir, outs) = (
  record { state = State.new_batt_id s.state id; output_dir = dir },
  outs ++ to_file (FileCmd.new_file f) ∷ [],
  none,
)
opened s id (err e, dir, outs) = (
  record { state = State.clear_test s.state; output_dir = dir },
  outs ++ cannot_create e ∷ [],
  none,
)

replied : Program → Result (Unit {0}) Fault → Turn
replied s (ok _) = (s, stat "fault cleared" ∷ [], some Mode.setup)
replied s (err f) = (s, [], none)

unfoldable pub on_event : Debug → World → Program → Event → Turn
unfolding opened replied new_file new_cutoff State.set_allow_undercurrent
on_event d w s (Event.batt_id id) = opened s id (new_file d w id s.output_dir)
on_event d w s (Event.set_serial_device dev_id) = (
  s,
  prints (codes "setting device name to: " ++ codes dev_id)
      ∷ to_com (ComCmd.new_device_name dev_id)
      ∷ [],
  none,
)
on_event d w s (Event.set_cutoff millivolts) = new_cutoff s millivolts
on_event d w s (Event.com_reply reply) = replied s reply.fault
on_event d w s Event.shutdown = (s, [], some Mode.shutdown)
on_event d w s Event.comm_dc =
    (s, stat "lost serial comms with battery interface" ∷ [], some Mode.setup)
on_event d w s Event.start_test = (s, stat "cant't start test until fault is cleared" ∷ [], none)
on_event d w s Event.cancel_test = (s, [], none)
on_event d w s Event.file_error = (s, [], none)
on_event d w s Event.clear_fault = (s, to_com ComCmd.clear_fault ∷ [], none)
on_event d w s (Event.under_current_response allow) =
    (record s { state = State.set_allow_undercurrent s.state allow }, [], none)
