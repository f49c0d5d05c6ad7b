-- ===== src/Pc/Server/Setup.antt =====
-- The mode `Setup` (server.rs, lines 481 to 576).
use battery_tester.Prelude.{List, [], ◌∷◌, ◌++◌, none, some, Result, ok, err, not, if◌then◌else◌}
use battery_tester.Common.{Fault}
use battery_tester.Pc.Text.{Text, codes}
use battery_tester.Pc.State
use battery_tester.Pc.State.{BatteryId, Mode, TestState}
use battery_tester.Pc.Messages.{ComCmd, Event, File, FileCmd, idle_command}
use battery_tester.Pc.Server.Base.{
  FilePath, Debug, World, Out, to_com, to_file, Program, Turn, stat, prints, new_cutoff, new_file,
  fault_notice, cannot_create,
}

-- What is sent before the first event.
unfoldable pub enter : Debug → Program → List Out
unfolding idle_command
enter d s =
    stat "setup: please set battery ID and tester serial port device name"
    ∷ to_com (ComCmd.bi_command idle_command)
    ∷ prints (d.state s.state)
    ∷ []

opened : Debug → Program → BatteryId → Result File Text × FilePath × List Out → Turn
unfolding State.new_batt_id State.ready_for_battery State.clear_test
opened d s id (ok f, dir, outs) =
    let state = State.new_batt_id s.state id in
    let s' : Program = record { state = state; output_dir = dir } in
    if State.ready_for_battery state
    then (s', outs ++ to_file (FileCmd.new_file f) ∷ [], some Mode.wait_for_battery)
    else (s', outs ++ (to_file (FileCmd.new_file f) ∷ prints (d.state state) ∷ []), none)
opened d s id (err e, dir, outs) = (
  record { state = State.clear_test s.state; output_dir = dir },
  outs ++ cannot_create e ∷ [],
  none,
)

replied : Debug → Program → Result (Unit {0}) Fault → Turn
unfolding State.got_first_reply State.set_first_reply State.ready_for_battery
replied d s (err f) = (s, fault_notice d f.kind ∷ [], some Mode.fault)
replied d s (ok _) =
    let state =
      if not (State.got_first_reply s.state) then State.set_first_reply s.state else s.state in
    let outs : List Out =
      if not (State.got_first_reply s.state) then prints (d.state state) ∷ [] else [] in
    (
      record s { state = state },
      outs,
      if State.ready_for_battery state then some Mode.wait_for_battery else none,
    )

unfoldable pub on_event : Debug → World → Program → Event → Turn
unfolding opened replied new_file new_cutoff State.new_device_name State.unset_first_reply
    State.clear_test State.set_allow_undercurrent
on_event d w s (Event.batt_id id) = opened d s id (new_file d w id s.output_dir)
on_event d w s (Event.set_serial_device dev_id) =
    let state = State.new_device_name s.state dev_id in
    (
      record s { state = state },
      prints (codes "setting device name to: " ++ codes dev_id)
          ∷ to_com (ComCmd.new_device_name dev_id)
          ∷ prints (d.state state)
          ∷ [],
      none,
    )
on_event d w s (Event.set_cutoff millivolts) = new_cutoff s millivolts
on_event d w s (Event.com_reply reply) = replied d s reply.fault
on_event d w s Event.shutdown = (s, [], some Mode.shutdown)
on_event d w s Event.comm_dc = (record s { state = State.unset_first_reply s.state }, [], none)
on_event d w s Event.start_test = (s, stat "cant't start test during setup" ∷ [], none)
on_event d w s Event.cancel_test = (s, [], none)
on_event d w s Event.file_error = (record s { state = State.clear_test s.state }, [], none)
on_event d w s Event.clear_fault = (s, stat "no fault to clear" ∷ [], none)
on_event d w s (Event.under_current_response allow) =
    (record s { state = State.set_allow_undercurrent s.state allow }, [], none)
