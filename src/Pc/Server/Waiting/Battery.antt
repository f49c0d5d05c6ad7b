-- ===== src/Pc/Server/Waiting/Battery.antt =====
-- The mode `WaitForBattery` (server.rs, lines 328 to 400).
use battery_tester.Prelude.{
  List, [], ◌∷◌, ◌++◌, Option, none, some, Result, ok, err, ltb, if◌then◌else◌,
}
use battery_tester.Common.{Fault, Measurement}
use battery_tester.Pc.Text.{codes}
use battery_tester.Pc.State
use battery_tester.Pc.State.{Mode}
use battery_tester.Pc.Messages.{ComCmd, Event, volts_command}
use battery_tester.Pc.Server.Base.{
  Debug, World, Out, to_com, Program, Turn, stat, prints, new_cutoff, waiting_batt_id,
}

unfoldable pub enter : List Out
unfolding volts_command
enter = stat "waiting for battery connection..." ∷ to_com (ComCmd.bi_command volts_command) ∷ []

replied : Debug → Program → Result (Unit {0}) Fault → Option Measurement → Turn
replied d s (ok _) (some m) =
    if ltb s.state.cutoff.raw m.vbat.raw
    then (s, [], some Mode.wait_for_usr_start)
    else (s, [], none)
replied d s (ok _) none = (s, [], none)
replied d s (err f) _ = (s, prints (codes "fault:\n" ++ d.fault f) ∷ [], some Mode.fault)

unfoldable pub on_event : Debug → World → Program → Event → Turn
unfolding replied new_cutoff waiting_batt_id State.set_allow_undercurrent
on_event d w s (Event.batt_id id) = waiting_batt_id d w s id
on_event d w s (Event.set_cutoff millivolts) = new_cutoff s millivolts
on_event d w s Event.start_test = (s, stat "can't start test while waiting for battery" ∷ [], none)
on_event d w s Event.comm_dc = (s, [], some Mode.comm_dc)
on_event d w s (Event.com_reply reply) = replied d s reply.fault reply.measurement
on_event d w s Event.cancel_test = (s, [], some Mode.end_test)
on_event d w s (Event.set_serial_device dev_id) =
    (s, stat "can't change serial device while waiting for battery" ∷ [], none)
on_event d w s Event.shutdown = (s, [], some Mode.shutdown)
on_event d w s Event.file_error = (s, [], some Mode.end_test)
on_event d w s Event.clear_fault = (s, stat "no fault to clear" ∷ [], none)
on_event d w s (Event.under_current_response allow) =
    (record s { state = State.set_allow_undercurrent s.state allow }, [], none)
