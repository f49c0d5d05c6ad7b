-- ===== src/Pc/Server/Testing.antt =====
-- The mode `Testing` (server.rs, lines 186 to 267).
use battery_tester.Prelude.{List, [], ◌∷◌, Option, none, some, Result, ok, err, ltb, if◌then◌else◌}
use battery_tester.Common.{Fault, Measurement}
use battery_tester.Pc.State
use battery_tester.Pc.State.{Mode}
use battery_tester.Pc.Messages.{ComCmd, Event, FileCmd, SaveData, testing_command}
use battery_tester.Pc.Server.Base.{
  Debug, World, Out, to_com, to_file, Program, Turn, stat, new_cutoff, fault_notice,
}

unfoldable pub enter : Program → List Out
unfolding testing_command
enter s =
    stat "starting test..."
    ∷ to_com (ComCmd.bi_command (testing_command s.state.allow_undercurrent))
    ∷ []

abbrev pub saved : Measurement → SaveData
saved m = record { millivolts = m.vbat; milliamps = m.ibat; dt = m.dt; duration = m.duration }

replied : Debug → Program → Result (Unit {0}) Fault → Option Measurement → Turn
replied d s (err f) _ = (s, fault_notice d f.kind ∷ [], some Mode.fault)
replied d s (ok _) (some m) =
    if ltb s.state.cutoff.raw m.vbat.raw
    then (s, to_file (FileCmd.push (saved m)) ∷ [], none)
    else (s, [], some Mode.end_test)
replied d s (ok _) none = (s, [], none)

unfoldable pub on_event : Debug → World → Program → Event → Turn
unfolding replied new_cutoff State.set_allow_undercurrent
on_event d w s (Event.set_cutoff millivolts) = new_cutoff s millivolts
on_event d w s (Event.com_reply reply) = replied d s reply.fault reply.measurement
on_event d w s Event.comm_dc = (s, [], some Mode.comm_dc)
on_event d w s Event.start_test = (s, stat "already testing" ∷ [], none)
on_event d w s Event.cancel_test = (s, [], some Mode.end_test)
on_event d w s Event.shutdown = (s, [], some Mode.shutdown)
on_event d w s (Event.set_serial_device dev_id) =
    (s, stat "can't change serial device while testing" ∷ [], none)
on_event d w s (Event.batt_id id) = (s, stat "can't change battery ID while testing" ∷ [], none)
on_event d w s Event.file_error = (s, [], some Mode.end_test)
on_event d w s Event.clear_fault = (s, stat "no fault to clear" ∷ [], none)
on_event d w s (Event.under_current_response allow) =
    (record s { state = State.set_allow_undercurrent s.state allow }, [], none)
