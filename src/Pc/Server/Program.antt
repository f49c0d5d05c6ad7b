-- ===== src/Pc/Server/Program.antt =====
-- The loop over the modes (server.rs, lines 72 to 184). Between two events the task stands in the
-- event loop of one of five handlers; the modes that take no event run within the step.
pub mod Invariant
pub mod Handlers
pub mod Runs
pub mod Cutoff
pub mod Readings
pub mod Idle
mod Tests
use battery_tester.Prelude.{List, [], ◌∷◌, ◌++◌, Option, none, some}
use battery_tester.Pc.State
use battery_tester.Pc.State.{Mode, TestState, default_state}
use battery_tester.Pc.Messages.{ComCmd, Event, FileCmd, end_test_command, idle_command}
use battery_tester.Pc.Printer.{stop}
use battery_tester.Pc.Server.Base.{
  FilePath, Debug, World, Out, print, to_com, to_file, ipc_shutdown, Program, Turn, stat,
}
use battery_tester.Pc.Server.Setup
use battery_tester.Pc.Server.Waiting.Battery
use battery_tester.Pc.Server.Waiting.UsrStart
use battery_tester.Pc.Server.Testing
use battery_tester.Pc.Server.Fault

-- The event loops.
pub data Stage : Type 0 where
  in_setup in_battery in_usr_start in_testing in_fault : Stage

-- `unfinished` is the panic of the `todo!()` of `Mode::Paused`.
pub data Running : Type 0 where
  running : Stage → Program → Running
  stopped unfinished : Running

unfoldable pub shutdown : List Out
unfolding idle_command
shutdown =
    to_com (ComCmd.bi_command idle_command)
    ∷ to_file FileCmd.close_file
    ∷ to_file FileCmd.shutdown
    ∷ to_com ComCmd.shutdown
    ∷ ipc_shutdown
    ∷ print stop
    ∷ []

unfoldable pub comm_dc : Program → Program × List Out
unfolding State.clear_test
comm_dc p = (
  record p { state = State.clear_test p.state },
  stat "serial comms disconnected" ∷ to_file FileCmd.close_file ∷ [],
)

unfoldable pub end_test : Program → Program × List Out
unfolding State.clear_test end_test_command
end_test p = (
  record p { state = State.clear_test p.state },
  to_com (ComCmd.bi_command end_test_command)
      ∷ to_file FileCmd.close_file
      ∷ stat "ending test..."
      ∷ [],
)

-- `Mode::Setup` is what follows `EndTest` and `CommDC`.
to_setup : Debug → Program × List Out → Running × List Out
unfolding Setup.enter
to_setup d (p, outs) = (running in_setup p, outs ++ Setup.enter d p)

to_fault : Program × List Out → Running × List Out
to_fault (p, outs) = (running in_fault p, outs)

-- From the choice of a mode to the next wait for an event.
unfoldable pub enter : Debug → Mode → Program → Running × List Out
unfolding shutdown comm_dc end_test to_setup to_fault Setup.enter Battery.enter UsrStart.enter
    Testing.enter Fault.enter
enter d Mode.setup p = (running in_setup p, Setup.enter d p)
enter d Mode.wait_for_battery p = (running in_battery p, Battery.enter)
enter d Mode.wait_for_usr_start p = (running in_usr_start p, UsrStart.enter)
enter d Mode.testing p = (running in_testing p, Testing.enter p)
enter d Mode.paused p = (unfinished, [])
enter d Mode.shutdown p = (stopped, shutdown)
enter d Mode.end_test p = to_setup d (end_test p)
enter d Mode.comm_dc p = to_setup d (comm_dc p)
enter d Mode.fault p = to_fault (Fault.enter p)

unfoldable pub on_event : Debug → World → Stage → Program → Event → Turn
on_event d w in_setup p e = Setup.on_event d w p e
on_event d w in_battery p e = Battery.on_event d w p e
on_event d w in_usr_start p e = UsrStart.on_event d w p e
on_event d w in_testing p e = Testing.on_event d w p e
on_event d w in_fault p e = Fault.on_event d w p e

-- After one turn of a handler: its loop goes on, or the task goes to the mode.
unfoldable pub after : Debug → Stage → Turn → Running × List Out
after d s (p, outs, none) = (running s p, outs)
after d s (p, outs, some m) = let (r, more) = enter d m p in (r, outs ++ more)

-- One receive; `none` is a closed channel.
unfoldable pub step : Debug → Running → World × Option Event → Running × List Out
unfolding on_event after
step d (running s p) (w, some e) = after d s (on_event d w s p e)
step d (running s p) (w, none) = enter d Mode.shutdown p
step d stopped i = (stopped, [])
step d unfinished i = (unfinished, [])

unfoldable pub start : Debug → FilePath → Running × List Out
start d dir =
    let p : Program = record { state = default_state; output_dir = dir } in
    let (r, outs) = enter d Mode.setup p in (r, stat "program started..." ∷ outs)

-- The task over the events that it receives, with all that it sends.
unfoldable pub runs : Debug → Running → List (World × Option Event) → Running × List Out
runs d r [] = (r, [])
runs d r (i ∷ is) =
    let (r', outs) = step d r i in let (end, more) = runs d r' is in (end, outs ++ more)

unfoldable pub program_event_task :
    Debug → FilePath → List (World × Option Event) → Running × List Out
unfolding start runs
program_event_task d dir is =
    let (r, outs) = start d dir in let (end, more) = runs d r is in (end, outs ++ more)
