-- ===== src/Pc/Server/Program/Handlers.antt =====
-- The five handlers of server.rs and the invariant of the control task.
use battery_tester.Prelude.{◌≡◌, refl, Bool, [], ◌∷◌, ◌++◌, ap, arith}
use battery_tester.Pc.State.{ready_for_battery}
use battery_tester.Pc.Messages.{Event}
use battery_tester.Pc.Text.{Text}
use battery_tester.Pc.Server.Base.{
  FilePath, Debug, World, Out, print, to_com, to_file, ipc_shutdown, Program, Turn, new_file,
}
use battery_tester.Pc.Server.Base
use battery_tester.Pc.Server.Setup
use battery_tester.Pc.Server.Waiting.Battery
use battery_tester.Pc.Server.Waiting.UsrStart
use battery_tester.Pc.Server.Testing
use battery_tester.Pc.Server.Fault
use battery_tester.Pc.Server.Program.{Stage, on_event}
use battery_tester.Pc.Server.Program.Invariant.{IsReady, TurnKeeps}

pop-push : (dir : FilePath) (name : Text) → Base.pop_path (dir ++ name ∷ []) ≡ dir
pop-push [] name = refl
pop-push (c ∷ []) name = refl
pop-push (c ∷ x ∷ cs) name = ap (λ t. c ∷ t) (pop-push (x ∷ cs) name)

-- A new file does not move the output directory, and nothing else touches it.
keeps_directory :
    (d : Debug) (w : World) (s : Stage) (p : Program) (e : Event)
    → (on_event d w s p e).0.output_dir ≡ p.output_dir
unfolding on_event Setup.on_event Battery.on_event UsrStart.on_event Testing.on_event Fault.on_event
keeps_directory d w s p (Event.batt_id id) =
    ground (arith, pop-push p.output_dir (Base.file_name w id))
keeps_directory d w s p e = ground arith

-- Every handler, on every event.
pub on_event-TurnKeeps :
    (d : Debug) (w : World) (s : Stage) (p : Program) (o : Bool) (e : Event)
    → IsReady s o p.state
    → TurnKeeps s p.output_dir o (on_event d w s p e)
unfolding on_event Setup.on_event Battery.on_event UsrStart.on_event Testing.on_event Fault.on_event
    ready_for_battery
on_event-TurnKeeps d w s p o e h = record {
  load = λ l. ground arith;
  pushes = ground arith;
  opened = ground arith;
  goes = ground arith;
  directory = keeps_directory d w s p e;
}
