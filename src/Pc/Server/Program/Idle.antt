-- ===== src/Pc/Server/Program/Idle.antt =====
-- The control task without a start by the user (server.rs).
use battery_tester.Prelude.{
  ◌≡◌, ◌≢◌, refl, ap, Bool, List, [], ◌∷◌, ◌++◌, Option, none, some, arith,
}
use battery_tester.Common.{LoadState}
use battery_tester.Pc.State.{Mode}
use battery_tester.Pc.Messages.{ComCmd, Event}
use battery_tester.Pc.Server.Base.{
  FilePath, Debug, World, Out, print, to_com, to_file, ipc_shutdown, Program, Turn,
}
use battery_tester.Pc.Server.Program.{
  Stage, Running, running, stopped, unfinished, enter, on_event, after, step, start, runs,
  program_event_task,
}
use battery_tester.Pc.Server.Program.Invariant.{load_after, open_after}
use battery_tester.Pc.Server.Program.Handlers.{on_event-TurnKeeps}
use battery_tester.Pc.Server.Program.Runs.{IsGood, start-StepGood, step-StepGood}
use battery_tester.Pc.Server.Program.Cutoff.{goes_testing}

-- No command sent asks for the load.
abbrev pub LoadsOff : List Out → Type 0
LoadsOff [] = Unit
LoadsOff (to_com (ComCmd.bi_command c) ∷ os) = (c.load ≡ LoadState.off) × LoadsOff os
LoadsOff (_ ∷ os) = LoadsOff os

-- The user never asks for the start of a test.
abbrev pub NoStart : List (World × Option Event) → Type 0
NoStart [] = Unit
NoStart ((w, i) ∷ is) = (i ≢ some Event.start_test) × NoStart is

LoadsOff-append : (xs ys : List Out) → LoadsOff xs → LoadsOff ys → LoadsOff (xs ++ ys)
LoadsOff-append [] ys h k = k
LoadsOff-append (to_com (ComCmd.bi_command c) ∷ xs) ys h k = (h.0, LoadsOff-append xs ys h.1 k)
LoadsOff-append (to_com (ComCmd.new_device_name n) ∷ xs) ys h k = LoadsOff-append xs ys h k
LoadsOff-append (to_com ComCmd.shutdown ∷ xs) ys h k = LoadsOff-append xs ys h k
LoadsOff-append (to_com ComCmd.clear_fault ∷ xs) ys h k = LoadsOff-append xs ys h k
LoadsOff-append (print q ∷ xs) ys h k = LoadsOff-append xs ys h k
LoadsOff-append (to_file c ∷ xs) ys h k = LoadsOff-append xs ys h k
LoadsOff-append (ipc_shutdown ∷ xs) ys h k = LoadsOff-append xs ys h k

-- A handler that leaves the load as it was, whatever it was, sends no command for the board.
unchanged-LoadsOff : (os : List Out) → ((l : LoadState) → load_after l os ≡ l) → LoadsOff os
unchanged-LoadsOff [] h = tt
unchanged-LoadsOff (to_com (ComCmd.bi_command c) ∷ os) h =
    absurd (let off = h LoadState.off in let on = h LoadState.on in ground arith)
unchanged-LoadsOff (to_com (ComCmd.new_device_name n) ∷ os) h = unchanged-LoadsOff os h
unchanged-LoadsOff (to_com ComCmd.shutdown ∷ os) h = unchanged-LoadsOff os h
unchanged-LoadsOff (to_com ComCmd.clear_fault ∷ os) h = unchanged-LoadsOff os h
unchanged-LoadsOff (print q ∷ os) h = unchanged-LoadsOff os h
unchanged-LoadsOff (to_file c ∷ os) h = unchanged-LoadsOff os h
unchanged-LoadsOff (ipc_shutdown ∷ os) h = unchanged-LoadsOff os h

enter-LoadsOff : (d : Debug) (m : Mode) (p : Program) → m ≢ Mode.testing → LoadsOff (enter d m p).1
unfolding enter
enter-LoadsOff d Mode.testing p h = absurd (h refl)
enter-LoadsOff d m p h = ground arith

after-LoadsOff :
    (d : Debug) (s : Stage) (t : Turn)
    → LoadsOff t.1
    → t.2 ≢ some Mode.testing
    → LoadsOff (after d s t).1
unfolding after
after-LoadsOff d s (p, outs, none) h k = h
after-LoadsOff d s (p, outs, some m) h k =
    LoadsOff-append outs (enter d m p).1 h (enter-LoadsOff d m p (λ e. k (ap some e)))

step-LoadsOff :
    (d : Debug) (r : Running) (w : World) (i : Option Event) (l : LoadState) (o : Bool)
    (dir : FilePath)
    → IsGood l o dir r
    → i ≢ some Event.start_test
    → LoadsOff (step d r (w, i)).1
unfolding step
step-LoadsOff d (running s p) w (some e) l o dir g n =
    after-LoadsOff d s (on_event d w s p e)
      (unchanged-LoadsOff (on_event d w s p e).1 (on_event-TurnKeeps d w s p o e g.1).load)
      (λ h. n (ap some (goes_testing d w s p e h).1))
step-LoadsOff d (running s p) w none l o dir g n =
    enter-LoadsOff d Mode.shutdown p (λ e. ground arith)
step-LoadsOff d stopped w i l o dir g n = tt
step-LoadsOff d unfinished w i l o dir g n = tt

runs-LoadsOff :
    (d : Debug) (is : List (World × Option Event)) (r : Running) (l : LoadState) (o : Bool)
    (dir : FilePath)
    → IsGood l o dir r
    → NoStart is
    → LoadsOff (runs d r is).1
unfolding runs
runs-LoadsOff d [] r l o dir g n = tt
runs-LoadsOff d ((w, i) ∷ is) r l o dir g n =
    let (r', outs) = step d r (w, i) in
    LoadsOff-append outs (runs d r' is).1 (step-LoadsOff d r w i l o dir g n.0) (
      runs-LoadsOff d is r' (load_after l outs) (open_after o outs) dir
        (step-StepGood d r (w, i) l o dir g).0 n.1)

start-LoadsOff : (d : Debug) (dir : FilePath) → LoadsOff (start d dir).1
unfolding start enter
start-LoadsOff d dir = ground arith

-- As long as the user does not ask for the start of a test, no command that the control task sends
-- asks for the load.
pub program_event_task-LoadsOff :
    (d : Debug) (dir : FilePath) (is : List (World × Option Event))
    → NoStart is
    → LoadsOff (program_event_task d dir is).1
unfolding program_event_task
program_event_task-LoadsOff d dir is n =
    LoadsOff-append (start d dir).1 (runs d (start d dir).0 is).1 (start-LoadsOff d dir)
      (runs-LoadsOff d is (start d dir).0 _ _ dir (start-StepGood d dir).0 n)
