-- ===== src/Pc/Server/Program/Runs.antt =====
-- The control task over any events (server.rs).
use battery_tester.Prelude.{
  ◌≡◌, refl, ◌∙◌, Bool, true, false, List, [], ◌∷◌, ◌++◌, Option, none, some, arith,
}
use mathlib.Core.Path.{subst}
use battery_tester.Common.{LoadState}
use battery_tester.Pc.State
use battery_tester.Pc.State.{Mode, TestState, default_state, is_some, ready_for_battery}
use battery_tester.Pc.Messages.{ComCmd, Event, FileCmd}
use battery_tester.Pc.Server.Base.{
  FilePath, Debug, World, Out, print, to_com, to_file, ipc_shutdown, Program, Turn,
}
use battery_tester.Pc.Server.Program.{
  Stage, Running, running, stopped, unfinished, enter, on_event, after, step, start, runs,
  program_event_task,
}
use battery_tester.Pc.Server.Program.Invariant.{
  load_after, open_after, PushesOpen, load_of, IsReady, MayGo, TurnKeeps,
}
use battery_tester.Pc.Server.Program.Handlers.{on_event-TurnKeeps}

-- What holds of the task after what it has sent, by the load last asked for (`l`), whether a file is
-- open (`o`) and the directory that it was given.
abbrev pub IsGood : LoadState → Bool → FilePath → Running → Type 0
IsGood l o dir (running s p) = (l ≡ load_of s) × IsReady s o p.state × (p.output_dir ≡ dir)
IsGood l o dir stopped = (l ≡ LoadState.off) × (o ≡ false)
IsGood l o dir unfinished = ⊥

-- The same of a step's result, begun with `l` and `o`.
abbrev pub StepGood : LoadState → Bool → FilePath → Running × List Out → Type 0
StepGood l o dir t = IsGood (load_after l t.1) (open_after o t.1) dir t.0 × PushesOpen o t.1

load_after-append :
    (l : LoadState) (xs ys : List Out) → load_after l (xs ++ ys) ≡ load_after (load_after l xs) ys
load_after-append l [] ys = refl
load_after-append l (to_com (ComCmd.bi_command c) ∷ xs) ys = load_after-append c.load xs ys
load_after-append l (to_com (ComCmd.new_device_name n) ∷ xs) ys = load_after-append l xs ys
load_after-append l (to_com ComCmd.shutdown ∷ xs) ys = load_after-append l xs ys
load_after-append l (to_com ComCmd.clear_fault ∷ xs) ys = load_after-append l xs ys
load_after-append l (print q ∷ xs) ys = load_after-append l xs ys
load_after-append l (to_file c ∷ xs) ys = load_after-append l xs ys
load_after-append l (ipc_shutdown ∷ xs) ys = load_after-append l xs ys

open_after-append :
    (o : Bool) (xs ys : List Out) → open_after o (xs ++ ys) ≡ open_after (open_after o xs) ys
open_after-append o [] ys = refl
open_after-append o (to_file (FileCmd.new_file f) ∷ xs) ys = open_after-append true xs ys
open_after-append o (to_file FileCmd.close_file ∷ xs) ys = open_after-append false xs ys
open_after-append o (to_file FileCmd.shutdown ∷ xs) ys = open_after-append false xs ys
open_after-append o (to_file (FileCmd.push r) ∷ xs) ys = open_after-append o xs ys
open_after-append o (print q ∷ xs) ys = open_after-append o xs ys
open_after-append o (to_com c ∷ xs) ys = open_after-append o xs ys
open_after-append o (ipc_shutdown ∷ xs) ys = open_after-append o xs ys

PushesOpen-append :
    (o : Bool) (xs ys : List Out)
    → PushesOpen o xs
    → PushesOpen (open_after o xs) ys
    → PushesOpen o (xs ++ ys)
PushesOpen-append o [] ys h k = k
PushesOpen-append o (to_file (FileCmd.new_file f) ∷ xs) ys h k = PushesOpen-append true xs ys h k
PushesOpen-append o (to_file FileCmd.close_file ∷ xs) ys h k = PushesOpen-append false xs ys h k
PushesOpen-append o (to_file FileCmd.shutdown ∷ xs) ys h k = PushesOpen-append false xs ys h k
PushesOpen-append o (to_file (FileCmd.push r) ∷ xs) ys h k = (h.0, PushesOpen-append o xs ys h.1 k)
PushesOpen-append o (print q ∷ xs) ys h k = PushesOpen-append o xs ys h k
PushesOpen-append o (to_com c ∷ xs) ys h k = PushesOpen-append o xs ys h k
PushesOpen-append o (ipc_shutdown ∷ xs) ys h k = PushesOpen-append o xs ys h k

-- What is sent in two parts.
StepGood-append :
    (l : LoadState) (o : Bool) (dir : FilePath) (outs more : List Out) (r : Running)
    → PushesOpen o outs
    → StepGood (load_after l outs) (open_after o outs) dir (r, more)
    → StepGood l o dir (r, outs ++ more)
StepGood-append l o dir outs more r h g =
    (rw (load_after-append, open_after-append) g.0, PushesOpen-append o outs more h g.1)

-- Entering a mode.
enter-StepGood :
    (d : Debug) (m : Mode) (p : Program) (s : Stage) (l : LoadState) (o : Bool)
    → l ≡ load_of s
    → (is_some p.state.battery_id ≡ true → o ≡ true)
    → MayGo s p.state (some m)
    → StepGood l o p.output_dir (enter d m p)
unfolding enter ready_for_battery State.clear_test
enter-StepGood d Mode.setup p s l o e f g = ground arith
enter-StepGood d m p s l o e f g = ground arith

-- The rest of a step, after a handler's turn that keeps the invariant.
after-StepGood :
    (d : Debug) (s : Stage) (dir : FilePath) (l : LoadState) (o : Bool) (t : Turn)
    → l ≡ load_of s
    → TurnKeeps s dir o t
    → StepGood l o dir (after d s t)
unfolding after
after-StepGood d s dir l o (p, outs, none) e k =
    ((k.load l ∙ e, record { opened = k.opened; set_up = k.goes }, k.directory), k.pushes)
after-StepGood d s dir l o (p, outs, some m) e k =
    StepGood-append l o dir outs (enter d m p).1 (enter d m p).0 k.pushes (
      subst (λ x. StepGood (load_after l outs) (open_after o outs) x (enter d m p)) k.directory
        (enter-StepGood d m p s (load_after l outs) (open_after o outs) (k.load l ∙ e) k.opened
          k.goes))

-- One receive, of any event in any stage or of the closing of the channel.
pub step-StepGood :
    (d : Debug) (r : Running) (i : World × Option Event) (l : LoadState) (o : Bool) (dir : FilePath)
    → IsGood l o dir r
    → StepGood l o dir (step d r i)
unfolding step
step-StepGood d (running s p) (w, some e) l o dir (load, ready, at) =
    after-StepGood d s dir l o (on_event d w s p e) load
      (subst (λ x. TurnKeeps s x o (on_event d w s p e)) at (on_event-TurnKeeps d w s p o e ready))
step-StepGood d (running s p) (w, none) l o dir (load, ready, at) =
    subst (λ x. StepGood l o x (enter d Mode.shutdown p)) at
      (enter-StepGood d Mode.shutdown p s l o load ready.opened tt)
step-StepGood d stopped i l o dir h = (h, tt)
step-StepGood d unfinished i l o dir h = absurd h

runs-StepGood :
    (d : Debug) (is : List (World × Option Event)) (r : Running) (l : LoadState) (o : Bool)
    (dir : FilePath)
    → IsGood l o dir r
    → StepGood l o dir (runs d r is)
unfolding runs
runs-StepGood d [] r l o dir h = (h, tt)
runs-StepGood d (i ∷ is) r l o dir h =
    let (r', outs) = step d r i in
    let (good, pushes) = step-StepGood d r i l o dir h in
    StepGood-append l o dir outs (runs d r' is).1 (runs d r' is).0 pushes
      (runs-StepGood d is r' (load_after l outs) (open_after o outs) dir good)

pub start-StepGood : (d : Debug) (dir : FilePath) → StepGood LoadState.off false dir (start d dir)
unfolding start enter default_state
start-StepGood d dir = ground arith

-- Whatever events the control task has received since its start, in any order, and whatever opening
-- a file has answered: the last command that it sent asks for the load exactly in `Testing`; a file
-- is open whenever there is a battery ID; with a test set up, ready or running there are an ID, a
-- device name and a first reply; the output directory is the one given; every record was sent while
-- a file was open; once stopped, the load is off and the file closed; and the `todo!()` of `Paused`
-- is never reached.
pub program_event_task-StepGood :
    (d : Debug) (dir : FilePath) (is : List (World × Option Event))
    → StepGood LoadState.off false dir (program_event_task d dir is)
unfolding program_event_task
program_event_task-StepGood d dir is =
    let (good, pushes) = start-StepGood d dir in
    StepGood-append LoadState.off false dir (start d dir).1 (runs d (start d dir).0 is).1
      (runs d (start d dir).0 is).0 pushes (runs-StepGood d is (start d dir).0 _ _ dir good)
