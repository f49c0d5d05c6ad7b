-- ===== src/Pc/Server/Program/Invariant.antt =====
-- The invariant of the control task between two events (server.rs, lines 72 to 480).
use battery_tester.Prelude.{◌≡◌, Bool, true, false, List, [], ◌∷◌, Option, none, some}
use battery_tester.Common.{LoadState}
use battery_tester.Pc.State.{Mode, TestState, is_some, ready_for_battery}
use battery_tester.Pc.Messages.{ComCmd, FileCmd}
use battery_tester.Pc.Server.Base.{FilePath, Out, to_com, to_file, Turn}
use battery_tester.Pc.Server.Program.{
  Stage, in_setup, in_battery, in_usr_start, in_testing, in_fault,
}

-- The load that the last command sent asks for.
abbrev pub load_after : LoadState → List Out → LoadState
load_after l [] = l
load_after l (to_com (ComCmd.bi_command c) ∷ os) = load_after c.load os
load_after l (_ ∷ os) = load_after l os

-- Whether the file task has a file open after the file commands sent.
abbrev pub open_after : Bool → List Out → Bool
open_after o [] = o
open_after o (to_file (FileCmd.new_file f) ∷ os) = open_after true os
open_after o (to_file FileCmd.close_file ∷ os) = open_after false os
open_after o (to_file FileCmd.shutdown ∷ os) = open_after false os
open_after o (_ ∷ os) = open_after o os

-- Every record is sent while a file is open.
abbrev pub PushesOpen : Bool → List Out → Type 0
PushesOpen o [] = Unit
PushesOpen o (to_file (FileCmd.push data') ∷ os) = (o ≡ true) × PushesOpen o os
PushesOpen o (to_file (FileCmd.new_file f) ∷ os) = PushesOpen true os
PushesOpen o (to_file FileCmd.close_file ∷ os) = PushesOpen false os
PushesOpen o (to_file FileCmd.shutdown ∷ os) = PushesOpen false os
PushesOpen o (_ ∷ os) = PushesOpen o os

-- The loops in which a test is set up or running.
abbrev pub needs_test : Stage → Bool
needs_test in_setup = false
needs_test in_fault = false
needs_test _ = true

-- The load that a stage has asked for.
abbrev pub load_of : Stage → LoadState
load_of in_testing = LoadState.on
load_of _ = LoadState.off

-- A file is open whenever there is a battery ID; and where a test is set up, there is an ID, a
-- device and a first reply.
pub record IsReady (s : Stage) (o : Bool) (t : TestState) : Type 0 where
  pub opened : is_some t.battery_id ≡ true → o ≡ true
  pub set_up : needs_test s ≡ true → ready_for_battery t ≡ true

-- The modes to which a handler may go, and what they need of the state.
abbrev pub MayGo : Stage → TestState → Option Mode → Type 0
MayGo s t none = needs_test s ≡ true → ready_for_battery t ≡ true
MayGo s t (some Mode.wait_for_battery) = ready_for_battery t ≡ true
MayGo s t (some Mode.wait_for_usr_start) = (s ≡ in_battery) × (ready_for_battery t ≡ true)
MayGo s t (some Mode.testing) = (s ≡ in_usr_start) × (ready_for_battery t ≡ true)
MayGo s t (some Mode.paused) = ⊥
MayGo s t (some _) = Unit

-- What one turn of a handler keeps, from the output directory and an open file before.
pub record TurnKeeps (s : Stage) (dir : FilePath) (o : Bool) (t : Turn) : Type 0 where
  pub load : (l : LoadState) → load_after l t.1 ≡ l
  pub pushes : PushesOpen o t.1
  pub opened : is_some t.0.state.battery_id ≡ true → open_after o t.1 ≡ true
  pub goes : MayGo s t.0.state t.2
  pub directory : t.0.output_dir ≡ dir
