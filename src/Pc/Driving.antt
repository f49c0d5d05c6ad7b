-- ===== src/Pc/Driving.antt =====
-- The control task and the serial task together: server.rs against serial.rs.
use battery_tester.Prelude.{
  ◌≡◌, refl, ap, sym, ◌∙◌, ◌≢◌, Bool, false, List, [], ◌∷◌, Option, none, some, Result, ok, err,
  arith,
}
use battery_tester.Common.{BiCommand, BiReply, LoadState, default_command}
use battery_tester.Wire.{Codec}
use battery_tester.Pc.Text.{Text}
use battery_tester.Pc.Messages.{ComCmd, Event}
use battery_tester.Pc.Server.Base.{
  FilePath, Debug, World, Out, print, to_com, to_file, ipc_shutdown, Program,
}
use battery_tester.Pc.Server.Program.{
  in_setup, in_battery, in_usr_start, in_testing, in_fault, Running, running, stopped, unfinished,
  program_event_task,
}
use battery_tester.Pc.Server.Program.Invariant.{load_after, open_after}
use battery_tester.Pc.Server.Program.Runs.{IsGood, program_event_task-StepGood}
use battery_tester.Pc.Serial.Com.{
  Port, Answers, Input, command, read, tick, Line, connecting, connected, returned, connect,
  first_connection, await_device, step, serial_com_task,
}
use battery_tester.Pc.Serial.Com.Intended.{last_command}
use battery_tester.Pc.Serial.Com.Rounds.{rest_of}
use battery_tester.Pc.Serial.Com.Reports.{serial_com_task-comm_dc}

-- What the control task puts into the channel of the serial task.
unfoldable pub com_cmds : List Out → List ComCmd
com_cmds [] = []
com_cmds (to_com c ∷ os) = c ∷ com_cmds os
com_cmds (print p ∷ os) = com_cmds os
com_cmds (to_file c ∷ os) = com_cmds os
com_cmds (ipc_shutdown ∷ os) = com_cmds os

-- What the serial task takes out of it.
unfoldable pub taken : List (Answers × Input) → List ComCmd
taken [] = []
taken ((a, command (some c)) ∷ is) = c ∷ taken is
taken ((a, command none) ∷ is) = taken is
taken ((a, read r) ∷ is) = taken is
taken ((a, tick) ∷ is) = taken is

-- The load that the last of some commands asks for.
abbrev load_cmds : LoadState → List ComCmd → LoadState
load_cmds l [] = l
load_cmds l (ComCmd.bi_command c ∷ cs) = load_cmds c.load cs
load_cmds l (_ ∷ cs) = load_cmds l cs

load_after_lem : (l : LoadState) (os : List Out) → load_after l os ≡ load_cmds l (com_cmds os)
unfolding com_cmds
load_after_lem l [] = refl
load_after_lem l (to_com (ComCmd.bi_command c) ∷ os) = load_after_lem c.load os
load_after_lem l (to_com (ComCmd.new_device_name n) ∷ os) = load_after_lem l os
load_after_lem l (to_com ComCmd.shutdown ∷ os) = load_after_lem l os
load_after_lem l (to_com ComCmd.clear_fault ∷ os) = load_after_lem l os
load_after_lem l (print p ∷ os) = load_after_lem l os
load_after_lem l (to_file c ∷ os) = load_after_lem l os
load_after_lem l (ipc_shutdown ∷ os) = load_after_lem l os

last_command_lem :
    (b : BiCommand) (is : List (Answers × Input))
    → (last_command b is).load ≡ load_cmds b.load (taken is)
unfolding taken
last_command_lem b [] = refl
last_command_lem b ((a, command (some (ComCmd.bi_command c))) ∷ is) = last_command_lem c is
last_command_lem b ((a, command (some (ComCmd.new_device_name n))) ∷ is) = last_command_lem b is
last_command_lem b ((a, command (some ComCmd.shutdown)) ∷ is) = last_command_lem b is
last_command_lem b ((a, command (some ComCmd.clear_fault)) ∷ is) = last_command_lem b is
last_command_lem b ((a, command none) ∷ is) = last_command_lem b is
last_command_lem b ((a, read r) ∷ is) = last_command_lem b is
last_command_lem b ((a, tick) ∷ is) = last_command_lem b is

-- A load that is on although it was off before is on whatever it was.
on_anyway :
    (l : LoadState) (cs : List ComCmd)
    → load_cmds LoadState.off cs ≡ LoadState.on
    → load_cmds l cs ≡ LoadState.on
on_anyway l [] h = absurd (ground arith)
on_anyway l (ComCmd.bi_command c ∷ cs) h = h
on_anyway l (ComCmd.new_device_name n ∷ cs) h = on_anyway l cs h
on_anyway l (ComCmd.shutdown ∷ cs) h = on_anyway l cs h
on_anyway l (ComCmd.clear_fault ∷ cs) h = on_anyway l cs h

-- Whenever the load last asked for is on, the control task is in its test.
good_on :
    (l : LoadState) (o : Bool) (dir : FilePath) (r : Running)
    → l ≡ LoadState.on
    → IsGood l o dir r
    → (p : Program) × (r ≡ running in_testing p)
good_on l o dir (running in_testing p) e g = (p, refl)
good_on l o dir (running in_setup p) e g = absurd (let off = g.0 in ground arith)
good_on l o dir (running in_battery p) e g = absurd (let off = g.0 in ground arith)
good_on l o dir (running in_usr_start p) e g = absurd (let off = g.0 in ground arith)
good_on l o dir (running in_fault p) e g = absurd (let off = g.0 in ground arith)
good_on l o dir stopped e g = absurd (let off = g.0 in ground arith)
good_on l o dir unfinished e g = absurd g

module _ (commands : Codec BiCommand) (replies : Codec BiReply) (debug : Option ComCmd → Text) where
  ends_returned :
      (s' : Line) (is : List (Answers × Input))
      → (serial_com_task commands replies debug returned is).0 ≢ connected s'
  ends_returned s' is h =
      let (next, e) = rest_of commands replies debug s' is returned tt h in
      let other : returned ≡ connected next = e in ground arith

  -- Once the serial task is connected, it repeats a load only if the last command taken asks for one,
  -- among those before the connection too.
  taken_on :
      (l : LoadState) (s' : Line) (is : List (Answers × Input))
      → (serial_com_task commands replies debug connecting is).0 ≡ connected s'
      → s'.bi_command.load ≡ LoadState.on
      → load_cmds l (taken is) ≡ LoadState.on
  unfolding serial_com_task step await_device taken first_connection default_command
  taken_on l s' [] h on = absurd (ground arith)
  taken_on l s' ((a, command (some (ComCmd.new_device_name n))) ∷ is) h on =
      first (connect a) (λ k. taken_on l s' is k on) h
    where
      first :
          (r : Result Port Text)
          → ((serial_com_task commands replies debug connecting is).0 ≡ connected s'
              → load_cmds l (taken is) ≡ LoadState.on)
          → (serial_com_task commands replies debug (first_connection n r).0 is).0 ≡ connected s'
          → load_cmds l (taken is) ≡ LoadState.on
      first (ok port) again k =
          let (count, stored, at) = serial_com_task-comm_dc commands replies debug _ s' is k in
          on_anyway l (taken is)
            (sym (last_command_lem default_command is) ∙ sym (ap (λ b. b.load) stored) ∙ on)
      first (err e) again k = again k
  taken_on l s' ((a, command (some (ComCmd.bi_command c))) ∷ is) h on = taken_on c.load s' is h on
  taken_on l s' ((a, command (some ComCmd.shutdown)) ∷ is) h on = absurd (ends_returned s' is h)
  taken_on l s' ((a, command (some ComCmd.clear_fault)) ∷ is) h on = taken_on l s' is h on
  taken_on l s' ((a, command none) ∷ is) h on = absurd (ends_returned s' is h)
  taken_on l s' ((a, read r) ∷ is) h on = taken_on l s' is h on
  taken_on l s' ((a, tick) ∷ is) h on = taken_on l s' is h on

  -- Whatever the control task receives from its start and whatever answers and failures the serial
  -- task meets from its own: when it has taken every command that the control task has sent, in
  -- order, and is connected with a command to repeat that turns the load on, the control task is in
  -- `Testing`.
  pub load_in_testing :
      (d : Debug) (dir : FilePath) (es : List (World × Option Event)) (is : List (Answers × Input))
      (s' : Line)
      → taken is ≡ com_cmds (program_event_task d dir es).1
      → (serial_com_task commands replies debug connecting is).0 ≡ connected s'
      → s'.bi_command.load ≡ LoadState.on
      → (p : Program) × ((program_event_task d dir es).0 ≡ running in_testing p)
  load_in_testing d dir es is s' e h on =
      let t = program_event_task d dir es in
      let l =
        load_after_lem LoadState.off t.1
        ∙ ap (load_cmds LoadState.off) (sym e)
        ∙ taken_on LoadState.off s' is h on in
      good_on (load_after LoadState.off t.1) (open_after false t.1) dir t.0 l
        (program_event_task-StepGood d dir es).0
