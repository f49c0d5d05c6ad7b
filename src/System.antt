-- ===== src/System.antt =====
-- The server and the firmware together: server.rs, serial.rs and main.rs.
mod Tests
use battery_tester.Prelude.{
  ℕ, suc, ◌≡◌, refl, ap, sym, ◌∙◌, List, [], ◌∷◌, ◌++◌, Option, none, some, Checked, returns,
  length, Bool-cases, inl, inr, ◌==◌, if◌then◌else◌, arith,
}
use mathlib.Core.Path.{subst}
use battery_tester.Common.{BiCommand, BiReply, LoadState}
use battery_tester.Wire.{Bytes, Codec}
use battery_tester.Pc.Text.{Text}
use battery_tester.Pc.Messages.{ComCmd, Event, clear_fault_command, idle_command}
use battery_tester.Pc.Server.Base.{FilePath, Debug, Out, print, to_com, to_file, ipc_shutdown}
use battery_tester.Pc.Server.Base
use battery_tester.Pc.Server.Program.{program_event_task}
use battery_tester.Pc.Server.Program.Idle.{LoadsOff, NoStart, program_event_task-LoadsOff}
use battery_tester.Pc.Serial.Com.{
  Port, Answers, Input, command, read, tick, Line, connected, serial_com_task,
}
use battery_tester.Pc.Serial.Com.Intended.{
  last_port, next_port, next_command, writes_of, intended, bytes_on, AllWork,
}
use battery_tester.Pc.Serial.Com.Reading.{chunks_of}
use battery_tester.Pc.Serial.Com.Closing.{closing, last_words, LastWorks, session-closing}
use battery_tester.Pc.Serial.Stream.{joined}
use battery_tester.Pc.Driving.{com_cmds, taken}
use battery_tester.Microbit.Serial.{serial_in_task, serial_reply_task}
use battery_tester.Microbit.Signal.{Signal}
use battery_tester.Microbit.Pwm.{off, PwmCtrl, SimplePwm, new}
use battery_tester.Microbit.Pwm.Output.{duty_now, trimmed, new-Drives}
use battery_tester.Microbit.Acquire.{Platform}
use battery_tester.Microbit.Acquire
use battery_tester.Microbit.Power.{Board, start}
use battery_tester.Microbit.Power.Delivery.{run}
use battery_tester.Microbit.Power.Safety.{started, start-IsSafe, Reach-IsSafe}
use battery_tester.Microbit.Power.Off.{commands_in, AllOff, run_reaches, run_off}

-- None of some commands for the serial task asks for the load.
abbrev CmdsOff : List ComCmd → Type 0
CmdsOff [] = Unit
CmdsOff (ComCmd.bi_command c ∷ cs) = (c.load ≡ LoadState.off) × CmdsOff cs
CmdsOff (_ ∷ cs) = CmdsOff cs

com_cmds-CmdsOff : (os : List Out) → LoadsOff os → CmdsOff (com_cmds os)
unfolding com_cmds
com_cmds-CmdsOff [] h = tt
com_cmds-CmdsOff (to_com (ComCmd.bi_command c) ∷ os) h = (h.0, com_cmds-CmdsOff os h.1)
com_cmds-CmdsOff (to_com (ComCmd.new_device_name n) ∷ os) h = com_cmds-CmdsOff os h
com_cmds-CmdsOff (to_com ComCmd.shutdown ∷ os) h = com_cmds-CmdsOff os h
com_cmds-CmdsOff (to_com ComCmd.clear_fault ∷ os) h = com_cmds-CmdsOff os h
com_cmds-CmdsOff (print q ∷ os) h = com_cmds-CmdsOff os h
com_cmds-CmdsOff (to_file c ∷ os) h = com_cmds-CmdsOff os h
com_cmds-CmdsOff (ipc_shutdown ∷ os) h = com_cmds-CmdsOff os h

rest-CmdsOff : (lost cs : List ComCmd) → CmdsOff (lost ++ cs) → CmdsOff cs
rest-CmdsOff [] cs h = h
rest-CmdsOff (ComCmd.bi_command c ∷ lost) cs h = rest-CmdsOff lost cs h.1
rest-CmdsOff (ComCmd.new_device_name n ∷ lost) cs h = rest-CmdsOff lost cs h
rest-CmdsOff (ComCmd.shutdown ∷ lost) cs h = rest-CmdsOff lost cs h
rest-CmdsOff (ComCmd.clear_fault ∷ lost) cs h = rest-CmdsOff lost cs h

first-CmdsOff : (cs later : List ComCmd) → CmdsOff (cs ++ later) → CmdsOff cs
first-CmdsOff [] later h = tt
first-CmdsOff (ComCmd.bi_command c ∷ cs) later h = (h.0, first-CmdsOff cs later h.1)
first-CmdsOff (ComCmd.new_device_name n ∷ cs) later h = first-CmdsOff cs later h
first-CmdsOff (ComCmd.shutdown ∷ cs) later h = first-CmdsOff cs later h
first-CmdsOff (ComCmd.clear_fault ∷ cs) later h = first-CmdsOff cs later h

append-AllOff : (xs ys : List BiCommand) → AllOff xs → AllOff ys → AllOff (xs ++ ys)
append-AllOff [] ys h k = k
append-AllOff (x ∷ xs) ys h k = (h.0, append-AllOff xs ys h.1 k)

first-AllOff : (xs ys : List BiCommand) → AllOff (xs ++ ys) → AllOff xs
first-AllOff [] ys h = tt
first-AllOff (x ∷ xs) ys h = (h.0, first-AllOff xs ys h.1)

-- What is written to a device asks for the load only if the command stored at first or one taken does.
one_round :
    (to p : Port) (b : BiCommand) (i : Input)
    → AllOff (writes_of b i)
    → AllOff (if p == to then writes_of b i else [])
one_round to p b i h = elim (Bool-cases (p == to)) [ inl e ↦ rw e h | inr e ↦ rw e tt ]

intended-AllOff :
    (to p : Port) (b : BiCommand) (is : List (Answers × Input))
    → b.load ≡ LoadState.off
    → CmdsOff (taken is)
    → AllOff (intended to p b is)
unfolding taken clear_fault_command
intended-AllOff to p b [] h k = tt
intended-AllOff to p b ((a, command (some (ComCmd.bi_command c))) ∷ is) h k =
    append-AllOff _ _ (one_round to p b (command (some (ComCmd.bi_command c))) (k.0, tt))
      (intended-AllOff to p c is k.0 k.1)
intended-AllOff to p b ((a, command (some (ComCmd.new_device_name n))) ∷ is) h k =
    append-AllOff _ _ (one_round to p b (command (some (ComCmd.new_device_name n))) tt)
      (intended-AllOff to (next_port p a (command (some (ComCmd.new_device_name n)))) b is h k)
intended-AllOff to p b ((a, command (some ComCmd.shutdown)) ∷ is) h k =
    append-AllOff _ _ (one_round to p b (command (some ComCmd.shutdown)) tt)
      (intended-AllOff to p b is h k)
intended-AllOff to p b ((a, command (some ComCmd.clear_fault)) ∷ is) h k =
    append-AllOff _ _ (one_round to p b (command (some ComCmd.clear_fault)) (refl, tt))
      (intended-AllOff to p b is h k)
intended-AllOff to p b ((a, command none) ∷ is) h k =
    append-AllOff _ _ (one_round to p b (command none) tt) (intended-AllOff to p b is h k)
intended-AllOff to p b ((a, read r) ∷ is) h k =
    append-AllOff _ _ (one_round to p b (read r) tt) (intended-AllOff to p b is h k)
intended-AllOff to p b ((a, tick) ∷ is) h k =
    append-AllOff _ _ (one_round to p b tick (h, tt)) (intended-AllOff to p b is h k)

taken-CmdsOff : (is js : List (Answers × Input)) → CmdsOff (taken (is ++ js)) → CmdsOff (taken is)
unfolding taken
taken-CmdsOff [] js h = tt
taken-CmdsOff ((a, command (some (ComCmd.bi_command c))) ∷ is) js h = (h.0, taken-CmdsOff is js h.1)
taken-CmdsOff ((a, command (some (ComCmd.new_device_name n))) ∷ is) js h = taken-CmdsOff is js h
taken-CmdsOff ((a, command (some ComCmd.shutdown)) ∷ is) js h = taken-CmdsOff is js h
taken-CmdsOff ((a, command (some ComCmd.clear_fault)) ∷ is) js h = taken-CmdsOff is js h
taken-CmdsOff ((a, command none) ∷ is) js h = taken-CmdsOff is js h
taken-CmdsOff ((a, read r) ∷ is) js h = taken-CmdsOff is js h
taken-CmdsOff ((a, tick) ∷ is) js h = taken-CmdsOff is js h

last_words-AllOff : (to p : Port) (last : Option Answers) → AllOff (last_words to p last)
unfolding idle_command
last_words-AllOff to p none = tt
last_words-AllOff to p (some a) = elim (Bool-cases (p == to)) [
  | inl e ↦ rw e (refl, tt)
  | inr e ↦ rw e tt
]

same_commands :
    {xs ys : List BiCommand}
    → (let first : Checked (List BiCommand × Bytes) = returns (xs, []) in first ≡ returns (ys, []))
    → xs ≡ ys
same_commands h = ground arith

-- As long as the user does not ask for the start of a test, whatever else the control task
-- receives: let the serial task, connected, with no bytes kept and with a stored command that
-- leaves the load off, take any stretch of the commands that the control task sends, up to the one
-- to shut down or without it, among any other rounds; in these rounds the control task listens and
-- no write fails, reads and new connections may fail, and all that is read together is whole
-- replies of a board, cut anywhere. Let a board at one of the devices, from its start, get the
-- commands that it cuts out of the bytes written to it, all or the first of them, among any other
-- signals and with any answers of the bus. Then its heater is commanded off, and its peripheral
-- holds the duty of off.
pub heater_needs_start :
    (commands : Codec BiCommand) (replies : Codec BiReply) (debug : Option ComCmd → Text)
    (d : Debug) (dir : FilePath) (es : List (Base.World × Option Event))
    → NoStart es
    → (lost later : List ComCmd) (is : List (Answers × Input)) (last : Option Answers)
    → lost ++ (taken (is ++ closing last) ++ later) ≡ com_cmds (program_event_task d dir es).1
    → (port to : Port) (b : BiCommand) → b.load ≡ LoadState.off
    → AllWork commands is
    → LastWorks commands last
    → (ms : List BiReply) → joined (chunks_of is) ≡ serial_reply_task replies ms
    → (p : Platform) (pwm : SimplePwm) (now : ℕ) (bus : p.twim.Bus) (c : PwmCtrl)
    → new p.build pwm now ≡ returns c
    → (signals : List (Acquire.World × Signal)) (pending : List BiCommand)
    → (let line =
          bytes_on to
            (serial_com_task commands replies debug
              (connected (record { daq_serial = port; incoming_buf = []; bi_command = b }))
              (is ++ closing last)).1 in
        serial_in_task commands (suc (length line)) line
        ≡ returns (commands_in signals ++ pending, []))
    → (b' : Board p) (rs : List BiReply) → run p (start p c bus) signals ≡ returns (b', rs)
    → (b'.ctrl.cmd ≡ off) × (duty_now b'.ctrl.pwm ≡ some (trimmed off))
heater_needs_start commands replies debug d dir es n lost later is last sent port to b idle w v ms e
      p pwm now bus c made signals pending got b' rs ran =
    let quiet =
      com_cmds-CmdsOff (program_event_task d dir es).1 (program_event_task-LoadsOff d dir es n) in
    let kept = taken-CmdsOff is (closing last) (
      first-CmdsOff (taken (is ++ closing last)) later (
        rest-CmdsOff lost (taken (is ++ closing last) ++ later)
          (subst CmdsOff (sym sent) quiet))) in
    let end = last_words to (last_port port is) last in
    let cmds : commands_in signals ++ pending ≡ intended to port b is ++ end =
      same_commands (sym got ∙ session-closing commands replies debug port b is ms last w v e to) in
    let all =
      append-AllOff (intended to port b is) end (intended-AllOff to port b is idle kept)
        (last_words-AllOff to (last_port port is) last) in
    let asks = first-AllOff (commands_in signals) pending (subst AllOff (sym cmds) all) in
    let off_at_end =
      run_off p signals (start p c bus) b' rs asks
        ((start-IsSafe p pwm now bus c made).idle_off (unfold start in refl)) ran in
    let safe =
      Reach-IsSafe p pwm now bus b'
        (run_reaches p pwm now bus signals (start p c bus) b' rs (started c made refl) ran) in
    (off_at_end, safe.drives ∙ ap (λ x. some (trimmed x)) off_at_end)
