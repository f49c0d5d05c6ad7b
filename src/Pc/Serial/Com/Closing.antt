-- ===== src/Pc/Serial/Com/Closing.antt =====
-- A session of the serial task that may end with the word to shut down (battery_tester_pc/src/serial.rs).
use battery_tester.Prelude.{
  ◌≡◌, refl, ap, sym, ◌∙◌, ◌≤◌, List, [], ◌∷◌, ◌++◌, Option, none, some, ok, returns, length, suc,
  append_assoc, ◌==◌, if◌then◌else◌, arith,
}
use battery_tester.Common.{BiCommand, BiReply}
use battery_tester.Wire.{Codec}
use battery_tester.Wire.Stream.{frames, frames-append, length-frames}
use battery_tester.Pc.Text.{Text}
use battery_tester.Pc.Messages.{ComCmd, idle_command}
use battery_tester.Pc.Serial.Write.{Progress, serial_write_command_lem}
use battery_tester.Pc.Serial.Stream.{joined, receive_lem}
use battery_tester.Pc.Serial.Com.{
  Port, Answers, Input, command, Line, connected, handle, last_write, round, step, ComTask,
  serial_com_task,
}
use battery_tester.Pc.Serial.Com.Intended.{intended, bytes_on, last_port, AllWork}
use battery_tester.Pc.Serial.Com.Reading.{chunks_of}
use battery_tester.Pc.Serial.Com.Works.{bytes_on-append, one_frame}
use battery_tester.Pc.Serial.Com.Session.{all_work}
use battery_tester.Microbit.Serial.{serial_in_task, serial_reply_task}
use battery_tester.Microbit.Serial.Commands.{serial_in_task-frames, serial_reply_task-frames}

-- The word to shut down, if it comes.
abbrev pub closing : Option Answers → List (Answers × Input)
closing none = []
closing (some a) = (a, command (some ComCmd.shutdown)) ∷ []

-- What is written for it, to the device of that time.
abbrev pub last_words : Port → Port → Option Answers → List BiCommand
last_words to p none = []
last_words to p (some a) = if p == to then idle_command ∷ [] else []

-- No write fails or takes nothing, and enough of them are answered.
abbrev pub LastWorks : {A : Type 0} → Codec A → Option Answers → Type 0
LastWorks c none = Unit
LastWorks c (some a) = (a.first ≡ ok tt) × Progress a.writes × (c.max_size ≤ length a.writes)

module _ (commands : Codec BiCommand) (replies : Codec BiReply) (debug : Option ComCmd → Text) where
  open commands use {length-to_slice}

  -- The inputs of a task, in two parts.
  outputs-append :
      (t : ComTask) (is js : List (Answers × Input))
      → (serial_com_task commands replies debug t (is ++ js)).1
        ≡ (serial_com_task commands replies debug t is).1
          ++ (serial_com_task commands replies debug
              (serial_com_task commands replies debug t is).0
              js).1
  unfolding serial_com_task
  outputs-append t [] js = refl
  outputs-append t (i ∷ is) js =
      let outs = (step commands replies debug t i).1 in
      let t' = (step commands replies debug t i).0 in
      ap (λ x. outs ++ x) (outputs-append t' is js)
      ∙ sym (append_assoc outs (serial_com_task commands replies debug t' is).1 _)

  closing_bytes :
      (s : Line) (last : Option Answers) (to : Port)
      → LastWorks commands last
      → bytes_on to (serial_com_task commands replies debug (connected s) (closing last)).1
        ≡ frames commands (last_words to s.daq_serial last)
  unfolding serial_com_task step round handle last_write
  closing_bytes s none to h = refl
  closing_bytes s (some a) to h =
      let written =
        serial_write_command_lem commands idle_command a.writes h.1
          (omega (arith, length-to_slice idle_command, h.2)) in
      rw (h.0, written) (one_frame commands s.daq_serial to idle_command)

  -- As in a session without an end, a board at any of the devices gets, each once and in order, the
  -- commands that were meant for that device, and the one at the last device gets the idle command
  -- when the task is told to shut down.
  pub session-closing :
      (p : Port) (b : BiCommand) (is : List (Answers × Input)) (ms : List BiReply)
      (last : Option Answers)
      → AllWork commands is
      → LastWorks commands last
      → joined (chunks_of is) ≡ serial_reply_task replies ms
      → (to : Port)
      → let line =
          bytes_on to
            (serial_com_task commands replies debug
              (connected (record { daq_serial = p; incoming_buf = []; bi_command = b }))
              (is ++ closing last)).1 in
        serial_in_task commands (suc (length line)) line
        ≡ returns (intended to p b is ++ last_words to (last_port p is) last, [])
  session-closing p b is ms last w v e to =
      let s : Line = record { daq_serial = p; incoming_buf = []; bi_command = b } in
      let got = receive_lem replies (chunks_of is) ms (e ∙ serial_reply_task-frames replies ms) in
      let all = all_work commands replies debug s is [] ms w got in
      let cmds = intended to p b is ++ last_words to (last_port p is) last in
      let line : bytes_on to
            (serial_com_task commands replies debug (connected s) (is ++ closing last)).1
          ≡ frames commands cmds =
        rw (outputs-append, bytes_on-append, all.ends, all.bytes to, closing_bytes _ last to v)
          (sym
            (frames-append commands (intended to p b is) (last_words to (last_port p is) last))) in
      rw line (
        serial_in_task-frames commands cmds (suc (length (frames commands cmds)))
          (omega (arith, length-frames commands cmds)))
