-- ===== src/Pc/Serial/Com/Reports.antt =====
-- Errors of the line, and what the serial task reports of them (battery_tester_pc/src/serial.rs).
use battery_tester.Prelude.{
  ℕ, ◌+◌, String, ◌≡◌, refl, ap, ◌∙◌, Bool, true, false, List, [], ◌∷◌, ◌++◌, map, Option, none,
  some, Result, ok, err, Checked, returns, panic, length, length-append, arith,
}
use battery_tester.Common.{BiCommand, BiReply}
use battery_tester.Wire.{Bytes, Codec}
use battery_tester.Pc.Text.{Text}
use battery_tester.Pc.Messages.{ComCmd, Event, clear_fault_command}
use battery_tester.Pc.Printer.{buf}
use battery_tester.Pc.Serial.Write.{Written, finished, writing, failed, serial_write_command}
use battery_tester.Pc.Serial.Com.{
  Port, Answers, Input, command, read, tick, Line, connected, Output, print, send, wrote, sends,
  reports, written, last_write, reconnect, decoded, handle, round, serial_com_task, connect,
}
use battery_tester.Pc.Serial.Com.Intended.{next_port, next_command, last_port, last_command}
use battery_tester.Pc.Serial.Com.Rounds.{round-First}

-- How often the control task is told that the line is broken.
abbrev pub comm_dcs : List Output → ℕ
comm_dcs [] = 0
comm_dcs (send Event.comm_dc ∷ os) = 1 + comm_dcs os
comm_dcs (_ ∷ os) = comm_dcs os

abbrev write_errors : Bytes × Written Text → List Text
write_errors (bytes, failed e) = e ∷ []
write_errors (bytes, _) = []

abbrev connect_errors : Result Port Text → List Text
connect_errors (ok port) = []
connect_errors (err e) = e ∷ []

module _ (commands : Codec BiCommand) where
  -- The errors that the world answers in one round, with a command that is repeated.
  abbrev pub errors_of : BiCommand → Answers → Input → List Text
  errors_of b a (read (err e)) = e ∷ []
  errors_of b a (read (ok chunk)) = []
  errors_of b a tick = write_errors (serial_write_command commands b a.first a.writes)
  errors_of b a (command (some (ComCmd.bi_command b'))) =
      write_errors (serial_write_command commands b' a.first a.writes)
  errors_of b a (command (some (ComCmd.new_device_name n))) = connect_errors (connect a)
  errors_of b a (command (some ComCmd.clear_fault)) =
      write_errors (serial_write_command commands clear_fault_command a.first a.writes)
  errors_of b a (command (some ComCmd.shutdown)) = []
  errors_of b a (command none) = []

  abbrev pub all_errors : BiCommand → List (Answers × Input) → List Text
  all_errors b [] = []
  all_errors b ((a, i) ∷ is) = errors_of b a i ++ all_errors (next_command b i) is

comm_dcs-append : (xs ys : List Output) → comm_dcs (xs ++ ys) ≡ comm_dcs xs + comm_dcs ys
comm_dcs-append [] ys = omega arith
comm_dcs-append (send e ∷ xs) ys = let h = comm_dcs-append xs ys in ground (arith, h)
comm_dcs-append (print q ∷ xs) ys = comm_dcs-append xs ys
comm_dcs-append (wrote p bytes ∷ xs) ys = comm_dcs-append xs ys

comm_dcs-replies : (rs : List BiReply) → comm_dcs (map send (map Event.com_reply rs)) ≡ 0
comm_dcs-replies [] = refl
comm_dcs-replies (r ∷ rs) = comm_dcs-replies rs

-- What a round that goes on leaves of the variables, and how often it reports.
record Told (p : Port) (b : BiCommand) (s' : Line) (outs : List Output) (n : ℕ) : Type 0 where
  port : s'.daq_serial ≡ p
  stored : s'.bi_command ≡ b
  count : comm_dcs outs ≡ n

reports-Told :
    (l : Bool) (s s' : Line) (outs : List Output) (text : Text)
    → (reports l s outs text).0 ≡ connected s'
    → Told s.daq_serial s.bi_command s' (reports l s outs text).1 (comm_dcs outs + 1)
unfolding reports sends
reports-Told true s s' outs text h = record {
  port = ground arith;
  stored = ground arith;
  count = omega (
    arith,
    comm_dcs-append (outs ++ print (buf text) ∷ []) (send Event.comm_dc ∷ []),
    comm_dcs-append outs (print (buf text) ∷ []),
  );
}
reports-Told false s s' outs text h = absurd (ground arith)

written-Told :
    (l : Bool) (s s' : Line) (what : Text) (outs : List Output) (w : Bytes × Written Text)
    → comm_dcs outs ≡ 0
    → (written l s what outs w).0 ≡ connected s'
    → Told s.daq_serial s.bi_command s' (written l s what outs w).1 (length (write_errors w))
unfolding written
written-Told l s s' what outs (bytes, finished) z h = record {
  port = ground arith;
  stored = ground arith;
  count = omega (arith, comm_dcs-append outs (wrote s.daq_serial bytes ∷ []));
}
written-Told l s s' what outs (bytes, failed e) z h =
    let t = reports-Told l s s' (outs ++ wrote s.daq_serial bytes ∷ []) (what ++ e) h in
    record {
      port = t.port;
      stored = t.stored;
      count = omega (arith, t.count, comm_dcs-append outs (wrote s.daq_serial bytes ∷ []));
    }
written-Told l s s' what outs (bytes, writing) z h = absurd (ground arith)

reconnect-Told :
    (l : Bool) (s s' : Line) (n : String) (a : Answers) (outs : List Output)
    → comm_dcs outs ≡ 0
    → (reconnect l s n outs (connect a)).0 ≡ connected s'
    → Told
        (next_port s.daq_serial a (command (some (ComCmd.new_device_name n))))
        s.bi_command
        s'
        (reconnect l s n outs (connect a)).1
        (length (connect_errors (connect a)))
unfolding reconnect
reconnect-Told l s s' n a outs z h = go (connect a) refl h
  where
    go :
        (r : Result Port Text)
        → connect a ≡ r
        → (reconnect l s n outs r).0 ≡ connected s'
        → Told
            (next_port s.daq_serial a (command (some (ComCmd.new_device_name n))))
            s.bi_command
            s'
            (reconnect l s n outs r).1
            (length (connect_errors r))
    go (ok port) e k = record { port = rw e (ground arith); stored = ground arith; count = z }
    go (err t) e k =
        let told = reports-Told l s s' outs _ k in
        record { port = rw e told.port; stored = told.stored; count = omega (arith, told.count, z) }

decoded-Told :
    (l : Bool) (s s' : Line) (r : List BiReply × Checked Bytes)
    → (decoded l s r).0 ≡ connected s'
    → Told s.daq_serial s.bi_command s' (decoded l s r).1 0
unfolding decoded sends
decoded-Told l s s' (rs, panic) h = absurd (ground arith)
decoded-Told true s s' ([], returns rest) h = record {
  port = ground arith;
  stored = ground arith;
  count = refl;
}
decoded-Told false s s' ([], returns rest) h = record {
  port = ground arith;
  stored = ground arith;
  count = refl;
}
decoded-Told true s s' (r ∷ rs, returns rest) h = record {
  port = ground arith;
  stored = ground arith;
  count = comm_dcs-replies rs;
}
decoded-Told false s s' (r ∷ rs, returns rest) h = absurd (ground arith)

module _ (commands : Codec BiCommand) (replies : Codec BiReply) (debug : Option ComCmd → Text) where
  handle-Told :
      (s s' : Line) (a : Answers) (outs : List Output) (cmd : Option ComCmd)
      → comm_dcs outs ≡ 0
      → (handle commands replies debug s a outs cmd).0 ≡ connected s'
      → Told
          (next_port s.daq_serial a (command cmd))
          (next_command s.bi_command (command cmd))
          s'
          (handle commands replies debug s a outs cmd).1
          (length (errors_of commands s.bi_command a (command cmd)))
  unfolding handle last_write
  handle-Told s s' a outs none z h = record {
    port = ground arith;
    stored = ground arith;
    count = z;
  }
  handle-Told s s' a outs (some (ComCmd.bi_command b)) z h =
      written-Told a.listening _ s' _ outs _ z h
  handle-Told s s' a outs (some (ComCmd.new_device_name n)) z h =
      reconnect-Told a.listening s s' n a outs z h
  handle-Told s s' a outs (some ComCmd.clear_fault) z h = written-Told a.listening s s' _ outs _ z h
  handle-Told s s' a outs (some ComCmd.shutdown) z h = absurd (ground arith)

  round-Told :
      (s s' : Line) (a : Answers) (i : Input)
      → (round commands replies debug s a i).0 ≡ connected s'
      → Told
          (next_port s.daq_serial a i)
          (next_command s.bi_command i)
          s'
          (round commands replies debug s a i).1
          (length (errors_of commands s.bi_command a i))
  unfolding round
  round-Told s s' a (read (ok chunk)) h = decoded-Told a.listening s s' _ h
  round-Told s s' a (read (err e)) h = reports-Told a.listening s s' [] _ h
  round-Told s s' a tick h = written-Told a.listening s s' _ [] _ refl h
  round-Told s s' a (command cmd) h = handle-Told s s' a _ cmd refl h

  pub serial_com_task-comm_dc :
      (s s' : Line) (is : List (Answers × Input))
      → (serial_com_task commands replies debug (connected s) is).0 ≡ connected s'
      → (comm_dcs (serial_com_task commands replies debug (connected s) is).1
          ≡ length (all_errors commands s.bi_command is))
        × (s'.bi_command ≡ last_command s.bi_command is)
        × (s'.daq_serial ≡ last_port s.daq_serial is)
  unfolding serial_com_task
  serial_com_task-comm_dc s s' [] h = (refl, ground arith, ground arith)
  serial_com_task-comm_dc s s' ((a, i) ∷ is) h =
      let f = round-First commands replies debug s s' a i is h in
      let told = round-Told s f.next a i f.goes_on in
      let (count, stored, port) = serial_com_task-comm_dc f.next s' is f.ends in
      let total =
        length-append (errors_of commands s.bi_command a i)
          (all_errors commands (next_command s.bi_command i) is) in
      (
        ap comm_dcs f.outputs
            ∙ comm_dcs-append (round commands replies debug s a i).1
                (serial_com_task commands replies debug (connected f.next) is).1
            ∙ omega (
              arith,
              told.count,
              ap (λ b. length (all_errors commands b is)) told.stored,
              count,
              total,
            ),
        stored ∙ ap (λ b. last_command b is) told.stored,
        port ∙ ap (λ p. last_port p is) told.port,
      )
