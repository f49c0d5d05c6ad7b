-- ===== src/Pc/Serial/Com/Rounds.antt =====
-- The serial task from round to round (battery_tester_pc/src/serial.rs, lines 50 to 133).
use battery_tester.Prelude.{
  String, ◌≡◌, refl, ap, sym, ◌∙◌, Bool, true, false, List, [], ◌∷◌, ◌++◌, Option, none, some,
  Result, ok, err, Checked, returns, panic, arith,
}
use battery_tester.Common.{BiCommand, BiReply}
use battery_tester.Wire.{Bytes, Codec}
use battery_tester.Pc.Text.{Text}
use battery_tester.Pc.Messages.{ComCmd}
use battery_tester.Pc.Serial.Write.{Written, finished, writing, failed}
use battery_tester.Pc.Serial.Com.{
  Port, Answers, Input, command, read, tick, Line, ComTask, connecting, connected, returned,
  panicked, in_write, Output, sends, reports, written, last_write, reconnect, decoded, handle,
  round, step, serial_com_task, connect,
}

-- A task that does not wait for its first device.
abbrev pub Begun : ComTask → Type 0
Begun connecting = ⊥
Begun _ = Unit

reports-Begun :
    (l : Bool) (s : Line) (outs : List Output) (text : Text) → Begun (reports l s outs text).0
unfolding reports sends
reports-Begun true s outs text = tt
reports-Begun false s outs text = tt

written-Begun :
    (l : Bool) (s : Line) (what : Text) (outs : List Output) (w : Bytes × Written Text)
    → Begun (written l s what outs w).0
unfolding written
written-Begun l s what outs (bytes, finished) = tt
written-Begun l s what outs (bytes, failed e) = reports-Begun l s _ _
written-Begun l s what outs (bytes, writing) = tt

last_write-Begun :
    (s : Line) (outs : List Output) (w : Bytes × Written Text) → Begun (last_write s outs w).0
unfolding last_write
last_write-Begun s outs (bytes, finished) = tt
last_write-Begun s outs (bytes, failed e) = tt
last_write-Begun s outs (bytes, writing) = tt

reconnect-Begun :
    (l : Bool) (s : Line) (dev_name : String) (outs : List Output) (r : Result Port Text)
    → Begun (reconnect l s dev_name outs r).0
unfolding reconnect
reconnect-Begun l s dev_name outs (ok port) = tt
reconnect-Begun l s dev_name outs (err e) = reports-Begun l s _ _

decoded-Begun : (l : Bool) (s : Line) (r : List BiReply × Checked Bytes) → Begun (decoded l s r).0
unfolding decoded sends
decoded-Begun l s (rs, panic) = tt
decoded-Begun true s ([], returns rest) = tt
decoded-Begun false s ([], returns rest) = tt
decoded-Begun true s (r ∷ rs, returns rest) = tt
decoded-Begun false s (r ∷ rs, returns rest) = tt

module _ (commands : Codec BiCommand) (replies : Codec BiReply) (debug : Option ComCmd → Text) where
  handle-Begun :
      (s : Line) (a : Answers) (outs : List Output) (cmd : Option ComCmd)
      → Begun (handle commands replies debug s a outs cmd).0
  unfolding handle
  handle-Begun s a outs none = tt
  handle-Begun s a outs (some (ComCmd.bi_command c)) = written-Begun a.listening _ _ outs _
  handle-Begun s a outs (some (ComCmd.new_device_name n)) =
      reconnect-Begun a.listening s n outs (connect a)
  handle-Begun s a outs (some ComCmd.shutdown) = last_write-Begun s outs _
  handle-Begun s a outs (some ComCmd.clear_fault) = written-Begun a.listening s _ outs _

  round-Begun : (s : Line) (a : Answers) (i : Input) → Begun (round commands replies debug s a i).0
  unfolding round
  round-Begun s a (command cmd) = handle-Begun s a _ cmd
  round-Begun s a (read (ok chunk)) = decoded-Begun a.listening s _
  round-Begun s a (read (err e)) = reports-Begun a.listening s [] _
  round-Begun s a tick = written-Begun a.listening s _ [] _

  -- The first round of a run that comes to another one, and the run behind it.
  pub record First (s s' : Line) (a : Answers) (i : Input) (is : List (Answers × Input))
      : Type 0 where
    pub next : Line
    pub goes_on : (round commands replies debug s a i).0 ≡ connected next
    pub ends : (serial_com_task commands replies debug (connected next) is).0 ≡ connected s'
    pub outputs :
        (serial_com_task commands replies debug (connected s) ((a, i) ∷ is)).1
        ≡ (round commands replies debug s a i).1
          ++ (serial_com_task commands replies debug (connected next) is).1

  pub rest_of :
      (s' : Line) (is : List (Answers × Input)) (t : ComTask)
      → Begun t
      → (serial_com_task commands replies debug t is).0 ≡ connected s'
      → (next : Line) × (t ≡ connected next)
  unfolding serial_com_task step
  rest_of s' is (connected next) b h = (next, refl)
  rest_of s' [] t b h = absurd (ground arith)
  rest_of s' (i ∷ is) returned b h = rest_of s' is returned b h
  rest_of s' (i ∷ is) panicked b h = rest_of s' is panicked b h
  rest_of s' (i ∷ is) in_write b h = rest_of s' is in_write b h
  rest_of s' (i ∷ is) connecting b h = absurd b

  pub round-First :
      (s s' : Line) (a : Answers) (i : Input) (is : List (Answers × Input))
      → (serial_com_task commands replies debug (connected s) ((a, i) ∷ is)).0 ≡ connected s'
      → First s s' a i is
  unfolding serial_com_task step
  round-First s s' a i is h =
      let (next, e) = rest_of s' is (round commands replies debug s a i).0 (round-Begun s a i) h in
      record {
        next = next;
        goes_on = e;
        ends = ap (λ t. (serial_com_task commands replies debug t is).0) (sym e) ∙ h;
        outputs =
            ap
              (λ t.
                (round commands replies debug s a i).1
                ++ (serial_com_task commands replies debug t is).1)
              e;
      }
