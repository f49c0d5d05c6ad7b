-- ===== src/Pc/Serial/Com/Reading.antt =====
-- What the serial task makes of the bytes that it reads (battery_tester_pc/src/serial.rs).
use battery_tester.Prelude.{
  String, ◌≡◌, refl, ap, sym, ◌∙◌, Bool, true, false, List, [], ◌∷◌, ◌++◌, map, Option, none, some,
  Result, ok, err, Checked, returns, panic, append-nil, arith,
}
use mathlib.Core.Path.{ap₂}
use battery_tester.Common.{BiCommand, BiReply}
use battery_tester.Wire.{Bytes, Codec}
use battery_tester.Pc.Text.{Text}
use battery_tester.Pc.Printer.{buf}
use battery_tester.Pc.Messages.{ComCmd, Event}
use battery_tester.Pc.Serial.Decode.{serial_decode, receive, then_reads}
use battery_tester.Pc.Serial.Write.{Written, finished, writing, failed}
use battery_tester.Pc.Serial.Com.Rounds.{round-First}
use battery_tester.Pc.Serial.Com.{
  Port, Answers, Input, command, read, tick, Line, connected, Output, print, send, wrote, sends,
  reports, written, last_write, reconnect, decoded, handle, round, serial_com_task, connect,
}

-- The replies that are sent to the control task.
abbrev pub replies_of : List Output → List BiReply
replies_of [] = []
replies_of (send (Event.com_reply r) ∷ os) = r ∷ replies_of os
replies_of (_ ∷ os) = replies_of os

-- The bytes that are read.
abbrev pub chunks_of : List (Answers × Input) → List Bytes
chunks_of [] = []
chunks_of ((a, read (ok chunk)) ∷ is) = chunk ∷ chunks_of is
chunks_of ((a, _) ∷ is) = chunks_of is

pub replies_of-append :
    (xs ys : List Output) → replies_of (xs ++ ys) ≡ replies_of xs ++ replies_of ys
replies_of-append [] ys = refl
replies_of-append (send (Event.com_reply r) ∷ xs) ys = ap (λ t. r ∷ t) (replies_of-append xs ys)
replies_of-append (send e ∷ xs) ys = replies_of-append xs ys
replies_of-append (print q ∷ xs) ys = replies_of-append xs ys
replies_of-append (wrote p b ∷ xs) ys = replies_of-append xs ys

no_reply :
    (outs : List Output) (o : Output)
    → replies_of (o ∷ []) ≡ []
    → replies_of (outs ++ o ∷ []) ≡ replies_of outs
no_reply outs o h = replies_of-append outs (o ∷ []) ∙ rw (h, append-nil)

replies_of-sent : (rs : List BiReply) → replies_of (map send (map Event.com_reply rs)) ≡ rs
replies_of-sent [] = refl
replies_of-sent (r ∷ rs) = ap (λ t. r ∷ t) (replies_of-sent rs)

decoded_lem :
    (l : Bool) (s s' : Line) (r : List BiReply × Checked Bytes)
    → (decoded l s r).0 ≡ connected s'
    → r ≡ (replies_of (decoded l s r).1, returns s'.incoming_buf)
unfolding decoded sends
decoded_lem l s s' (rs, panic) h = absurd (ground arith)
decoded_lem true s s' ([], returns rest) h = ground arith
decoded_lem false s s' ([], returns rest) h = ground arith
decoded_lem true s s' (r ∷ rs, returns rest) h = rw (replies_of-sent rs) (ground arith)
decoded_lem false s s' (r ∷ rs, returns rest) h = absurd (ground arith)

-- An error that is reported changes no variable and sends no reply.
reports_lem :
    (l : Bool) (s s' : Line) (outs : List Output) (text : Text)
    → (reports l s outs text).0 ≡ connected s'
    → (s ≡ s') × (replies_of (reports l s outs text).1 ≡ replies_of outs)
unfolding reports sends
reports_lem true s s' outs text h = (
  ground arith,
  no_reply (outs ++ print (buf text) ∷ []) (send Event.comm_dc) refl
      ∙ no_reply outs (print (buf text)) refl,
)
reports_lem false s s' outs text h = absurd (ground arith)

-- Nor does a write.
written_lem :
    (l : Bool) (s s' : Line) (what : Text) (outs : List Output) (w : Bytes × Written Text)
    → (written l s what outs w).0 ≡ connected s'
    → (s ≡ s') × (replies_of (written l s what outs w).1 ≡ replies_of outs)
unfolding written
written_lem l s s' what outs (bytes, finished) h =
    (ground arith, no_reply outs (wrote s.daq_serial bytes) refl)
written_lem l s s' what outs (bytes, failed e) h =
    let (same, none_sent) =
      reports_lem l s s' (outs ++ wrote s.daq_serial bytes ∷ []) (what ++ e) h in
    (same, none_sent ∙ no_reply outs (wrote s.daq_serial bytes) refl)
written_lem l s s' what outs (bytes, writing) h = absurd (ground arith)

reconnect_lem :
    (l : Bool) (s s' : Line) (dev_name : String) (outs : List Output) (r : Result Port Text)
    → (reconnect l s dev_name outs r).0 ≡ connected s'
    → (s.incoming_buf ≡ s'.incoming_buf)
      × (replies_of (reconnect l s dev_name outs r).1 ≡ replies_of outs)
unfolding reconnect
reconnect_lem l s s' dev_name outs (ok port) h = (ground arith, refl)
reconnect_lem l s s' dev_name outs (err e) h =
    let (same, none_sent) = reports_lem l s s' outs _ h in
    (ap (λ t. t.incoming_buf) same, none_sent)

-- What a round leaves to the reads behind it, from the bytes kept and the replies sent.
abbrev pub onward : Codec BiReply → List Bytes → Bytes → List BiReply → List BiReply × Checked Bytes
onward c chunks buf rs = let later = receive c chunks buf in (rs ++ later.0, later.1)

-- A round that reads nothing.
unread :
    (c : Codec BiReply) (chunks : List Bytes) (buf buf' : Bytes) (rs : List BiReply)
    → (buf ≡ buf') × (rs ≡ [])
    → receive c chunks buf ≡ onward c chunks buf' rs
unread c chunks buf buf' rs (same, none_sent) = ap₂ (onward c chunks) same (sym none_sent)

module _ (commands : Codec BiCommand) (replies : Codec BiReply) (debug : Option ComCmd → Text) where
  -- A command leaves the bytes received as they are.
  handle_lem :
      (s s' : Line) (a : Answers) (outs : List Output) (cmd : Option ComCmd)
      → (handle commands replies debug s a outs cmd).0 ≡ connected s'
      → (s.incoming_buf ≡ s'.incoming_buf)
        × (replies_of (handle commands replies debug s a outs cmd).1 ≡ replies_of outs)
  unfolding handle last_write
  handle_lem s s' a outs none h = (ground arith, refl)
  handle_lem s s' a outs (some (ComCmd.bi_command c)) h =
      let (same, none_sent) = written_lem a.listening _ s' _ outs _ h in
      (ap (λ t. t.incoming_buf) same, none_sent)
  handle_lem s s' a outs (some (ComCmd.new_device_name n)) h =
      reconnect_lem a.listening s s' n outs (connect a) h
  handle_lem s s' a outs (some ComCmd.shutdown) h = absurd (ground arith)
  handle_lem s s' a outs (some ComCmd.clear_fault) h =
      let (same, none_sent) = written_lem a.listening s s' _ outs _ h in
      (ap (λ t. t.incoming_buf) same, none_sent)

  -- The bytes that a round reads, the bytes that it keeps, and the replies that it sends.
  round_lem :
      (s s' : Line) (a : Answers) (i : Input) (is : List (Answers × Input))
      → (round commands replies debug s a i).0 ≡ connected s'
      → receive replies (chunks_of ((a, i) ∷ is)) s.incoming_buf
        ≡ onward replies
            (chunks_of is)
            s'.incoming_buf
            (replies_of (round commands replies debug s a i).1)
  unfolding round receive
  round_lem s s' a (command cmd) is h = unread _ _ _ _ _ (handle_lem s s' a _ cmd h)
  round_lem s s' a (read (ok chunk)) is h =
      ap (then_reads replies (λ rest. receive replies (chunks_of is) rest))
        (decoded_lem a.listening s s' (serial_decode replies (s.incoming_buf ++ chunk)) h)
  round_lem s s' a (read (err e)) is h =
      let (same, none_sent) = reports_lem a.listening s s' [] _ h in
      unread _ _ _ _ _ (ap (λ t. t.incoming_buf) same, none_sent)
  round_lem s s' a tick is h =
      let (same, none_sent) = written_lem a.listening s s' _ [] _ h in
      unread _ _ _ _ _ (ap (λ t. t.incoming_buf) same, none_sent)

  -- However reads, commands, ticks, reconnections and failures of them come between one another: as
  -- long as the task goes on, the replies that it has sent and the bytes that it keeps are exactly
  -- those of the reads alone, one after another.
  pub serial_com_task-receive :
      (s s' : Line) (is : List (Answers × Input))
      → (serial_com_task commands replies debug (connected s) is).0 ≡ connected s'
      → receive replies (chunks_of is) s.incoming_buf ≡ (
        replies_of (serial_com_task commands replies debug (connected s) is).1,
        returns s'.incoming_buf,
      )
  unfolding serial_com_task receive
  serial_com_task-receive s s' [] h = ground arith
  serial_com_task-receive s s' ((a, i) ∷ is) h =
      let f = round-First commands replies debug s s' a i is h in
      let outs = (round commands replies debug s a i).1 in
      let more = (serial_com_task commands replies debug (connected f.next) is).1 in
      round_lem s f.next a i is f.goes_on
      ∙ ap (λ later. (replies_of outs ++ later.0, later.1))
          (serial_com_task-receive f.next s' is f.ends)
      ∙ ap (λ rs. (rs, returns s'.incoming_buf))
          (sym (ap replies_of f.outputs ∙ replies_of-append outs more))
