-- ===== src/Pc/Serial/Com/Session.antt =====
-- The serial task on a line that works, and the board at its other end (battery_tester_pc/src/serial.rs
-- and battery_tester_microbit/src/main.rs, lines 81 to 131).
use battery_tester.Prelude.{
  suc, ◌≡◌, refl, ap, sym, ◌∙◌, List, [], ◌∷◌, ◌++◌, Option, ok, err, Checked, returns, panic,
  length, arith,
}
use battery_tester.Common.{BiCommand, BiReply}
use battery_tester.Wire.{Bytes, Codec}
use battery_tester.Wire.Stream.{frames, frames-append}
use battery_tester.Pc.Text.{Text}
use battery_tester.Pc.Messages.{ComCmd}
use battery_tester.Pc.Serial.Decode.{receive, then_reads}
use battery_tester.Pc.Serial.Com.{
  Port, Answers, Input, command, read, tick, Line, ComTask, connected, Output, round, step,
  serial_com_task,
}
use battery_tester.Pc.Serial.Com.Intended.{
  next_port, next_command, last_port, last_command, intended, bytes_on, Works, AllWork,
}
use battery_tester.Pc.Serial.Com.Reading.{chunks_of, replies_of, serial_com_task-receive}
use battery_tester.Pc.Serial.Com.Works.{
  bytes_on-append, Does, command-Does, tick-Does, error-Does, read-Does,
}
use battery_tester.Microbit.Serial.{serial_in_task, serial_reply_task}
use battery_tester.Microbit.Serial.Commands.{serial_in_task-frames, serial_reply_task-frames}
use battery_tester.Wire.Stream.{length-frames}
use battery_tester.Pc.Serial.Stream.{joined, receive_lem}

module _ (commands : Codec BiCommand) (replies : Codec BiReply) (debug : Option ComCmd → Text) where
  -- What the reads of a round and those behind it give, taken apart.
  record Parts (cs : List Bytes) (rest : Bytes) (r : List BiReply × Checked Bytes) : Type 0 where
    mid : Bytes
    now : List BiReply
    later : List BiReply
    first : r ≡ (now, returns mid)
    second : receive replies cs mid ≡ (later, returns rest)

  first_read :
      (cs : List Bytes) (rest : Bytes) (ms : List BiReply) (r : List BiReply × Checked Bytes)
      → then_reads replies (λ mid. receive replies cs mid) r ≡ (ms, returns rest)
      → Parts cs rest r
  first_read cs rest ms (now, panic) h = absurd (ground arith)
  first_read cs rest ms (now, returns mid) h = go (receive replies cs mid) refl h
    where
      go :
          (t : List BiReply × Checked Bytes)
          → receive replies cs mid ≡ t
          → (let all : List BiReply × Checked Bytes = (now ++ t.0, t.1) in all ≡ (ms, returns rest))
          → Parts cs rest (now, returns mid)
      go (later, panic) e h = absurd (ground arith)
      go (later, returns rest') e h =
          let same : rest' ≡ rest = ground arith in
          record {
            mid = mid;
            now = now;
            later = later;
            first = refl;
            second = e ∙ ap (λ b. (later, returns b)) same;
          }

  -- A round, and what the reads behind it give.
  round-Does :
      (s : Line) (a : Answers) (i : Input) (is : List (Answers × Input)) (rest : Bytes)
      (ms : List BiReply)
      → Works commands (a, i)
      → receive replies (chunks_of ((a, i) ∷ is)) s.incoming_buf ≡ (ms, returns rest)
      → (mid : Bytes) × (later : List BiReply) × Does commands s a i mid
          (round commands replies debug s a i)
        × (receive replies (chunks_of is) mid ≡ (later, returns rest))
  unfolding receive
  round-Does s a (command cmd) is rest ms w h =
      (s.incoming_buf, ms, command-Does commands replies debug s a cmd w, h)
  round-Does s a tick is rest ms w h =
      (s.incoming_buf, ms, tick-Does commands replies debug s a w, h)
  round-Does s a (read (err e)) is rest ms w h =
      (s.incoming_buf, ms, error-Does commands replies debug s a e w, h)
  round-Does s a (read (ok chunk)) is rest ms w h =
      let p = first_read (chunks_of is) rest ms _ h in
      (p.mid, p.later, read-Does commands replies debug s a chunk p.mid p.now w p.first, p.second)

  -- The variables at the end, and the bytes that each device has got.
  pub record Worked (s : Line) (is : List (Answers × Input)) (rest : Bytes)
      (t : ComTask × List Output) : Type 0 where
    pub ends :
        t.0
        ≡ connected (record {
          daq_serial = last_port s.daq_serial is;
          incoming_buf = rest;
          bi_command = last_command s.bi_command is;
        })
    pub bytes :
        (to : Port) → bytes_on to t.1 ≡ frames commands (intended to s.daq_serial s.bi_command is)

  pub all_work :
      (s : Line) (is : List (Answers × Input)) (rest : Bytes) (ms : List BiReply)
      → AllWork commands is
      → receive replies (chunks_of is) s.incoming_buf ≡ (ms, returns rest)
      → Worked s is rest (serial_com_task commands replies debug (connected s) is)
  unfolding serial_com_task step receive
  all_work s [] rest ms w h = record { ends = ground arith; bytes = λ to. refl }
  all_work s ((a, i) ∷ is) rest ms w h =
      let (mid, later, does, r) = round-Does s a i is rest ms w.0 h in
      let next : Line = record {
        daq_serial = next_port s.daq_serial a i;
        incoming_buf = mid;
        bi_command = next_command s.bi_command i;
      } in
      let more = all_work next is rest later w.1 r in
      record {
        ends = rw does.goes more.ends;
        bytes =
            λ to. rw (does.goes, bytes_on-append, does.bytes to, more.bytes to, frames-append) refl;
      }

  -- A connected server with no bytes kept, over rounds in any order in which the control task listens,
  -- no write fails and nothing tells it to shut down; reads and new connections may fail. What the
  -- board writes is read in pieces, cut anywhere. Then the task goes on; it speaks to the device
  -- connected last, repeats the command stored last, and keeps no bytes; the control task has got the
  -- board's replies, each once and in order; and a board at any of the devices gets, each once and in
  -- order, the commands that were meant for that device.
  pub serial_com_task-session :
      (p : Port) (b : BiCommand) (is : List (Answers × Input)) (ms : List BiReply)
      → AllWork commands is
      → joined (chunks_of is) ≡ serial_reply_task replies ms
      → let t =
          serial_com_task commands replies debug
            (connected (record { daq_serial = p; incoming_buf = []; bi_command = b }))
            is in
        (t.0
          ≡ connected (record {
            daq_serial = last_port p is;
            incoming_buf = [];
            bi_command = last_command b is;
          }))
        × (replies_of t.1 ≡ ms)
        × ((to : Port)
            → let line = bytes_on to t.1 in
              serial_in_task commands (suc (length line)) line ≡ returns (intended to p b is, []))
  serial_com_task-session p b is ms w e =
      let s : Line = record { daq_serial = p; incoming_buf = []; bi_command = b } in
      let got = receive_lem replies (chunks_of is) ms (e ∙ serial_reply_task-frames replies ms) in
      let all = all_work s is [] ms w got in
      let kept = serial_com_task-receive commands replies debug s _ is all.ends in
      let same = sym kept ∙ got in
      (
        all.ends,
        ground (arith, same),
        λ to. rw (all.bytes to) (
            serial_in_task-frames commands (intended to p b is)
              (suc (length (frames commands (intended to p b is))))
              (omega (arith, length-frames commands (intended to p b is)))),
      )
