-- ===== src/Pc/Serial/Com/Works.antt =====
-- One round of the serial task on a line that works (battery_tester_pc/src/serial.rs).
use battery_tester.Prelude.{
  String, ◌≤◌, ◌≡◌, refl, sym, ◌∙◌, Bool, true, false, Bool-cases, inl, inr, List, [], ◌∷◌, ◌++◌,
  map, Option, none, some, Result, ok, err, returns, append-nil, list_laws, length, ◌==◌,
  if◌then◌else◌, arith,
}
use battery_tester.Common.{BiCommand, BiReply}
use battery_tester.Wire.{Bytes, Codec, frame}
use battery_tester.Wire.Stream.{frames}
use battery_tester.Pc.Text.{Text}
use battery_tester.Pc.Printer.{buf}
use battery_tester.Pc.Messages.{ComCmd, Event, clear_fault_command}
use battery_tester.Pc.Serial.Decode.{serial_decode}
use battery_tester.Pc.Serial.Write.{
  finished, Progress, serial_write_command, serial_write_command_lem,
}
use battery_tester.Pc.Serial.Com.{
  Port, Answers, Input, command, read, tick, Line, ComTask, connected, Output, print, send, wrote,
  sends, reports, written, reconnect, decoded, handle, round, connect,
}
use battery_tester.Pc.Serial.Com.Intended.{next_port, next_command, writes_of, bytes_on, Works}

pub bytes_on-append :
    (to : Port) (xs ys : List Output) → bytes_on to (xs ++ ys) ≡ bytes_on to xs ++ bytes_on to ys
bytes_on-append to [] ys = refl
bytes_on-append to (wrote p bytes ∷ xs) ys = simp (bytes_on-append to xs ys, list_laws)
bytes_on-append to (print q ∷ xs) ys = bytes_on-append to xs ys
bytes_on-append to (send e ∷ xs) ys = bytes_on-append to xs ys

bytes_on-sent : (to : Port) (es : List Event) → bytes_on to (map send es) ≡ []
bytes_on-sent to [] = refl
bytes_on-sent to (e ∷ es) = bytes_on-sent to es

module _ (commands : Codec BiCommand) where
  -- What a round leaves, from the bytes that it keeps.
  pub record Does (s : Line) (a : Answers) (i : Input) (rest : Bytes) (t : ComTask × List Output)
      : Type 0 where
    pub goes :
        t.0
        ≡ connected (record {
          daq_serial = next_port s.daq_serial a i;
          incoming_buf = rest;
          bi_command = next_command s.bi_command i;
        })
    pub bytes :
        (to : Port)
        → bytes_on to t.1
          ≡ frames commands (if s.daq_serial == to then writes_of s.bi_command i else [])

  nothing : (p to : Port) → frames commands (if p == to then [] else []) ≡ []
  nothing p to = elim (Bool-cases (p == to)) [ inl e ↦ rw e refl | inr e ↦ rw e refl ]

  pub one_frame :
      (p to : Port) (b : BiCommand)
      → bytes_on to (wrote p (frame commands b) ∷ [])
        ≡ frames commands (if p == to then b ∷ [] else [])
  one_frame p to b = elim (Bool-cases (p == to)) [ inl e ↦ rw e refl | inr e ↦ rw e refl ]

  silent :
      (to : Port) (outs : List Output) (o : Output)
      → bytes_on to (o ∷ []) ≡ []
      → bytes_on to (outs ++ o ∷ []) ≡ bytes_on to outs
  silent to outs o h = bytes_on-append to outs (o ∷ []) ∙ rw (h, append-nil)

  report_silent :
      (to : Port) (s : Line) (outs : List Output) (text : Text)
      → bytes_on to outs ≡ []
      → bytes_on to (reports true s outs text).1 ≡ []
  unfolding reports sends
  report_silent to s outs text h =
      silent to (outs ++ print (buf text) ∷ []) (send Event.comm_dc) refl
      ∙ silent to outs (print (buf text)) refl
      ∙ h

  write_works :
      (s : Line) (a : Answers) (b : BiCommand)
      → (a.listening ≡ true)
        × (a.first ≡ ok tt)
        × Progress a.writes
        × (commands.max_size ≤ length a.writes)
      → serial_write_command commands b a.first a.writes ≡ (frame commands b, finished)
  write_works s a b (heard, first, moves, enough) = rw first (
      serial_write_command_lem commands b a.writes moves
        (omega (arith, commands.length-to_slice b, enough)))

  reconnect-Does :
      (s : Line) (name : String) (a : Answers) (outs : List Output)
      → ((to : Port) → bytes_on to outs ≡ [])
      → a.listening ≡ true
      → Does s a
          (command (some (ComCmd.new_device_name name)))
          s.incoming_buf
          (reconnect a.listening s name outs (connect a))
  unfolding reconnect reports sends
  reconnect-Does s name a outs h l = go a.listening (connect a) l refl
    where
      go :
          (listening : Bool) (r : Result Port Text)
          → listening ≡ true
          → connect a ≡ r
          → Does s a
              (command (some (ComCmd.new_device_name name)))
              s.incoming_buf
              (reconnect listening s name outs r)
      go true (ok port) l e = record {
        goes = rw e refl;
        bytes = λ to. h to ∙ sym (nothing s.daq_serial to);
      }
      go true (err t) l e = record {
        goes = rw e refl;
        bytes = λ to. report_silent to s outs _ (h to) ∙ sym (nothing s.daq_serial to);
      }
      go false r l e = absurd (ground arith)

  module _ (replies : Codec BiReply) (debug : Option ComCmd → Text) where
    -- A round without bytes read.
    pub command-Does :
        (s : Line) (a : Answers) (cmd : Option ComCmd)
        → Works commands (a, command cmd)
        → Does s a (command cmd) s.incoming_buf (round commands replies debug s a (command cmd))
    unfolding round handle written
    command-Does s a none h = record { goes = refl; bytes = λ to. sym (nothing s.daq_serial to) }
    command-Does s a (some (ComCmd.bi_command b)) h =
        rw (h.0, write_works s a b h)
          (record { goes = refl; bytes = λ to. one_frame s.daq_serial to b })
    command-Does s a (some (ComCmd.new_device_name n)) h = reconnect-Does s n a _ (λ to. refl) h.0
    command-Does s a (some ComCmd.shutdown) h = absurd h
    command-Does s a (some ComCmd.clear_fault) h =
        rw (h.0, write_works s a clear_fault_command h)
          (record { goes = refl; bytes = λ to. one_frame s.daq_serial to clear_fault_command })

    pub tick-Does :
        (s : Line) (a : Answers)
        → Works commands (a, tick)
        → Does s a tick s.incoming_buf (round commands replies debug s a tick)
    unfolding round written
    tick-Does s a h =
        rw (h.0, write_works s a s.bi_command h)
          (record { goes = refl; bytes = λ to. one_frame s.daq_serial to s.bi_command })

    pub error-Does :
        (s : Line) (a : Answers) (e : Text)
        → Works commands (a, read (err e))
        → Does s a (read (err e)) s.incoming_buf (round commands replies debug s a (read (err e)))
    unfolding round reports sends
    error-Does s a e h =
        rw h.0 (record { goes = refl; bytes = λ to. sym (nothing s.daq_serial to) })

    pub read-Does :
        (s : Line) (a : Answers) (chunk rest : Bytes) (rs : List BiReply)
        → Works commands (a, read (ok chunk))
        → serial_decode replies (s.incoming_buf ++ chunk) ≡ (rs, returns rest)
        → Does s a (read (ok chunk)) rest (round commands replies debug s a (read (ok chunk)))
    unfolding round decoded sends
    read-Does s a chunk rest [] h e =
        rw (h.0, e) (record { goes = refl; bytes = λ to. sym (nothing s.daq_serial to) })
    read-Does s a chunk rest (r ∷ rs) h e =
        rw (h.0, e)
          (record {
            goes = refl;
            bytes = λ to. bytes_on-sent to (map Event.com_reply rs) ∙ sym (nothing s.daq_serial to);
          })
