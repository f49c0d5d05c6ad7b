-- ===== src/Pc/Serial/Com/Tests.antt =====
-- The serial task at concrete rounds: a command, half a reply, a failed connection, a tick, the rest
-- of the reply, an error of a read, and a cleared fault.
use battery_tester.Prelude.{
  ◌≡◌, refl, suc, true, List, [], ◌∷◌, Option, none, some, ok, err, returns, length, arith,
}
use battery_tester.Common.{AllowUndercurrent, BiCommand, default_command, ok_reply}
use battery_tester.Wire.{frame}
use battery_tester.Wire.Plain.{plain_commands, plain_replies}
use battery_tester.Pc.Text.{Text}
use battery_tester.Pc.Messages.{ComCmd, Event, testing_command}
use battery_tester.Microbit.Serial.{serial_in_task, serial_reply_task}
use battery_tester.Pc.Serial.Decode.{receive, serial_decode}
use battery_tester.Pc.Serial.Write.{serial_write_command}
use battery_tester.Pc.Serial.Com.{
  Port, Answers, Input, command, read, tick, Line, connected, panicked, send, round,
  serial_com_task, connect,
}
use battery_tester.Pc.Serial.Com.Intended.{Works, AllWork, bytes_on, intended}
use battery_tester.Pc.Serial.Com.Reading.{chunks_of, replies_of, serial_com_task-receive}
use battery_tester.Pc.Serial.Com.Damaged.{round-damaged}
use battery_tester.Pc.Serial.Com.Session.{serial_com_task-session}

abbrev said : Option ComCmd → Text
said c = []

-- A device that opens, and single writes of a byte or two.
abbrev answers : Answers
answers = record {
  opened = ok 3;
  exclusive = ok tt;
  cleared = ok tt;
  first = ok tt;
  writes = ok 2 ∷ ok 1 ∷ ok 1 ∷ ok 1 ∷ [];
  listening = true;
}

abbrev refusing : Answers
refusing = record answers { opened = err (110 ∷ 111 ∷ []) }

abbrev test_on : BiCommand
test_on = testing_command AllowUndercurrent.no

abbrev rounds : List (Answers × Input)
rounds =
    (answers, command (some (ComCmd.bi_command test_on)))
    ∷ (answers, read (ok (9 ∷ 0 ∷ 0 ∷ [])))
    ∷ (refusing, command (some (ComCmd.new_device_name "COM4")))
    ∷ (answers, tick)
    ∷ (answers, read (ok (0 ∷ 0 ∷ 0 ∷ 0 ∷ 0 ∷ 0 ∷ 0 ∷ [])))
    ∷ (answers, read (err []))
    ∷ (answers, command (some ComCmd.clear_fault))
    ∷ []

abbrev begun : Line
begun = record { daq_serial = 1; incoming_buf = []; bi_command = default_command }

abbrev after : Line
after = record { daq_serial = 1; incoming_buf = []; bi_command = test_on }

answers-Works : Works plain_commands (answers, tick)
answers-Works =
    (refl, refl, (omega arith, (omega arith, (omega arith, (omega arith, tt)))), omega arith)

rounds-AllWork : AllWork plain_commands rounds
rounds-AllWork = (w, (w, (w, (w, (w, (w, (w, tt)))))))
  where
    w : Works plain_commands (answers, tick)
    w = answers-Works

serial_com_task-session_example :
    let t = serial_com_task plain_commands plain_replies said (connected begun) rounds in
    (t.0 ≡ connected after)
    × (replies_of t.1 ≡ ok_reply none ∷ [])
    × ((to : Port)
        → let line = bytes_on to t.1 in
          serial_in_task plain_commands (suc (length line)) line
          ≡ returns (intended to 1 default_command rounds, []))
unfolding serial_reply_task connect
serial_com_task-session_example =
    serial_com_task-session plain_commands plain_replies said 1 default_command rounds
      (ok_reply none ∷ []) rounds-AllWork refl

serial_com_task-receive_example : receive plain_replies (chunks_of rounds) [] ≡ (
  replies_of (serial_com_task plain_commands plain_replies said (connected begun) rounds).1,
  returns [],
)
unfolding serial_com_task connect serial_write_command serial_decode
serial_com_task-receive_example =
    serial_com_task-receive plain_commands plain_replies said begun after rounds refl

-- The end of a reply, a message of one byte that is none, and the beginning of another one.
round-damaged_example :
    round plain_commands plain_replies said
      (record begun { incoming_buf = 9 ∷ 0 ∷ 0 ∷ [] })
      answers
      (read (ok (0 ∷ 0 ∷ 0 ∷ 0 ∷ 0 ∷ 0 ∷ 0 ∷ 1 ∷ 7 ∷ 9 ∷ 0 ∷ [])))
    ≡ (panicked, send (Event.com_reply (ok_reply none)) ∷ [])
unfolding frame
round-damaged_example =
    round-damaged plain_commands plain_replies said (record begun { incoming_buf = 9 ∷ 0 ∷ 0 ∷ [] })
      answers (0 ∷ 0 ∷ 0 ∷ 0 ∷ 0 ∷ 0 ∷ 0 ∷ 1 ∷ 7 ∷ 9 ∷ 0 ∷ []) (7 ∷ []) (9 ∷ 0 ∷ [])
      (ok_reply none ∷ []) refl refl refl
