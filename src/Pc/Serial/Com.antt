-- ===== src/Pc/Serial/Com.antt =====
-- The serial task (battery_tester_pc/src/serial.rs, lines 15 to 146). Between two inputs it waits for
-- a device name, or in the `select!` of its main loop; one input is one round of the loop.
-- An error of `tokio_serial` is the text that `{}` prints of it. An open serial stream is a number.
pub mod Reading
pub mod Rounds
pub mod Intended
pub mod Works
pub mod Session
pub mod Closing
pub mod Damaged
pub mod Reports
mod Tests
use battery_tester.Prelude.{
  ℕ, Bool, true, false, String, List, [], ◌∷◌, ◌++◌, map, Option, none, some, Result, ok, err,
  Checked, returns, panic,
}
use battery_tester.Common.{BiCommand, BiReply, default_command}
use battery_tester.Wire.{Bytes, Codec}
use battery_tester.Pc.Text.{Text, codes}
use battery_tester.Pc.Messages.{ComCmd, Event, clear_fault_command, idle_command}
use battery_tester.Pc.Printer.{Print, buf}
use battery_tester.Pc.Serial.Decode.{serial_decode}
use battery_tester.Pc.Serial.Write.{Written, finished, writing, failed, serial_write_command}

abbrev pub Port : Type 0
Port = ℕ

-- What the world answers in one round: to opening a device and to the two calls on it, to the write
-- of a length byte and to the writes behind it, and whether the control task still takes events.
pub record Answers : Type 0 where
  pub opened : Result Port Text
  pub exclusive : Result (Unit {0}) Text
  pub cleared : Result (Unit {0}) Text
  pub first : Result (Unit {0}) Text
  pub writes : List (Result ℕ Text)
  pub listening : Bool

-- The arms of the `select!`; `none` is a closed channel.
pub data Input : Type 0 where
  command : Option ComCmd → Input
  read : Result Bytes Text → Input
  tick : Input

-- The variables of the main loop.
pub record Line : Type 0 where
  pub daq_serial : Port
  pub incoming_buf : Bytes
  pub bi_command : BiCommand

-- `in_write` is a write to which the answers given are not the last.
pub data ComTask : Type 0 where
  connecting returned panicked in_write : ComTask
  connected : Line → ComTask

pub data Output : Type 0 where
  print : Print → Output
  send : Event → Output
  wrote : Port → Bytes → Output

-- The three calls on a device, each of which ends `connect` by its error.
then_set : Result Port Text → Result (Unit {0}) Text → Result (Unit {0}) Text → Result Port Text
then_set (err e) exclusive cleared = err e
then_set (ok daq_serial) (err e) cleared = err e
then_set (ok daq_serial) (ok _) (err e) = err e
then_set (ok daq_serial) (ok _) (ok _) = ok daq_serial

unfoldable pub connect : Answers → Result Port Text
unfolding then_set
connect a = then_set a.opened a.exclusive a.cleared

-- `event_tx.send(..).await.unwrap()`, of events in order, behind what has gone out before: it panics
-- if nobody takes events any more.
unfoldable pub sends : Bool → Line → List Output → List Event → ComTask × List Output
sends listening s outs [] = (connected s, outs)
sends true s outs (e ∷ es) = (connected s, outs ++ map send (e ∷ es))
sends false s outs (e ∷ es) = (panicked, outs)

-- An error is printed and reported.
unfoldable pub reports : Bool → Line → List Output → Text → ComTask × List Output
unfolding sends
reports listening s outs text =
    sends listening s (outs ++ print (buf text) ∷ []) (Event.comm_dc ∷ [])

-- After `serial_write_command`; `what` is the beginning of the text for an error.
unfoldable pub written :
    Bool → Line → Text → List Output → Bytes × Written Text → ComTask × List Output
unfolding reports
written listening s what outs (bytes, finished) =
    (connected s, outs ++ wrote s.daq_serial bytes ∷ [])
written listening s what outs (bytes, failed e) =
    reports listening s (outs ++ wrote s.daq_serial bytes ∷ []) (what ++ e)
written listening s what outs (bytes, writing) = (in_write, outs ++ wrote s.daq_serial bytes ∷ [])

-- The end of the task, which does not look at how the write went.
unfoldable pub last_write : Line → List Output → Bytes × Written Text → ComTask × List Output
last_write s outs (bytes, writing) = (in_write, outs ++ wrote s.daq_serial bytes ∷ [])
last_write s outs (bytes, _) = (returned, outs ++ wrote s.daq_serial bytes ∷ [])

-- Connecting anew: the variables but the stream stay as they are.
unfoldable pub reconnect :
    Bool → Line → String → List Output → Result Port Text → ComTask × List Output
unfolding reports
reconnect listening s dev_name outs (ok port) = (connected (record s { daq_serial = port }), outs)
reconnect listening s dev_name outs (err e) =
    reports listening s outs (
      codes "can't connect to device: " ++ (codes dev_name ++ (codes " serical comm error: " ++ e)))

-- After `serial_decode`; the replies before bytes that are no message are sent before it panics.
unfoldable pub decoded : Bool → Line → List BiReply × Checked Bytes → ComTask × List Output
unfolding sends
decoded listening s (replies, panic) =
    (panicked, (sends listening s [] (map Event.com_reply replies)).1)
decoded listening s (replies, returns rest) =
    sends listening (record s { incoming_buf = rest }) [] (map Event.com_reply replies)

module _ (commands : Codec BiCommand) (replies : Codec BiReply) (debug : Option ComCmd → Text) where
  -- The `match` on a command, behind the line that the `select!` has printed.
  unfoldable pub handle : Line → Answers → List Output → Option ComCmd → ComTask × List Output
  unfolding written last_write reconnect idle_command clear_fault_command
  handle s a outs none = (connected s, outs)
  handle s a outs (some (ComCmd.bi_command new_bi_command)) =
      written a.listening (record s { bi_command = new_bi_command })
        (codes "serial comm error when writing BI command:\n") outs
        (serial_write_command commands new_bi_command a.first a.writes)
  handle s a outs (some (ComCmd.new_device_name dev_name)) =
      reconnect a.listening s dev_name outs (connect a)
  handle s a outs (some ComCmd.shutdown) =
      last_write s outs (serial_write_command commands idle_command a.first a.writes)
  handle s a outs (some ComCmd.clear_fault) =
      written a.listening s (codes "serial comm error when clearing fault:\n") outs
        (serial_write_command commands clear_fault_command a.first a.writes)

  -- One round of the main loop.
  unfoldable pub round : Line → Answers → Input → ComTask × List Output
  unfolding handle decoded reports written
  round s a (command cmd) = handle s a (print (buf (codes "command: " ++ debug cmd)) ∷ []) cmd
  round s a (read (ok chunk)) =
      decoded a.listening s (serial_decode replies (s.incoming_buf ++ chunk))
  round s a (read (err e)) =
      reports a.listening s [] (codes "serial comm error when reading BI response:\n" ++ e)
  round s a tick =
      written a.listening s
        (codes "serial comm error when writing BI command on regular interval:\n") []
        (serial_write_command commands s.bi_command a.first a.writes)

-- The variables once there is a stream, and what is printed if there is none.
unfoldable pub first_connection : String → Result Port Text → ComTask × List Output
unfolding default_command
first_connection dev_name (ok port) =
    (connected (record { daq_serial = port; incoming_buf = []; bi_command = default_command }), [])
first_connection dev_name (err e) = (
  connecting,
  print (
        buf (
          codes "can't make initial connection to: "
          ++ (codes dev_name ++ (codes " due to:\n" ++ e))))
      ∷ [],
)

-- The loop before the first connection, which only takes commands.
unfoldable pub await_device : Answers → Input → ComTask × List Output
unfolding first_connection
await_device a (command (some (ComCmd.new_device_name dev_name))) =
    first_connection dev_name (connect a)
await_device a (command (some ComCmd.shutdown)) = (returned, [])
await_device a (command none) = (returned, [])
await_device a _ = (connecting, [])

module _ (commands : Codec BiCommand) (replies : Codec BiReply) (debug : Option ComCmd → Text) where
  unfoldable pub step : ComTask → Answers × Input → ComTask × List Output
  unfolding round await_device
  step connecting (a, i) = await_device a i
  step (connected s) (a, i) = round commands replies debug s a i
  step t i = (t, [])

  -- The task over its inputs, with all that it prints, sends and writes.
  unfoldable pub serial_com_task : ComTask → List (Answers × Input) → ComTask × List Output
  unfolding step
  serial_com_task t [] = (t, [])
  serial_com_task t (i ∷ is) =
      let (t', outs) = step t i in let (end, more) = serial_com_task t' is in (end, outs ++ more)
