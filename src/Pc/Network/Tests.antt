-- ===== src/Pc/Network/Tests.antt =====
-- The server's tasks and channels at concrete moves.
use battery_tester.Prelude.{
  ℕ, zero, suc, ◌≤◌, ◌≡◌, ◌⊎◌, refl, true, List, [], ◌∷◌, ◌++◌, none, some, ok, length, arith,
}
use battery_tester.Common.{AllowUndercurrent, BiReply, ok_reply}
use battery_tester.Wire.{frame}
use battery_tester.Wire.Plain.{plain_commands, plain_replies}
use battery_tester.Pc.Messages.{
  ComCmd, Event, File, ServerCmd, idle_command, testing_command, volts_command,
}
use battery_tester.Pc.Mpsc.{offer}
use battery_tester.Pc.Files.{Disk, Task, handle_cmd}
use battery_tester.Pc.Files.Log.{log_task}
use battery_tester.Pc.Server.Base.{Debug, World, Program, Out, ipc_shutdown}
use battery_tester.Pc.Server.Program.{Running, running, stopped, in_testing, start, enter, step}
use battery_tester.Pc.Server.Setup
use battery_tester.Pc.Server.Waiting.Battery
use battery_tester.Pc.Server.Waiting.UsrStart
use battery_tester.Pc.Server.Testing
use battery_tester.Pc.State.{default_state}
use battery_tester.Pc.Ipc.{event_of}
use battery_tester.Pc.Text.{codes}
use battery_tester.Pc.Printer.{buf}
use battery_tester.Pc.Serial.Decode.{serial_decode}
use battery_tester.Pc.Serial.Write.{serial_write_command}
use battery_tester.Pc.Serial.Com
use battery_tester.Pc.Files.Failing.{handle_checked}
use battery_tester.Pc.Serial.Com.{Answers, Line, connected, connect}
use battery_tester.Pc.Recording.{file_cmds}
use battery_tester.Pc.Network.{
  Doing, FileTask, going, ended, Network, busy, crashed, Move, control_send, com_send, user,
  control_sends, com_sends, prints, control_takes, com_takes, com_reads, file_takes,
}
use battery_tester.Pc.Network.Moves.{network, spawned}
use battery_tester.Pc.Network.Consistent.{Consistent}
use battery_tester.Pc.Network.Runs.{network-Consistent}
use battery_tester.Pc.Network.Going.{CanMove, Panics, Stuck}
use battery_tester.Pc.Network.Progress.{HeldUp, control_goes_on}
use battery_tester.Pc.Network.Outcomes.{loaded_in_test, recorded_at_end}
use battery_tester.Pc.Network.Late.{late_command}
use battery_tester.Pc.Network.Fifo.{queues, fifo}

abbrev debug : Debug
debug = record { state = λ s. []; i2c = λ e. []; fault = λ f. []; path = λ p. [] }

abbrev world : World
world = record { now = 49 ∷ []; open_new = λ path. ok 3 }

abbrev blank : Disk
blank f = []

abbrev answers : Answers
answers = record {
  opened = ok 3;
  exclusive = ok tt;
  cleared = ok tt;
  first = ok tt;
  writes = ok 2 ∷ ok 2 ∷ [];
  listening = true;
}

abbrev times : ℕ → Move → List Move
times zero v = []
times (suc k) v = v ∷ times k v

abbrev settle : List Move
settle =
    control_takes world
    ∷ (times 8 control_sends
        ++ com_takes answers
          ∷ (times 3 com_sends
              ++ com_takes answers
                ∷ (times 3 com_sends ++ file_takes true ∷ file_takes true ∷ times 8 prints)))

abbrev reply : BiReply → List Move
reply r = com_reads answers (ok (frame plain_replies r)) ∷ (times 3 com_sends ++ settle)

abbrev asked : ServerCmd → List Move
asked c = user c ∷ settle

abbrev charged : BiReply
charged = ok_reply (
    some
      (record { vbat = record { raw = 12000 }; ibat = record { raw = 0 }; dt = 1; duration = 1 }))

-- A test is set up, and the user starts it.
abbrev up_to_test : List Move
up_to_test =
    settle
    ++ (asked (ServerCmd.set_serial_dev "COM3")
        ++ (reply (ok_reply none)
            ++ (asked (ServerCmd.set_battery_id (record { year = 2024; index = 7 }))
                ++ (reply charged ++ asked ServerCmd.start_test))))

abbrev server : List Move → Network queues
server vs =
    network queues plain_commands plain_replies (λ c. []) debug
      (spawned queues plain_commands plain_replies (λ c. []) debug [] blank) vs

abbrev on_load : Line
on_load = record {
  daq_serial = 3;
  incoming_buf = [];
  bi_command = testing_command AllowUndercurrent.no;
}

abbrev tested : Program
tested = record {
  state = record {
    cutoff = record { raw = 11000 };
    battery_id = some (record { year = 2024; index = 7 });
    device_name = some "COM3";
    first_reply = true;
    allow_undercurrent = AllowUndercurrent.no;
  };
  output_dir = [];
}

network-Consistent_example :
    Consistent fifo plain_commands plain_replies (λ c. []) debug [] blank (server up_to_test)
network-Consistent_example =
    network-Consistent fifo plain_commands plain_replies (λ c. []) debug [] blank up_to_test

loaded_in_test_example : (p : Program) × (running in_testing tested ≡ running in_testing p)
unfolding network spawned start control_send com_send offer enter Com.step buf step Setup.on_event
    Battery.on_event UsrStart.on_event Testing.on_event event_of connect codes serial_decode frame
    default_state serial_write_command handle_checked handle_cmd testing_command volts_command
    idle_command
loaded_in_test_example =
    loaded_in_test fifo plain_commands plain_replies (λ c. []) debug [] blank up_to_test on_load []
      (running in_testing tested) refl refl refl refl

abbrev task_of : Doing FileTask Event → Task
task_of (busy (going t) es) = t
task_of (busy (ended t) es) = t
task_of crashed = record { persistance = none; disk = blank }

-- The user shuts the server down during a test.
abbrev to_the_end : List Move
to_the_end = up_to_test ++ (asked ServerCmd.shut_down ++ settle)

recorded_at_end_example :
    ((task_of (server to_the_end).file).persistance ≡ none)
    × ((g : File)
        → (task_of (server to_the_end).file).disk g
          ≡ (log_task
                (record { current = none; disk = blank })
                (server to_the_end).past.filed).0.disk
              g)
    × (file_cmds (server to_the_end).past.sent
        ≡ (server to_the_end).past.filed ++ (server to_the_end).file_cmds.1)
unfolding network spawned start control_send com_send offer enter Com.step buf step Setup.on_event
    Battery.on_event UsrStart.on_event Testing.on_event event_of connect codes serial_decode frame
    default_state serial_write_command handle_checked handle_cmd testing_command volts_command
    idle_command
recorded_at_end_example =
    recorded_at_end fifo plain_commands plain_replies (λ c. []) debug [] blank to_the_end
      (task_of (server to_the_end).file) [] refl

abbrev stage_of : Doing Running Out → Running
stage_of (busy r os) = r
stage_of crashed = stopped

abbrev next_out : Doing Running Out → Out
next_out (busy r (o ∷ os)) = o
next_out _ = ipc_shutdown

abbrev other_outs : Doing Running Out → List Out
other_outs (busy r (o ∷ os)) = os
other_outs _ = []

-- The beginning of the server.
control_goes_on_example :
    CanMove fifo plain_commands plain_replies (λ c. []) debug (server [])
    ⊎ (Panics fifo plain_commands plain_replies (λ c. []) debug (server [])
        ⊎ HeldUp fifo plain_commands plain_replies (λ c. []) debug [] blank (server []))
unfolding network spawned start
control_goes_on_example =
    control_goes_on fifo plain_commands plain_replies (λ c. []) debug [] blank []
      (stage_of (server []).control) (next_out (server []).control) (other_outs (server []).control)
      answers refl

-- The shutdown, as far as `print_task` and before the serial task.
abbrev late : List Move
late =
    up_to_test
    ++ user ServerCmd.shut_down ∷ (control_takes world ∷ (times 8 control_sends ++ times 8 prints))

late_command_example :
    ((network queues plain_commands plain_replies
        (λ c. [])
        debug
        (server late)
        (com_takes answers ∷ com_sends ∷ [])).serial
      ≡ crashed)
    × ((network queues plain_commands plain_replies
          (λ c. [])
          debug
          (server late)
          (com_takes answers ∷ com_sends ∷ [])).past.gave
        ≡ (server late).past.gave)
unfolding network spawned start control_send com_send offer enter Com.step buf step Setup.on_event
    Battery.on_event UsrStart.on_event Testing.on_event event_of connect codes serial_decode frame
    default_state serial_write_command handle_checked handle_cmd testing_command volts_command
    idle_command
late_command_example =
    late_command plain_commands plain_replies (λ c. []) queues debug (server late) on_load
      (ComCmd.bi_command idle_command) (8, ComCmd.shutdown ∷ []) answers refl refl refl

abbrev many_replies : ℕ → List ℕ
many_replies zero = []
many_replies (suc k) = frame plain_replies (ok_reply none) ++ many_replies k

-- The control task handles an event, and somebody uses the room in its channel.
abbrev handles_one : Move → List Move
handles_one v = control_takes world ∷ (times 3 control_sends ++ (times 4 prints ++ v ∷ []))

abbrev handled : ℕ → List Move
handled zero = []
handled (suc k) = handles_one com_sends ++ handled k

-- The user asks for a device nine times while the serial task hands on the replies of one read.
abbrev held_up_moves : List Move
held_up_moves =
    settle
    ++ (asked (ServerCmd.set_serial_dev "COM3")
        ++ (times 8 (user (ServerCmd.set_serial_dev "COM4"))
            ++ com_reads answers (ok (many_replies 9))
              ∷ (handles_one (user (ServerCmd.set_serial_dev "COM4")) ++ handled 9)))

held_up :
    (8 ≤ length (server held_up_moves).com_cmds.1)
    × Stuck fifo (server held_up_moves) (server held_up_moves).serial
unfolding network spawned start control_send com_send offer enter Com.step buf step Setup.on_event
    Battery.on_event UsrStart.on_event Testing.on_event event_of connect codes serial_decode frame
    default_state serial_write_command handle_checked handle_cmd testing_command volts_command
    idle_command
held_up = (omega arith, omega arith)
