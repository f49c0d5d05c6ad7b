-- ===== src/Pc/Network/Moves.antt =====
-- The moves of the server's tasks: what each takes from its channel or from the world (server.rs,
-- serial.rs, files.rs and lib.rs of battery_tester_pc).
use battery_tester.Prelude.{
  Bool, true, false, List, [], ◌∷◌, ◌++◌, Option, none, some, Checked, returns, panic,
}
use battery_tester.Common.{BiCommand, BiReply}
use battery_tester.Wire.{Codec}
use battery_tester.Pc.Text.{Text}
use battery_tester.Pc.Messages.{ComCmd, Event, FileCmd}
use battery_tester.Pc.Printer.{Print}
use battery_tester.Pc.Mpsc.{Queues}
use battery_tester.Pc.Ipc.{event_of}
use battery_tester.Pc.Files.{Disk, Task}
use battery_tester.Pc.Files.Failing.{at, handle_checked}
use battery_tester.Pc.Server.Base.{FilePath, Debug, World, Out}
use battery_tester.Pc.Server.Program.{Running, running, stopped, unfinished}
use battery_tester.Pc.Server.Program
use battery_tester.Pc.Serial.Com.{
  Answers, Input, command, read, tick, ComTask, connecting, connected, returned, panicked, in_write,
  Output,
}
use battery_tester.Pc.Serial.Com
use battery_tester.Pc.Network.{
  Doing, busy, crashed, FileTask, going, ended, Network, Move, user, ipc_ends, control_sends,
  com_sends, file_sends, prints, control_takes, com_takes, com_ticks, com_reads, file_takes,
  control_send, com_send, file_send, user_send,
}

-- Behind `FileCmd::Shutdown` the loop is left.
abbrev pub file_after : FileCmd → Task → FileTask
file_after FileCmd.shutdown t = ended t
file_after _ t = going t

module _ (q : Queues) (commands : Codec BiCommand) (replies : Codec BiReply)
    (debug : Option ComCmd → Text) (d : Debug) where
  -- An event taken by the control task.
  abbrev pub control_on : Network q → Running → World × Option Event → q.Chan Event → Network q
  control_on n r i k =
      let (r', outs) = Program.step d r i in
      record n {
        control = busy r' outs;
        events = k;
        past = record (n.past) { events = n.past.events ++ i ∷ [] };
      }

  unfoldable pub control_take : Network q → Running → World → Option (Network q)
  control_take n r w = elim (q.recv Event n.events) [
    | none ↦ none
    | some (e, k) ↦ some (control_on n r (w, some e) k)
  ]

  -- A round of the serial task; that a receiver is gone shows when it sends.
  abbrev pub com_on : Network q → ComTask → Answers → Input → Network q
  com_on n t a i =
      let (t', outs) = Com.step commands replies debug t (record a { listening = true }, i) in
      record n {
        serial = busy t' outs;
        past = record (n.past) {
          inputs = n.past.inputs ++ (record a { listening = true }, i) ∷ [];
        };
      }

  unfoldable pub com_take : Network q → ComTask → Answers → Option (Network q)
  com_take n t a = elim (q.recv ComCmd n.com_cmds) [
    | none ↦ none
    | some (c, k) ↦ some (record (com_on n t a (command (some c))) { com_cmds = k })
  ]

  unfoldable pub file_on : Network q → FileCmd → Checked (Task × List Event) → Network q
  file_on n c panic = record n { file = crashed }
  file_on n c (returns (t, es)) = record n {
    file = busy (file_after c t) es;
    past = record (n.past) { filed = n.past.filed ++ c ∷ [] };
  }

  unfoldable pub file_take : Network q → Task → Bool → Option (Network q)
  unfolding file_on
  file_take n t written = elim (q.recv FileCmd n.file_cmds) [
    | none ↦ none
    | some (c, k) ↦ some (record (file_on n c (handle_checked t written c)) { file_cmds = k })
  ]

  unfoldable pub print_take : Network q → Option (Network q)
  print_take n = elim (q.recv Print n.prints) [
    | none ↦ none
    | some (Print.shutdown, k) ↦ some (record n { printing = false; prints = k })
    | some (p, k) ↦ some (record n { prints = k })
  ]

  -- A task sends if it has something to send, and takes its next input otherwise.
  unfoldable pub control_sends_of : Network q → Doing Running Out → Option (Network q)
  control_sends_of n (busy r (o ∷ os)) = control_send q n r o os
  control_sends_of n (busy r []) = none
  control_sends_of n crashed = none

  unfoldable pub control_takes_of : Network q → Doing Running Out → World → Option (Network q)
  unfolding control_take
  control_takes_of n (busy (running s p) []) w = control_take n (running s p) w
  control_takes_of n (busy stopped []) w = none
  control_takes_of n (busy unfinished []) w = none
  control_takes_of n (busy r (o ∷ os)) w = none
  control_takes_of n crashed w = none

  unfoldable pub com_sends_of : Network q → Doing ComTask Output → Option (Network q)
  com_sends_of n (busy t (o ∷ os)) = com_send q n t o os
  com_sends_of n (busy t []) = none
  com_sends_of n crashed = none

  unfoldable pub com_takes_of : Network q → Doing ComTask Output → Answers → Option (Network q)
  unfolding com_take
  com_takes_of n (busy connecting []) a = com_take n connecting a
  com_takes_of n (busy (connected s) []) a = com_take n (connected s) a
  com_takes_of n (busy returned []) a = none
  com_takes_of n (busy panicked []) a = none
  com_takes_of n (busy in_write []) a = none
  com_takes_of n (busy t (o ∷ os)) a = none
  com_takes_of n crashed a = none

  -- The other two arms of the `select!`, once there is a device.
  unfoldable pub com_round_of :
      Network q → Doing ComTask Output → Answers → Input → Option (Network q)
  com_round_of n (busy (connected s) []) a i = some (com_on n (connected s) a i)
  com_round_of n (busy connecting []) a i = none
  com_round_of n (busy returned []) a i = none
  com_round_of n (busy panicked []) a i = none
  com_round_of n (busy in_write []) a i = none
  com_round_of n (busy t (o ∷ os)) a i = none
  com_round_of n crashed a i = none

  unfoldable pub file_takes_of : Network q → Doing FileTask Event → Bool → Option (Network q)
  unfolding file_take
  file_takes_of n (busy (going t) []) written = file_take n t written
  file_takes_of n (busy (ended t) []) written = none
  file_takes_of n (busy t (e ∷ es)) written = none
  file_takes_of n crashed written = none

  unfoldable pub file_sends_of : Network q → Doing FileTask Event → Option (Network q)
  file_sends_of n (busy t (e ∷ es)) = file_send q n t e es
  file_sends_of n (busy t []) = none
  file_sends_of n crashed = none

  -- One move; `none` if it cannot be made.
  unfoldable pub act : Network q → Move → Option (Network q)
  unfolding control_sends_of control_takes_of com_sends_of com_takes_of com_round_of file_takes_of
      file_sends_of print_take user_send
  act n (user c) = elim n.serving [ true ↦ user_send q n (event_of c) | false ↦ none ]
  act n ipc_ends = some (record n { serving = false })
  act n control_sends = control_sends_of n n.control
  act n (control_takes w) = control_takes_of n n.control w
  act n com_sends = com_sends_of n n.serial
  act n (com_takes a) = com_takes_of n n.serial a
  act n (com_ticks a) = com_round_of n n.serial a tick
  act n (com_reads a chunk) = com_round_of n n.serial a (read chunk)
  act n file_sends = file_sends_of n n.file
  act n (file_takes written) = file_takes_of n n.file written
  act n prints = elim n.printing [ true ↦ print_take n | false ↦ none ]

  -- Some moves, in order; one that cannot be made is passed over.
  unfoldable pub network : Network q → List Move → Network q
  unfolding act
  network n [] = n
  network n (m ∷ ms) = elim (act n m) [ none ↦ network n ms | some n' ↦ network n' ms ]

  -- The tasks as `main` spawns them, with the channels that it makes.
  unfoldable pub spawned : FilePath → Disk → Network q
  spawned dir disk =
      let (r, outs) = Program.start d dir in
      record {
        control = busy r outs;
        serial = busy connecting [];
        file = busy (going (at none disk)) [];
        printing = true;
        serving = true;
        events = q.channel Event 8;
        com_cmds = q.channel ComCmd 8;
        file_cmds = q.channel FileCmd 8;
        prints = q.channel Print 16;
        past = record { events = []; sent = []; inputs = []; gave = []; filed = [] };
      }
