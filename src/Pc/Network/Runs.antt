-- ===== src/Pc/Network/Runs.antt =====
-- The tasks of the server over any moves (server.rs, serial.rs, files.rs, ipc.rs and lib.rs).
use battery_tester.Prelude.{
  ℕ, ◌≤◌, length, ◌≡◌, refl, ap, sym, Bool, true, false, List, [], ◌∷◌, Option, none, some,
  append-nil, arith,
}
use mathlib.Core.Path.{subst}
use battery_tester.Common.{BiCommand, BiReply}
use battery_tester.Wire.{Codec}
use battery_tester.Pc.Text.{Text}
use battery_tester.Pc.Messages.{ComCmd, Event, FileCmd, ServerCmd}
use battery_tester.Pc.Printer.{Print}
use battery_tester.Pc.Mpsc.{Mpsc}
use battery_tester.Pc.Ipc.{event_of}
use battery_tester.Pc.Files.{Disk, file_task}
use battery_tester.Pc.Server.Base.{FilePath, Debug, World, Out}
use battery_tester.Pc.Server.Program.{
  Running, running, stopped, unfinished, start, program_event_task, runs,
}
use battery_tester.Pc.Serial.Com.{
  Answers, Input, read, tick, ComTask, connecting, connected, returned, panicked, in_write, Output,
  serial_com_task,
}
use battery_tester.Pc.Driving.{com_cmds, taken}
use battery_tester.Pc.Recording.{file_cmds}
use battery_tester.Pc.Network.{
  Doing, busy, crashed, FileTask, going, ended, Network, Move, user, ipc_ends, control_sends,
  com_sends, file_sends, prints, control_takes, com_takes, com_ticks, com_reads, file_takes,
}
use battery_tester.Pc.Network.Moves.{
  control_sends_of, control_takes_of, com_sends_of, com_takes_of, com_round_of, file_takes_of,
  file_sends_of, act, network, spawned,
}
use battery_tester.Pc.Network.Consistent.{from_serial, heard, sends, Fits, Consistent, Keeps}
use battery_tester.Pc.Network.Sends.{control_send-Keeps}
use battery_tester.Pc.Network.ComSends.{com_send-Keeps, user_send-Keeps}
use battery_tester.Pc.Network.Takes.{
  control_take-Keeps, com_take-Keeps, com_on-Consistent, print_take-Keeps,
}
use battery_tester.Pc.Network.Filed.{file_take-Keeps, nothing_to_send}

-- A user's command never looks like an event of the serial task.
event_of_lem : (c : ServerCmd) → from_serial (event_of c ∷ []) ≡ []
unfolding event_of from_serial
event_of_lem (ServerCmd.set_battery_id b) = refl
event_of_lem _ = refl

module _ (m : Mpsc) (commands : Codec BiCommand) (replies : Codec BiReply)
    (debug : Option ComCmd → Text) (d : Debug) (dir : FilePath) (disk : Disk) where
  abbrev C : Network m.queues → Type 0
  C = Consistent m commands replies debug d dir disk

  abbrev K : Option (Network m.queues) → Type 0
  K = Keeps m commands replies debug d dir disk

  module _ (n : Network m.queues) (h : C n) where
    control_sends-Keeps :
        (x : Doing Running Out)
        → n.control ≡ x
        → K (control_sends_of m.queues commands replies debug d n x)
    unfolding control_sends_of
    control_sends-Keeps (busy r []) e = tt
    control_sends-Keeps (busy r (o ∷ os)) e =
        control_send-Keeps m commands replies debug d dir disk n h r o os e
    control_sends-Keeps crashed e = tt

    control_takes-Keeps :
        (x : Doing Running Out) (w : World)
        → n.control ≡ x
        → K (control_takes_of m.queues commands replies debug d n x w)
    unfolding control_takes_of
    control_takes-Keeps (busy (running s p) []) w e =
        control_take-Keeps m commands replies debug d dir disk n h (running s p) w e
    control_takes-Keeps (busy stopped []) w e = tt
    control_takes-Keeps (busy unfinished []) w e = tt
    control_takes-Keeps (busy r (o ∷ os)) w e = tt
    control_takes-Keeps crashed w e = tt

    com_sends-Keeps :
        (x : Doing ComTask Output)
        → n.serial ≡ x
        → K (com_sends_of m.queues commands replies debug d n x)
    unfolding com_sends_of
    com_sends-Keeps (busy t []) e = tt
    com_sends-Keeps (busy t (o ∷ os)) e =
        com_send-Keeps m commands replies debug d dir disk n h t o os e
    com_sends-Keeps crashed e = tt

    com_takes-Keeps :
        (x : Doing ComTask Output) (a : Answers)
        → n.serial ≡ x
        → K (com_takes_of m.queues commands replies debug d n x a)
    unfolding com_takes_of
    com_takes-Keeps (busy connecting []) a e =
        com_take-Keeps m commands replies debug d dir disk n h connecting a e
    com_takes-Keeps (busy (connected s) []) a e =
        com_take-Keeps m commands replies debug d dir disk n h (connected s) a e
    com_takes-Keeps (busy returned []) a e = tt
    com_takes-Keeps (busy panicked []) a e = tt
    com_takes-Keeps (busy in_write []) a e = tt
    com_takes-Keeps (busy t (o ∷ os)) a e = tt
    com_takes-Keeps crashed a e = tt

    com_round-Keeps :
        (x : Doing ComTask Output) (a : Answers) (i : Input)
        → n.serial ≡ x
        → taken ((record a { listening = true }, i) ∷ []) ≡ []
        → K (com_round_of m.queues commands replies debug d n x a i)
    unfolding com_round_of
    com_round-Keeps (busy (connected s) []) a i e t =
        com_on-Consistent m commands replies debug d dir disk n h (connected s) a i e t
    com_round-Keeps (busy connecting []) a i e t = tt
    com_round-Keeps (busy returned []) a i e t = tt
    com_round-Keeps (busy panicked []) a i e t = tt
    com_round-Keeps (busy in_write []) a i e t = tt
    com_round-Keeps (busy x (o ∷ os)) a i e t = tt
    com_round-Keeps crashed a i e t = tt

    file_takes-Keeps :
        (x : Doing FileTask Event) (written : Bool)
        → n.file ≡ x
        → K (file_takes_of m.queues commands replies debug d n x written)
    unfolding file_takes_of
    file_takes-Keeps (busy (going t) []) written e =
        file_take-Keeps m commands replies debug d dir disk n h t e written
    file_takes-Keeps (busy (ended t) []) written e = tt
    file_takes-Keeps (busy t (v ∷ es)) written e = tt
    file_takes-Keeps crashed written e = tt

    file_sends-Keeps :
        (x : Doing FileTask Event)
        → n.file ≡ x
        → K (file_sends_of m.queues commands replies debug d n x)
    unfolding file_sends_of
    file_sends-Keeps (busy t []) e = tt
    file_sends-Keeps (busy t (v ∷ es)) e =
        absurd (nothing_to_send m commands replies debug d dir disk n h t v es e)
    file_sends-Keeps crashed e = tt

    while_true :
        (b : Bool) (o : Option (Network m.queues)) → K o → K (elim b [ true ↦ o | false ↦ none ])
    while_true true o k = k
    while_true false o k = tt

    act-Keeps : (v : Move) → K (act m.queues commands replies debug d n v)
    unfolding act taken
    act-Keeps (user c) =
        while_true n.serving _
          (user_send-Keeps m commands replies debug d dir disk n h (event_of c) (event_of_lem c))
    act-Keeps ipc_ends = record {
      control = h.control;
      serial = h.serial;
      file = h.file;
      commanded = h.commanded;
      told = h.told;
      events_fit = h.events_fit;
      com_cmds_fit = h.com_cmds_fit;
      file_cmds_fit = h.file_cmds_fit;
      prints_fit = h.prints_fit;
    }
    act-Keeps control_sends = control_sends-Keeps n.control refl
    act-Keeps (control_takes w) = control_takes-Keeps n.control w refl
    act-Keeps com_sends = com_sends-Keeps n.serial refl
    act-Keeps (com_takes a) = com_takes-Keeps n.serial a refl
    act-Keeps (com_ticks a) = com_round-Keeps n.serial a tick refl refl
    act-Keeps (com_reads a chunk) = com_round-Keeps n.serial a (read chunk) refl refl
    act-Keeps file_sends = file_sends-Keeps n.file refl
    act-Keeps (file_takes written) = file_takes-Keeps n.file written refl
    act-Keeps prints =
        while_true n.printing _ (print_take-Keeps m commands replies debug d dir disk n h)

  abbrev on : Network m.queues → List Move → Network m.queues
  on = network m.queues commands replies debug d

  one_move :
      (n : Network m.queues) (vs : List Move) (o : Option (Network m.queues))
      → C n
      → K o
      → ((n' : Network m.queues) → C n' → C (on n' vs))
      → C (elim o [ none ↦ on n vs | some n' ↦ on n' vs ])
  one_move n vs none h k f = f n h
  one_move n vs (some n') h k f = f n' k

  network_keeps : (vs : List Move) (n : Network m.queues) → C n → C (on n vs)
  unfolding network
  network_keeps [] n h = h
  network_keeps (v ∷ vs) n h =
      one_move n vs (act m.queues commands replies debug d n v) h (act-Keeps n h v)
        (λ n' h'. network_keeps vs n' h')

  Fits-new : (A : Type 0) (k : ℕ) → Fits m A k (m.queues.channel A k)
  Fits-new A k = (
    m.bound-channel A k,
    subst (λ xs. length xs ≤ k) (sym (m.contents-channel A k)) (omega arith),
  )

  spawned-Consistent : C (spawned m.queues commands replies debug d dir disk)
  unfolding spawned program_event_task runs serial_com_task file_task file_cmds com_cmds taken
      from_serial heard sends
  spawned-Consistent = record {
    control = ap (λ o. ((start d dir).0, o)) (append-nil (start d dir).1);
    serial = refl;
    file = (refl, refl, tt, sym (m.contents-channel FileCmd 8));
    commanded = sym (m.contents-channel ComCmd 8);
    told = ap from_serial (m.contents-channel Event 8);
    events_fit = Fits-new Event 8;
    com_cmds_fit = Fits-new ComCmd 8;
    file_cmds_fit = Fits-new FileCmd 8;
    prints_fit = Fits-new Print 16;
  }

  -- Whatever the tasks of the server have done since it was started, in any order, and whichever of
  -- them have panicked: what the control task has sent is all or the first of what it sends alone over
  -- the events that it has taken, and so it is with the serial task and its inputs; the file task has
  -- carried out the first of the commands sent to it as it does alone, has never had an event to send,
  -- and has no file open once it has ended; the commands sent to the serial task are, in order, those
  -- that it has taken and those in its channel; the replies and the reports of a broken line that it has
  -- sent are, in order, those that the control task has taken and those in its channel; and the
  -- channels hold no more than 8 events, 8 commands each, and 16 lines to print.
  pub network-Consistent :
      (vs : List Move)
      → C (
          network m.queues commands replies debug d
            (spawned m.queues commands replies debug d dir disk)
            vs)
  network-Consistent vs =
      network_keeps vs (spawned m.queues commands replies debug d dir disk) spawned-Consistent
