-- ===== src/Pc/Network/Outcomes.antt =====
-- What holds of the server whatever its tasks have done (server.rs, serial.rs and files.rs together).
use battery_tester.Prelude.{◌≡◌, refl, ap, sym, ◌∙◌, List, [], ◌++◌, Option, none, append-nil}
use mathlib.Core.Path.{subst}
use battery_tester.Common.{BiCommand, BiReply, LoadState}
use battery_tester.Wire.{Codec}
use battery_tester.Pc.Text.{Text}
use battery_tester.Pc.Messages.{ComCmd, Event, File, FileCmd}
use battery_tester.Pc.Mpsc.{Mpsc}
use battery_tester.Pc.Files.{Disk, Task, file_task}
use battery_tester.Pc.Files.Failing.{at}
use battery_tester.Pc.Files.Log.{flushed, log_task, file_task-Refines}
use battery_tester.Pc.Server.Base.{FilePath, Debug, Program}
use battery_tester.Pc.Server.Program.{Running, running, in_testing, program_event_task}
use battery_tester.Pc.Serial.Com.{Line, connecting, connected, Output, serial_com_task}
use battery_tester.Pc.Driving.{com_cmds, taken, load_in_testing}
use battery_tester.Pc.Recording.{file_cmds}
use battery_tester.Pc.Network.{busy, ended, Network, Move}
use battery_tester.Pc.Network.Moves.{network, spawned}
use battery_tester.Pc.Network.Consistent.{ControlAt, ComAt, FileAt}
use battery_tester.Pc.Network.Runs.{network-Consistent}

module _ (m : Mpsc) (commands : Codec BiCommand) (replies : Codec BiReply)
    (debug : Option ComCmd → Text) (d : Debug) (dir : FilePath) (disk : Disk) where
  -- The server after some moves.
  abbrev pub after : List Move → Network m.queues
  after vs =
      network m.queues commands replies debug d (spawned m.queues commands replies debug d dir disk)
        vs

  -- Whatever the tasks of the server have done, in any order: if the serial task is connected and
  -- repeats a command that turns the load on, the control task has nothing left to send, and its
  -- channel to the serial task is empty, then it is in `Testing`.
  pub loaded_in_test :
      (vs : List Move) (s : Line) (left : List Output) (r : Running)
      → (after vs).serial ≡ busy (connected s) left
      → s.bi_command.load ≡ LoadState.on
      → (after vs).control ≡ busy r []
      → m.contents ComCmd (after vs).com_cmds ≡ []
      → (p : Program) × (r ≡ running in_testing p)
  loaded_in_test vs s left r at on rest empty =
      let n = after vs in
      let h = network-Consistent m commands replies debug d dir disk vs in
      let here : program_event_task d dir n.past.events ≡ (r, n.past.sent ++ []) =
        subst (λ x. ControlAt m commands replies debug d dir disk x n.past.events n.past.sent) rest
          h.control in
      let there : serial_com_task commands replies debug connecting n.past.inputs
          ≡ (connected s, n.past.gave ++ left) =
        subst (λ x. ComAt m commands replies debug d dir disk x n.past.inputs n.past.gave) at
          h.serial in
      let (p, e) =
        load_in_testing commands replies debug d dir n.past.events n.past.inputs s
          (sym (append-nil (taken n.past.inputs))
            ∙ ap (λ x. taken n.past.inputs ++ x) (sym empty)
            ∙ sym h.commanded
            ∙ ap com_cmds (sym (append-nil n.past.sent) ∙ sym (ap (λ x. x.1) here)))
          (ap (λ x. x.0) there) on in
      (p, sym (ap (λ x. x.0) here) ∙ e)

  -- Whatever the tasks of the server have done, in any order, when the file task has left its loop: no
  -- file is open, every file holds, byte for byte, what it would hold if each of the commands carried
  -- out had been written at once, and these are the first of the commands that the control task has sent.
  pub recorded_at_end :
      (vs : List Move) (t : Task) (es : List Event)
      → (after vs).file ≡ busy (ended t) es
      → (t.persistance ≡ none)
        × ((g : File)
            → t.disk g
              ≡ (log_task (record { current = none; disk = disk }) (after vs).past.filed).0.disk g)
        × (file_cmds (after vs).past.sent
            ≡ (after vs).past.filed ++ m.contents FileCmd (after vs).file_cmds)
  recorded_at_end vs t es e =
      let n = after vs in
      let h : FileAt m commands replies debug d dir disk (busy (ended t) es) n.past.filed
          (file_cmds n.past.sent) (m.contents FileCmd n.file_cmds) =
        subst
          (λ x.
            FileAt m commands replies debug d dir disk x n.past.filed (file_cmds n.past.sent)
              (m.contents FileCmd n.file_cmds))
          e (network-Consistent m commands replies debug d dir disk vs).file in
      let same =
        (file_task-Refines n.past.filed (at none disk) (record { current = none; disk = disk })
          (record { file = refl; bytes = λ g. refl; counted = tt })).0 in
      let t' : (file_task (at none disk) n.past.filed).0 ≡ t = ap (λ x. x.0) h.0 in
      (
        h.2,
        (λ g.
            sym (ap (λ o. flushed o t.disk g) h.2)
            ∙ sym (ap (λ x. flushed x.persistance x.disk g) t')
            ∙ same.bytes g),
        h.3,
      )
