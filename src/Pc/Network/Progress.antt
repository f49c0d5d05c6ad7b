-- ===== src/Pc/Network/Progress.antt =====
-- What can hold the control task up (server.rs against the channels that `main` makes).
use battery_tester.Prelude.{
  ◌≤◌, ◌≡◌, refl, ap, ◌⊎◌, inl, inr, ◌∙◌, Bool, true, false, some, Bool-cases, List, ◌∷◌, Option,
  length, arith,
}
use battery_tester.Common.{BiCommand, BiReply}
use battery_tester.Wire.{Codec}
use battery_tester.Pc.Text.{Text}
use battery_tester.Pc.Messages.{ComCmd, FileCmd}
use battery_tester.Pc.Printer.{Print}
use battery_tester.Pc.Mpsc.{Mpsc, offer, offer_waits, offer_refused}
use battery_tester.Pc.Files.{Disk}
use battery_tester.Pc.Server.Base.{FilePath, Debug, World, Out, to_com, to_file, ipc_shutdown}
use battery_tester.Pc.Server.Base
use battery_tester.Pc.Server.Program.{Running}
use battery_tester.Pc.Serial.Com.{Answers}
use battery_tester.Pc.Network.{
  busy, crashed, Network, sent_on, Move, control_sends, control_send, com_listens, file_listens,
}
use battery_tester.Pc.Network.Moves.{act, network, spawned, control_sends_of}
use battery_tester.Pc.Network.Consistent.{Consistent}
use battery_tester.Pc.Network.Runs.{network-Consistent}
use battery_tester.Pc.Network.Going.{
  CanMove, Stuck, Goes, Panics, or_else, offered, printer_goes, serial_goes, file_goes,
}

module _ (m : Mpsc) (commands : Codec BiCommand) (replies : Codec BiReply)
    (debug : Option ComCmd → Text) (d : Debug) (dir : FilePath) (disk : Disk) where
  -- The channel of the serial task is full, and that task is held up.
  abbrev pub HeldUp : Network m.queues → Type 0
  HeldUp n = (8 ≤ length (m.contents ComCmd n.com_cmds)) × Stuck m n n.serial

  -- The connections are told to stop, if anybody listens.
  abbrev shut : Network m.queues → Running → List Out → Bool → Option (Network m.queues)
  shut n r os serving = some (elim serving [
    | true ↦ sent_on m.queues n r os ipc_shutdown
    | false ↦ record n { control = crashed }
  ])

  module _ (n : Network m.queues) (h : Consistent m commands replies debug d dir disk n)
      (r : Running) (os : List Out) (a : Answers) where
    -- The control task with something to send.
    sending_goes :
        (o : Out) → n.control ≡ busy r (o ∷ os) → Goes m commands replies debug d n (HeldUp n)
    unfolding act control_sends_of control_send
    sending_goes ipc_shutdown e = elim (Bool-cases n.serving) [
      | inl on ↦ inl (
        control_sends,
        sent_on m.queues n r os ipc_shutdown,
        ap (control_sends_of m.queues commands replies debug d n) e ∙ ap (shut n r os) on,
        (r, ipc_shutdown, os, e, refl),
      )
      | inr gone ↦ inr (
          inl (
            inl (
              r,
              ipc_shutdown,
              os,
              e,
              gone,
              ap (control_sends_of m.queues commands replies debug d n) e ∙ ap (shut n r os) gone,
            )))
    ]
    sending_goes (Base.print p) e =
        or_else m commands replies debug d n
          (offered m commands replies debug d n control_sends (record n { control = crashed })
            (offer m.queues Print n.printing n.prints p)
            (λ k. record (sent_on m.queues n r os (Base.print p)) { prints = k })
            (ap (control_sends_of m.queues commands replies debug d n) e)
            (λ k. (r, Base.print p, os, e, refl))
            (λ gone crash.
              inl
                (r, Base.print p, os, e, offer_refused m Print n.printing n.prints p gone, crash)))
          (λ w. inl (printer_goes m commands replies debug d n dir disk h p w))
    sending_goes (to_file c) e =
        or_else m commands replies debug d n
          (offered m commands replies debug d n control_sends (record n { control = crashed })
            (offer m.queues FileCmd (file_listens n.file) n.file_cmds c)
            (λ k. record (sent_on m.queues n r os (to_file c)) { file_cmds = k })
            (ap (control_sends_of m.queues commands replies debug d n) e)
            (λ k. (r, to_file c, os, e, refl))
            (λ gone crash. inl (
              r,
              to_file c,
              os,
              e,
              offer_refused m FileCmd (file_listens n.file) n.file_cmds c gone,
              crash,
            )))
          (λ w.
            let (full, on) = offer_waits m FileCmd (file_listens n.file) n.file_cmds c w in
            inl (
              file_goes m commands replies debug d n dir disk h n.file refl on
                (omega (arith, full, h.file_cmds_fit.0))))
    sending_goes (to_com c) e =
        or_else m commands replies debug d n
          (offered m commands replies debug d n control_sends (record n { control = crashed })
            (offer m.queues ComCmd (com_listens n.serial) n.com_cmds c)
            (λ k. record (sent_on m.queues n r os (to_com c)) { com_cmds = k })
            (ap (control_sends_of m.queues commands replies debug d n) e)
            (λ k. (r, to_com c, os, e, refl))
            (λ gone crash. inl (
              r,
              to_com c,
              os,
              e,
              offer_refused m ComCmd (com_listens n.serial) n.com_cmds c gone,
              crash,
            )))
          (λ w.
            let (full, on) = offer_waits m ComCmd (com_listens n.serial) n.com_cmds c w in
            let eight : 8 ≤ length (m.contents ComCmd n.com_cmds) =
              omega (arith, full, h.com_cmds_fit.0) in
            or_else m commands replies debug d n
              (serial_goes m commands replies debug d n dir disk h n.serial refl a on
                (omega (arith, eight)))
              (λ s. inr (inr (eight, s))))

  -- The server after some moves since its start.
  abbrev pub after : List Move → Network m.queues
  after vs =
      network m.queues commands replies debug d (spawned m.queues commands replies debug d dir disk)
        vs

  -- Whatever has happened, while the control task has something left to send, without any event from
  -- outside: the control task or the serial task can do its next send, and has the rest of what it has
  -- to send still before it, or the serial task, the file task or `print_task` can take a message, which is
  -- then gone from its channel; or the control task or the serial task is about to send to a task that
  -- has ended or panicked, and panics by it; or the channel of the serial task is full, and that task is
  -- either within a write that the line does not take, or waits with an event for the full channel of
  -- the control task.
  pub control_goes_on :
      (vs : List Move) (r : Running) (o : Out) (os : List Out) (a : Answers)
      → (after vs).control ≡ busy r (o ∷ os)
      → CanMove m commands replies debug d (after vs)
        ⊎ (Panics m commands replies debug d (after vs) ⊎ HeldUp (after vs))
  control_goes_on vs r o os a e =
      sending_goes (after vs) (network-Consistent m commands replies debug d dir disk vs) r os a o e
