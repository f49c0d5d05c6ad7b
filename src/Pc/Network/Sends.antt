-- ===== src/Pc/Network/Sends.antt =====
-- What the control task sends keeps the server's tasks consistent (server.rs).
use battery_tester.Prelude.{
  ◌≡◌, refl, ap, sym, ◌∙◌, Bool, true, false, List, [], ◌∷◌, ◌++◌, Option, append-nil, append_assoc,
}
use mathlib.Core.Path.{subst}
use battery_tester.Common.{BiCommand, BiReply}
use battery_tester.Wire.{Codec}
use battery_tester.Pc.Text.{Text}
use battery_tester.Pc.Messages.{ComCmd, Event, FileCmd}
use battery_tester.Pc.Printer.{Print}
use battery_tester.Pc.Mpsc.{Mpsc, offer_put}
use battery_tester.Pc.Files.{Disk}
use battery_tester.Pc.Server.Base.{FilePath, Debug, World, Out, to_com, to_file, ipc_shutdown}
use battery_tester.Pc.Server.Base
use battery_tester.Pc.Server.Program.{Running, program_event_task}
use battery_tester.Pc.Driving.{com_cmds, taken}
use battery_tester.Pc.Recording.{file_cmds}
use battery_tester.Pc.Network.{
  Doing, busy, crashed, FileTask, going, ended, Network, sent_on, control_send,
}
use battery_tester.Pc.Network.History.{com_cmds-append, file_cmds-append}
use battery_tester.Pc.Network.Consistent.{Fits, ControlAt, FileAt, Consistent, Keeps, sending-Keeps}
use battery_tester.Pc.Network.Lists.{shift, Fits-put}

module _ (m : Mpsc) (commands : Codec BiCommand) (replies : Codec BiReply)
    (debug : Option ComCmd → Text) (d : Debug) (dir : FilePath) (disk : Disk) where
  abbrev C : Network m.queues → Type 0
  C = Consistent m commands replies debug d dir disk

  abbrev K : Option (Network m.queues) → Type 0
  K = Keeps m commands replies debug d dir disk

  module _ (n : Network m.queues) (h : C n) (r : Running) (o : Out) (os : List Out)
      (e : n.control ≡ busy r (o ∷ os)) where
    before : program_event_task d dir n.past.events ≡ (r, n.past.sent ++ o ∷ os)
    before =
        subst (λ x. ControlAt m commands replies debug d dir disk x n.past.events n.past.sent) e
          h.control

    control_crash : C (record n { control = crashed })
    control_crash = record {
      control = (o ∷ os, ap (λ x. x.1) before);
      serial = h.serial;
      file = h.file;
      commanded = h.commanded;
      told = h.told;
      events_fit = h.events_fit;
      com_cmds_fit = h.com_cmds_fit;
      file_cmds_fit = h.file_cmds_fit;
      prints_fit = h.prints_fit;
    }

    after : program_event_task d dir n.past.events ≡ (r, (n.past.sent ++ o ∷ []) ++ os)
    after = before ∙ ap (λ x. (r, x)) (sym (shift n.past.sent os o))

    -- What is sent is in the channels that it is for.
    control_put :
        (kc : m.queues.Chan ComCmd) (kf : m.queues.Chan FileCmd) (kp : m.queues.Chan Print)
        → com_cmds (n.past.sent ++ o ∷ []) ≡ taken n.past.inputs ++ m.contents ComCmd kc
        → FileAt m commands replies debug d dir disk n.file n.past.filed
            (file_cmds (n.past.sent ++ o ∷ []))
            (m.contents FileCmd kf)
        → Fits m ComCmd 8 kc
        → Fits m FileCmd 8 kf
        → Fits m Print 16 kp
        → C (record (sent_on m.queues n r os o) { com_cmds = kc; file_cmds = kf; prints = kp })
    control_put kc kf kp commanded file c f p = record {
      control = after;
      serial = h.serial;
      file = file;
      commanded = commanded;
      told = h.told;
      events_fit = h.events_fit;
      com_cmds_fit = c;
      file_cmds_fit = f;
      prints_fit = p;
    }

    com_cmds_same : com_cmds (o ∷ []) ≡ [] → com_cmds (n.past.sent ++ o ∷ []) ≡ com_cmds n.past.sent
    com_cmds_same g =
        com_cmds-append n.past.sent (o ∷ []) ∙ ap (λ t. com_cmds n.past.sent ++ t) g ∙ append-nil _

    file_cmds_same :
        file_cmds (o ∷ []) ≡ []
        → FileAt m commands replies debug d dir disk n.file n.past.filed
            (file_cmds (n.past.sent ++ o ∷ []))
            (m.contents FileCmd n.file_cmds)
    file_cmds_same g =
        subst
          (λ all.
            FileAt m commands replies debug d dir disk n.file n.past.filed all
              (m.contents FileCmd n.file_cmds))
          (sym (
            file_cmds-append n.past.sent (o ∷ [])
            ∙ ap (λ t. file_cmds n.past.sent ++ t) g
            ∙ append-nil _))
          h.file

  FileAt-more :
      (f : Doing FileTask Event) (cs all more : List FileCmd) (c : FileCmd)
      → FileAt m commands replies debug d dir disk f cs all more
      → FileAt m commands replies debug d dir disk f cs (all ++ c ∷ []) (more ++ c ∷ [])
  FileAt-more (busy (going t) es) cs all more c (ran, quiet, on, link) =
      (ran, quiet, on, ap (λ x. x ++ c ∷ []) link ∙ append_assoc cs more (c ∷ []))
  FileAt-more (busy (ended t) es) cs all more c (ran, quiet, shut, link) =
      (ran, quiet, shut, ap (λ x. x ++ c ∷ []) link ∙ append_assoc cs more (c ∷ []))
  FileAt-more crashed cs all more c (quiet, (rest, link)) =
      (quiet, (rest ++ c ∷ [], ap (λ x. x ++ c ∷ []) link ∙ append_assoc cs rest (c ∷ [])))

  either : (b : Bool) (x y : Network m.queues) → C x → C y → C (elim b [ true ↦ x | false ↦ y ])
  either true x y h k = h
  either false x y h k = k

  pub control_send-Keeps :
      (n : Network m.queues)
      → C n
      → (r : Running) (o : Out) (os : List Out) → n.control ≡ busy r (o ∷ os)
      → K (control_send m.queues n r o os)
  unfolding control_send com_cmds file_cmds
  control_send-Keeps n h r (to_com c) os e =
      sending-Keeps m commands replies debug d dir disk _ _ _ (control_crash n h r (to_com c) os e)
        (λ k p.
          control_put n h r (to_com c) os e k n.file_cmds n.prints
            (com_cmds-append n.past.sent (to_com c ∷ [])
              ∙ ap (λ t. t ++ c ∷ []) h.commanded
              ∙ append_assoc (taken n.past.inputs) (m.contents ComCmd n.com_cmds) (c ∷ [])
              ∙ ap (λ t. taken n.past.inputs ++ t) (sym (offer_put m ComCmd _ n.com_cmds c k p).0))
            (file_cmds_same n h r (to_com c) os e refl)
            (Fits-put m ComCmd 8 _ n.com_cmds k c h.com_cmds_fit p) h.file_cmds_fit h.prints_fit)
  control_send-Keeps n h r (to_file c) os e =
      sending-Keeps m commands replies debug d dir disk _ _ _ (control_crash n h r (to_file c) os e)
        (λ k p.
          control_put n h r (to_file c) os e n.com_cmds k n.prints
            (com_cmds_same n h r (to_file c) os e refl ∙ h.commanded)
            (subst
              (λ all.
                FileAt m commands replies debug d dir disk n.file n.past.filed all
                  (m.contents FileCmd k))
              (sym (file_cmds-append n.past.sent (to_file c ∷ [])))
              (subst
                (λ more.
                  FileAt m commands replies debug d dir disk n.file n.past.filed
                    (file_cmds n.past.sent ++ c ∷ []) more)
                (sym (offer_put m FileCmd _ n.file_cmds c k p).0)
                (FileAt-more n.file n.past.filed (file_cmds n.past.sent)
                  (m.contents FileCmd n.file_cmds) c h.file)))
            h.com_cmds_fit (Fits-put m FileCmd 8 _ n.file_cmds k c h.file_cmds_fit p) h.prints_fit)
  control_send-Keeps n h r (Base.print q) os e =
      sending-Keeps m commands replies debug d dir disk _ _ _
        (control_crash n h r (Base.print q) os e)
        (λ k p.
          control_put n h r (Base.print q) os e n.com_cmds n.file_cmds k
            (com_cmds_same n h r (Base.print q) os e refl ∙ h.commanded)
            (file_cmds_same n h r (Base.print q) os e refl) h.com_cmds_fit h.file_cmds_fit
            (Fits-put m Print 16 _ n.prints k q h.prints_fit p))
  control_send-Keeps n h r ipc_shutdown os e =
      either n.serving (sent_on m.queues n r os ipc_shutdown) (record n { control = crashed })
        (control_put n h r ipc_shutdown os e n.com_cmds n.file_cmds n.prints
          (com_cmds_same n h r ipc_shutdown os e refl ∙ h.commanded)
          (file_cmds_same n h r ipc_shutdown os e refl) h.com_cmds_fit h.file_cmds_fit h.prints_fit)
        (control_crash n h r ipc_shutdown os e)
