-- ===== src/Pc/Network/ComSends.antt =====
-- What the serial task and the users send keeps the server's tasks consistent (serial.rs and ipc.rs).
use battery_tester.Prelude.{
  ◌≡◌, ap, sym, ◌∙◌, List, [], ◌∷◌, ◌++◌, Option, append-nil, append_assoc,
}
use mathlib.Core.Path.{subst}
use battery_tester.Common.{BiCommand, BiReply}
use battery_tester.Wire.{Codec}
use battery_tester.Pc.Text.{Text}
use battery_tester.Pc.Messages.{ComCmd, Event}
use battery_tester.Pc.Printer.{Print}
use battery_tester.Pc.Mpsc.{Mpsc, offer_put}
use battery_tester.Pc.Files.{Disk}
use battery_tester.Pc.Server.Base.{FilePath, Debug}
use battery_tester.Pc.Serial.Com.{ComTask, connecting, Output, print, send, wrote, serial_com_task}
use battery_tester.Pc.Network.{busy, crashed, Network, given, com_send, user_send}
use battery_tester.Pc.Network.Consistent.{
  from_serial, heard, sends, Fits, ComAt, Consistent, Keeps, sending-Keeps,
}
use battery_tester.Pc.Network.Lists.{shift, from_serial-append, sends-append, Fits-put}

module _ (m : Mpsc) (commands : Codec BiCommand) (replies : Codec BiReply)
    (debug : Option ComCmd → Text) (d : Debug) (dir : FilePath) (disk : Disk) where
  abbrev C : Network m.queues → Type 0
  C = Consistent m commands replies debug d dir disk

  abbrev K : Option (Network m.queues) → Type 0
  K = Keeps m commands replies debug d dir disk

  module _ (n : Network m.queues) (h : C n) (t : ComTask) (o : Output) (os : List Output)
      (e : n.serial ≡ busy t (o ∷ os)) where
    com_before :
        serial_com_task commands replies debug connecting n.past.inputs ≡ (t, n.past.gave ++ o ∷ os)
    com_before =
        subst (λ x. ComAt m commands replies debug d dir disk x n.past.inputs n.past.gave) e
          h.serial

    com_crash : C (record n { serial = crashed })
    com_crash = record {
      control = h.control;
      serial = (o ∷ os, ap (λ x. x.1) com_before);
      file = h.file;
      commanded = h.commanded;
      told = h.told;
      events_fit = h.events_fit;
      com_cmds_fit = h.com_cmds_fit;
      file_cmds_fit = h.file_cmds_fit;
      prints_fit = h.prints_fit;
    }

    com_put :
        (ke : m.queues.Chan Event) (kp : m.queues.Chan Print)
        → from_serial (heard n.past.events ++ m.contents Event ke)
          ≡ from_serial (sends (n.past.gave ++ o ∷ []))
        → Fits m Event 8 ke
        → Fits m Print 16 kp
        → C (record (given m.queues n t os o) { events = ke; prints = kp })
    com_put ke kp told v p = record {
      control = h.control;
      serial = com_before ∙ ap (λ x. (t, x)) (sym (shift n.past.gave os o));
      file = h.file;
      commanded = h.commanded;
      told = told;
      events_fit = v;
      com_cmds_fit = h.com_cmds_fit;
      file_cmds_fit = h.file_cmds_fit;
      prints_fit = p;
    }

  one_more :
      (n : Network m.queues) (v : Event)
      → from_serial (heard n.past.events ++ (m.contents Event n.events ++ v ∷ []))
        ≡ from_serial (heard n.past.events ++ m.contents Event n.events) ++ from_serial (v ∷ [])
  one_more n v =
      ap from_serial (sym (append_assoc (heard n.past.events) (m.contents Event n.events) (v ∷ [])))
      ∙ from_serial-append (heard n.past.events ++ m.contents Event n.events) (v ∷ [])

  pub com_send-Keeps :
      (n : Network m.queues)
      → C n
      → (t : ComTask) (o : Output) (os : List Output) → n.serial ≡ busy t (o ∷ os)
      → K (com_send m.queues n t o os)
  unfolding com_send sends
  com_send-Keeps n h t (print q) os e =
      sending-Keeps m commands replies debug d dir disk _ _ _ (com_crash n h t (print q) os e)
        (λ k p.
          com_put n h t (print q) os e n.events k
            (h.told ∙ ap from_serial (sym (sends-append n.past.gave (print q ∷ []) ∙ append-nil _)))
            h.events_fit (Fits-put m Print 16 _ n.prints k q h.prints_fit p))
  com_send-Keeps n h t (send v) os e =
      sending-Keeps m commands replies debug d dir disk _ _ _ (com_crash n h t (send v) os e)
        (λ k p.
          com_put n h t (send v) os e k n.prints
            (ap (λ x. from_serial (heard n.past.events ++ x)) (offer_put m Event _ n.events v k p).0
              ∙ one_more n v
              ∙ ap (λ x. x ++ from_serial (v ∷ [])) h.told
              ∙ sym (from_serial-append (sends n.past.gave) (v ∷ []))
              ∙ ap from_serial (sym (sends-append n.past.gave (send v ∷ []))))
            (Fits-put m Event 8 _ n.events k v h.events_fit p) h.prints_fit)
  com_send-Keeps n h t (wrote port bytes) os e =
      com_put n h t (wrote port bytes) os e n.events n.prints
        (h.told
          ∙ ap from_serial (sym (sends-append n.past.gave (wrote port bytes ∷ []) ∙ append-nil _)))
        h.events_fit h.prints_fit

  pub user_send-Keeps :
      (n : Network m.queues)
      → C n
      → (v : Event) → from_serial (v ∷ []) ≡ []
      → K (user_send m.queues n v)
  unfolding user_send
  user_send-Keeps n h v e =
      sending-Keeps m commands replies debug d dir disk _ _ _
        (record {
          control = h.control;
          serial = h.serial;
          file = h.file;
          commanded = h.commanded;
          told = h.told;
          events_fit = h.events_fit;
          com_cmds_fit = h.com_cmds_fit;
          file_cmds_fit = h.file_cmds_fit;
          prints_fit = h.prints_fit;
        })
        (λ k p. record {
          control = h.control;
          serial = h.serial;
          file = h.file;
          commanded = h.commanded;
          told =
              ap (λ x. from_serial (heard n.past.events ++ x))
                (offer_put m Event _ n.events v k p).0
              ∙ one_more n v
              ∙ ap (λ x. from_serial (heard n.past.events ++ m.contents Event n.events) ++ x) e
              ∙ append-nil _
              ∙ h.told;
          events_fit = Fits-put m Event 8 _ n.events k v h.events_fit p;
          com_cmds_fit = h.com_cmds_fit;
          file_cmds_fit = h.file_cmds_fit;
          prints_fit = h.prints_fit;
        })
