-- ===== src/Pc/Network/Takes.antt =====
-- What the server's tasks take keeps them consistent.
use battery_tester.Prelude.{
  ℕ, ◌≡◌, refl, ap, sym, ◌∙◌, Bool, true, false, List, [], ◌∷◌, ◌++◌, Option, none, some, length,
  append-nil, append_assoc, arith,
}
use mathlib.Core.Path.{subst}
use battery_tester.Common.{BiCommand, BiReply}
use battery_tester.Wire.{Codec}
use battery_tester.Pc.Text.{Text}
use battery_tester.Pc.Messages.{ComCmd, Event}
use battery_tester.Pc.Printer.{Print}
use battery_tester.Pc.Mpsc.{Mpsc, Received}
use battery_tester.Pc.Files.{Disk}
use battery_tester.Pc.Server.Base.{FilePath, Debug, World}
use battery_tester.Pc.Server.Program.{Running, program_event_task}
use battery_tester.Pc.Server.Program
use battery_tester.Pc.Serial.Com.{
  Answers, Input, command, read, tick, ComTask, connecting, Output, serial_com_task,
}
use battery_tester.Pc.Serial.Com
use battery_tester.Pc.Driving.{com_cmds, taken}
use battery_tester.Pc.Network.{busy, Network}
use battery_tester.Pc.Network.Moves.{control_on, control_take, com_on, com_take, print_take}
use battery_tester.Pc.Network.History.{behind, taken-append, program_one_more, com_one_more}
use battery_tester.Pc.Network.Consistent.{
  from_serial, heard, Fits, ControlAt, ComAt, Consistent, Keeps,
}

heard-append : (xs ys : List (World × Option Event)) → heard (xs ++ ys) ≡ heard xs ++ heard ys
unfolding heard
heard-append [] ys = refl
heard-append ((w, none) ∷ xs) ys = heard-append xs ys
heard-append ((w, some e) ∷ xs) ys = ap (λ t. e ∷ t) (heard-append xs ys)

module _ (m : Mpsc) (commands : Codec BiCommand) (replies : Codec BiReply)
    (debug : Option ComCmd → Text) (d : Debug) (dir : FilePath) (disk : Disk) where
  abbrev C : Network m.queues → Type 0
  C = Consistent m commands replies debug d dir disk

  abbrev K : Option (Network m.queues) → Type 0
  K = Keeps m commands replies debug d dir disk

  -- What has been received from a channel, or nothing.
  abbrev Law : (A : Type 0) → m.queues.Chan A → Option (A × m.queues.Chan A) → Type 0
  Law A c = Received m.queues A (m.contents A) (m.bound A) c

  Fits-taken :
      (A : Type 0) (k : ℕ) (c c' : m.queues.Chan A) (a : A)
      → Fits m A k c
      → Law A c (some (a, c'))
      → Fits m A k c'
  Fits-taken A k c c' a h (front, bound) =
      (bound ∙ h.0, omega (arith, ap (length {A = A}) front, h.1))

  module _ (n : Network m.queues) (h : C n) where
    control_taken :
        (r : Running) (w : World)
        → n.control ≡ busy r []
        → (o : Option (Event × m.queues.Chan Event)) → Law Event n.events o
        → K (elim o [
          | none ↦ none
          | some (e, k) ↦ some (control_on m.queues commands replies debug d n r (w, some e) k)
        ])
    unfolding heard
    control_taken r w at_rest none l = tt
    control_taken r w at_rest (some (e, k)) l = record {
      control =
          program_one_more d dir n.past.events (w, some e)
          ∙ ap (λ x. behind x.1 (Program.step d x.0 (w, some e)))
              (here ∙ ap (λ x. (r, x)) (append-nil n.past.sent));
      serial = h.serial;
      file = h.file;
      commanded = h.commanded;
      told =
          ap (λ x. from_serial (x ++ m.contents Event k))
            (heard-append n.past.events ((w, some e) ∷ []))
          ∙ ap from_serial (append_assoc (heard n.past.events) (e ∷ []) (m.contents Event k))
          ∙ ap (λ x. from_serial (heard n.past.events ++ x)) (sym l.0)
          ∙ h.told;
      events_fit = Fits-taken Event 8 n.events k e h.events_fit l;
      com_cmds_fit = h.com_cmds_fit;
      file_cmds_fit = h.file_cmds_fit;
      prints_fit = h.prints_fit;
    }
      where
        here : program_event_task d dir n.past.events ≡ (r, n.past.sent ++ [])
        here =
            subst (λ x. ControlAt m commands replies debug d dir disk x n.past.events n.past.sent)
              at_rest h.control

    com_rounds :
        (t : ComTask) (a : Answers) (i : Input)
        → n.serial ≡ busy t []
        → (k : m.queues.Chan ComCmd)
        → com_cmds n.past.sent
          ≡ taken (n.past.inputs ++ (record a { listening = true }, i) ∷ []) ++ m.contents ComCmd k
        → Fits m ComCmd 8 k
        → C (record (com_on m.queues commands replies debug d n t a i) { com_cmds = k })
    com_rounds t a i at_rest k link fit = record {
      control = h.control;
      serial =
          com_one_more commands replies debug connecting n.past.inputs
            (record a { listening = true }, i)
          ∙ ap
              (λ x.
                behind x.1 (Com.step commands replies debug x.0 (record a { listening = true }, i)))
              (here ∙ ap (λ x. (t, x)) (append-nil n.past.gave));
      file = h.file;
      commanded = link;
      told = h.told;
      events_fit = h.events_fit;
      com_cmds_fit = fit;
      file_cmds_fit = h.file_cmds_fit;
      prints_fit = h.prints_fit;
    }
      where
        here :
            serial_com_task commands replies debug connecting n.past.inputs ≡ (t, n.past.gave ++ [])
        here =
            subst (λ x. ComAt m commands replies debug d dir disk x n.past.inputs n.past.gave)
              at_rest h.serial

    -- A round on a read or a tick takes no command.
    pub com_on-Consistent :
        (t : ComTask) (a : Answers) (i : Input)
        → n.serial ≡ busy t []
        → taken ((record a { listening = true }, i) ∷ []) ≡ []
        → C (com_on m.queues commands replies debug d n t a i)
    com_on-Consistent t a i at_rest e =
        com_rounds t a i at_rest n.com_cmds
          (h.commanded
            ∙ ap (λ x. x ++ m.contents ComCmd n.com_cmds)
                (sym (
                  taken-append n.past.inputs _
                  ∙ ap (λ x. taken n.past.inputs ++ x) e
                  ∙ append-nil _)))
          h.com_cmds_fit

    com_taken :
        (t : ComTask) (a : Answers)
        → n.serial ≡ busy t []
        → (o : Option (ComCmd × m.queues.Chan ComCmd)) → Law ComCmd n.com_cmds o
        → K (elim o [
          | none ↦ none
          | some (c, k) ↦
              some (record (com_on m.queues commands replies debug d n t a (command (some c))) {
                com_cmds = k;
              })
        ])
    unfolding taken
    com_taken t a at_rest none l = tt
    com_taken t a at_rest (some (c, k)) l =
        com_rounds t a (command (some c)) at_rest k
          (h.commanded
            ∙ ap (λ x. taken n.past.inputs ++ x) l.0
            ∙ sym (append_assoc (taken n.past.inputs) (c ∷ []) (m.contents ComCmd k))
            ∙ ap (λ x. x ++ m.contents ComCmd k)
                (sym (
                  taken-append n.past.inputs
                    ((record a { listening = true }, command (some c)) ∷ []))))
          (Fits-taken ComCmd 8 n.com_cmds k c h.com_cmds_fit l)

    printed :
        (b : Bool) (k : m.queues.Chan Print)
        → Fits m Print 16 k
        → C (record n { printing = b; prints = k })
    printed b k fit = record {
      control = h.control;
      serial = h.serial;
      file = h.file;
      commanded = h.commanded;
      told = h.told;
      events_fit = h.events_fit;
      com_cmds_fit = h.com_cmds_fit;
      file_cmds_fit = h.file_cmds_fit;
      prints_fit = fit;
    }

    print_taken :
        (o : Option (Print × m.queues.Chan Print))
        → Law Print n.prints o
        → K (elim o [
          | none ↦ none
          | some (Print.shutdown, k) ↦ some (record n { printing = false; prints = k })
          | some (p, k) ↦ some (record n { prints = k })
        ])
    print_taken none l = tt
    print_taken (some (Print.shutdown, k)) l =
        printed false k (Fits-taken Print 16 n.prints k _ h.prints_fit l)
    print_taken (some (Print.static t, k)) l =
        printed n.printing k (Fits-taken Print 16 n.prints k _ h.prints_fit l)
    print_taken (some (Print.dyn t, k)) l =
        printed n.printing k (Fits-taken Print 16 n.prints k _ h.prints_fit l)
    print_taken (some (Print.aloc t, k)) l =
        printed n.printing k (Fits-taken Print 16 n.prints k _ h.prints_fit l)

    pub print_take-Keeps : K (print_take m.queues commands replies debug d n)
    unfolding print_take
    print_take-Keeps = print_taken _ (m.recv_lem Print n.prints)

    pub control_take-Keeps :
        (r : Running) (w : World)
        → n.control ≡ busy r []
        → K (control_take m.queues commands replies debug d n r w)
    unfolding control_take
    control_take-Keeps r w e = control_taken r w e _ (m.recv_lem Event n.events)

    pub com_take-Keeps :
        (t : ComTask) (a : Answers)
        → n.serial ≡ busy t []
        → K (com_take m.queues commands replies debug d n t a)
    unfolding com_take
    com_take-Keeps t a e = com_taken t a e _ (m.recv_lem ComCmd n.com_cmds)
