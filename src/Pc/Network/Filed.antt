-- ===== src/Pc/Network/Filed.antt =====
-- The file task among the others: it never has an event to send, and what it takes keeps the tasks
-- consistent (files.rs and server.rs).
use battery_tester.Prelude.{
  ℕ, ◌≡◌, refl, ap, sym, ◌∙◌, Bool, List, [], ◌∷◌, ◌++◌, Option, none, some, length, append_assoc,
  arith, Checked, returns, panic,
}
use mathlib.Core.Path.{subst}
use battery_tester.Common.{BiCommand, BiReply}
use battery_tester.Wire.{Codec}
use battery_tester.Pc.Text.{Text}
use battery_tester.Pc.Messages.{ComCmd, Event, FileCmd}
use battery_tester.Pc.Mpsc.{Mpsc, Received}
use battery_tester.Pc.Files.{Disk, Task, file_task, handle_cmd}
use battery_tester.Pc.Files.Failing.{at, handle_checked, handle_checked_lem, shutdown_closes}
use battery_tester.Pc.Server.Base.{FilePath, Debug, Out}
use battery_tester.Pc.Server.Program.{Running, program_event_task}
use battery_tester.Pc.Recording.{file_cmds, no_file_error}
use battery_tester.Pc.Network.{Doing, busy, crashed, FileTask, going, ended, Network}
use battery_tester.Pc.Network.Moves.{file_on, file_take, file_after}
use battery_tester.Pc.Network.History.{
  behind, file_first, NoStop-more, file_cmds-append, file_one_more,
}
use battery_tester.Pc.Network.Consistent.{Fits, ControlAt, FileAt, Consistent, Keeps}

module _ (m : Mpsc) (commands : Codec BiCommand) (replies : Codec BiReply)
    (debug : Option ComCmd → Text) (d : Debug) (dir : FilePath) (disk : Disk) where
  abbrev C : Network m.queues → Type 0
  C = Consistent m commands replies debug d dir disk

  abbrev K : Option (Network m.queues) → Type 0
  K = Keeps m commands replies debug d dir disk

  -- What has been received from a channel, or nothing.
  abbrev Law : (A : Type 0) → m.queues.Chan A → Option (A × m.queues.Chan A) → Type 0
  Law A c = Received m.queues A (m.contents A) (m.bound A) c

  Fits-taken :
      (A : Type 0) (k : ℕ) (c c' : m.queues.Chan A) (a : A)
      → Fits m A k c
      → Law A c (some (a, c'))
      → Fits m A k c'
  Fits-taken A k c c' a h (front, bound) =
      (bound ∙ h.0, omega (arith, ap (length {A = A}) front, h.1))

  module _ (n : Network m.queues) (h : C n) where
    outs_of :
        (x : Doing Running Out)
        → ControlAt m commands replies debug d dir disk x n.past.events n.past.sent
        → (rest : List Out) × ((program_event_task d dir n.past.events).1 ≡ n.past.sent ++ rest)
    outs_of (busy r rest) e = (rest, ap (λ x. x.1) e)
    outs_of crashed e = e

    -- The first of the commands sent to the file task lead to no event.
    pub silent :
        (cs more : List FileCmd)
        → file_cmds n.past.sent ≡ cs ++ more
        → (file_task (at none disk) cs).1 ≡ []
    silent cs more e =
        let (rest, all) = outs_of n.control h.control in
        file_first (at none disk) cs (more ++ file_cmds rest) (
          ap (λ x. (file_task (at none disk) x).1)
            (sym (append_assoc cs more (file_cmds rest))
              ∙ ap (λ x. x ++ file_cmds rest) (sym e)
              ∙ sym (file_cmds-append n.past.sent rest)
              ∙ ap file_cmds (sym all))
          ∙ no_file_error d dir n.past.events disk)

    module _ (t : Task) (at_rest : n.file ≡ busy (going t) []) where
      here :
          FileAt m commands replies debug d dir disk
            (busy (going t) [])
            n.past.filed
            (file_cmds n.past.sent)
            (m.contents FileCmd n.file_cmds)
      here =
          subst
            (λ x.
              FileAt m commands replies debug d dir disk x n.past.filed (file_cmds n.past.sent)
                (m.contents FileCmd n.file_cmds))
            at_rest h.file

      -- One more command.
      ran : (c : FileCmd) → file_task (at none disk) (n.past.filed ++ c ∷ []) ≡ handle_cmd t c
      ran c =
          file_one_more (at none disk) n.past.filed c here.2
          ∙ ap (λ x. behind x.1 (handle_cmd x.0 c)) here.0

      quiet :
          (c : FileCmd) (r : Task × List Event)
          → r ≡ handle_cmd t c
          → r.1 ≡ []
          → file_task (at none disk) (n.past.filed ++ c ∷ []) ≡ (r.0, [])
      quiet c r e q = ran c ∙ sym e ∙ ap (λ x. (r.0, x)) q

      file_state :
          (c : FileCmd) (all more : List FileCmd) (r : Task × List Event)
          → r ≡ handle_cmd t c
          → r.1 ≡ []
          → all ≡ (n.past.filed ++ c ∷ []) ++ more
          → FileAt m commands replies debug d dir disk
              (busy (file_after c r.0) r.1)
              (n.past.filed ++ c ∷ [])
              all
              more
      file_state FileCmd.shutdown all more r e q link =
          (quiet FileCmd.shutdown r e q, q, ap (λ x. x.0.persistance) e ∙ shutdown_closes t, link)
      file_state (FileCmd.push x) all more r e q link = (
        quiet (FileCmd.push x) r e q,
        q,
        NoStop-more n.past.filed (FileCmd.push x) here.2 tt,
        link,
      )
      file_state (FileCmd.new_file f) all more r e q link = (
        quiet (FileCmd.new_file f) r e q,
        q,
        NoStop-more n.past.filed (FileCmd.new_file f) here.2 tt,
        link,
      )
      file_state FileCmd.close_file all more r e q link = (
        quiet FileCmd.close_file r e q,
        q,
        NoStop-more n.past.filed FileCmd.close_file here.2 tt,
        link,
      )

      module _ (c : FileCmd) (k : m.queues.Chan FileCmd)
          (l : Law FileCmd n.file_cmds (some (c, k))) where
        all_sent : file_cmds n.past.sent ≡ (n.past.filed ++ c ∷ []) ++ m.contents FileCmd k
        all_sent =
            here.3
            ∙ ap (λ x. n.past.filed ++ x) l.0
            ∙ sym (append_assoc n.past.filed (c ∷ []) (m.contents FileCmd k))

        file_done :
            (o : Checked (Task × List Event))
            → ((r : Task × List Event) → o ≡ returns r → r ≡ handle_cmd t c)
            → C (record (file_on m.queues commands replies debug d n c o) { file_cmds = k })
        unfolding file_on
        file_done panic f = record {
          control = h.control;
          serial = h.serial;
          file = (
            ap (λ x. x.1) here.0,
            (c ∷ m.contents FileCmd k, here.3 ∙ ap (λ x. n.past.filed ++ x) l.0),
          );
          commanded = h.commanded;
          told = h.told;
          events_fit = h.events_fit;
          com_cmds_fit = h.com_cmds_fit;
          file_cmds_fit = Fits-taken FileCmd 8 n.file_cmds k c h.file_cmds_fit l;
          prints_fit = h.prints_fit;
        }
        file_done (returns r) f = record {
          control = h.control;
          serial = h.serial;
          file =
              file_state c (file_cmds n.past.sent) (m.contents FileCmd k) r (f r refl)
                (ap (λ x. x.1) (f r refl ∙ sym (ran c))
                  ∙ silent (n.past.filed ++ c ∷ []) (m.contents FileCmd k) all_sent)
                all_sent;
          commanded = h.commanded;
          told = h.told;
          events_fit = h.events_fit;
          com_cmds_fit = h.com_cmds_fit;
          file_cmds_fit = Fits-taken FileCmd 8 n.file_cmds k c h.file_cmds_fit l;
          prints_fit = h.prints_fit;
        }

      file_taken :
          (written : Bool) (o : Option (FileCmd × m.queues.Chan FileCmd))
          → Law FileCmd n.file_cmds o
          → K (elim o [
            | none ↦ none
            | some (c, k) ↦
                some
                  (record (file_on m.queues commands replies debug d n c
                    (handle_checked t written c)) { file_cmds = k })
          ])
      file_taken written none l = tt
      file_taken written (some (c, k)) l =
          file_done c k l (handle_checked t written c) (λ r e. handle_checked_lem t written c r e)

      pub file_take-Keeps :
          (written : Bool) → K (file_take m.queues commands replies debug d n t written)
      unfolding file_take
      file_take-Keeps written = file_taken written _ (m.recv_lem FileCmd n.file_cmds)

    no_event :
        (f : FileTask) (v : Event) (es : List Event) (cs all more : List FileCmd)
        → FileAt m commands replies debug d dir disk (busy f (v ∷ es)) cs all more
        → ⊥
    no_event (going t) v es cs all more a = let q : v ∷ es ≡ [] = a.1 in cc
    no_event (ended t) v es cs all more a = let q : v ∷ es ≡ [] = a.1 in cc

    pub nothing_to_send :
        (f : FileTask) (v : Event) (es : List Event) → n.file ≡ busy f (v ∷ es) → ⊥
    nothing_to_send f v es e =
        no_event f v es n.past.filed (file_cmds n.past.sent) (m.contents FileCmd n.file_cmds) (
          subst
            (λ x.
              FileAt m commands replies debug d dir disk x n.past.filed (file_cmds n.past.sent)
                (m.contents FileCmd n.file_cmds))
            e h.file)
