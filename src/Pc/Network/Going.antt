-- ===== src/Pc/Network/Going.antt =====
-- Which moves the other tasks of the server have when a channel is full (server.rs, lines 19 to 70).
use battery_tester.Prelude.{
  ℕ, ◌≤◌, ◌<◌, ◌≡◌, refl, ap, ◌∙◌, ◌⊎◌, inl, inr, Bool, true, false, List, [], ◌∷◌, Option, none,
  some, suc, length, arith,
}
use battery_tester.Common.{BiCommand, BiReply}
use battery_tester.Wire.{Codec}
use battery_tester.Pc.Text.{Text}
use battery_tester.Pc.Messages.{ComCmd, Event, FileCmd}
use battery_tester.Pc.Printer.{Print}
use battery_tester.Pc.Mpsc.{Mpsc, Offer, waits, refused, put, offer, offer_waits, recv_some}
use battery_tester.Pc.Files.{Disk}
use battery_tester.Pc.Files.Failing.{handle_checked}
use battery_tester.Pc.Server.Base.{FilePath, Debug}
use battery_tester.Pc.Serial.Com.{
  Answers, command, ComTask, connecting, connected, returned, panicked, in_write, Output, print,
  send, wrote,
}
use battery_tester.Pc.Network.{
  Doing, busy, crashed, FileTask, going, ended, Network, given, Move, control_sends, com_sends,
  prints, com_takes, file_takes, sending, com_send, com_listens, file_listens, control_listens,
}
use battery_tester.Pc.Network.Moves.{
  act, com_sends_of, com_takes_of, file_takes_of, com_on, com_take, file_on, file_take, print_take,
}
use battery_tester.Pc.Network.Consistent.{Consistent}
use battery_tester.Pc.Network.Filed.{nothing_to_send}
use battery_tester.Pc.Server.Base
use battery_tester.Pc.Server.Base.{Out, to_com, to_file, ipc_shutdown}
use battery_tester.Pc.Server.Program.{Running}
use battery_tester.Pc.Mpsc.{offer_refused, recv_taken}

module _ (m : Mpsc) where
  -- What a move of a task that does not wait for the world comes to: a message that the task had to
  -- send is not among those that it still has to send, or one message is gone from the channel that
  -- it takes from.
  abbrev pub Done : Move → Network m.queues → Network m.queues → Type 0
  Done control_sends n n' =
      (r : Running) × (o : Out) × (os : List Out) × (n.control ≡ busy r (o ∷ os))
      × (n'.control ≡ busy r os)
  Done com_sends n n' =
      (t : ComTask) × (o : Output) × (os : List Output) × (n.serial ≡ busy t (o ∷ os))
      × (n'.serial ≡ busy t os)
  Done prints n n' = length (m.contents Print n.prints) ≡ suc (length (m.contents Print n'.prints))
  Done (com_takes a) n n' =
      length (m.contents ComCmd n.com_cmds) ≡ suc (length (m.contents ComCmd n'.com_cmds))
  Done (file_takes written) n n' =
      length (m.contents FileCmd n.file_cmds) ≡ suc (length (m.contents FileCmd n'.file_cmds))
  Done _ n n' = ⊥

  -- The task that a message of the control task is for has ended or panicked.
  abbrev pub OutGone : Network m.queues → Out → Type 0
  OutGone n (to_com c) = com_listens n.serial ≡ false
  OutGone n (to_file c) = file_listens n.file ≡ false
  OutGone n (Base.print p) = n.printing ≡ false
  OutGone n ipc_shutdown = n.serving ≡ false

  abbrev pub OutputGone : Network m.queues → Output → Type 0
  OutputGone n (print p) = n.printing ≡ false
  OutputGone n (send e) = control_listens n.control ≡ false
  OutputGone n (wrote port bytes) = ⊥

-- that the line does not take.
abbrev pub Held : ℕ → List Output → ComTask → Type 0
Held k (send e ∷ os) t = 8 ≤ k
Held k (print p ∷ os) t = ⊥
Held k (wrote port bytes ∷ os) t = ⊥
Held k [] in_write = Unit
Held k [] _ = ⊥

abbrev pub Stuck : (m : Mpsc) → Network m.queues → Doing ComTask Output → Type 0
Stuck m n (busy t os) = Held (length (m.contents Event n.events)) os t
Stuck m n crashed = ⊥

module _ (m : Mpsc) (commands : Codec BiCommand) (replies : Codec BiReply)
    (debug : Option ComCmd → Text) (d : Debug) where
  abbrev pub CanMove : Network m.queues → Type 0
  CanMove n =
      (v : Move) × (n' : Network m.queues) × (act m.queues commands replies debug d n v ≡ some n')
      × Done m v n n'

  -- The control task, or the serial task, is about to send to a task that is gone, and panics by it.
  abbrev pub Panics : Network m.queues → Type 0
  Panics n =
      ((r : Running) × (o : Out) × (os : List Out) × (n.control ≡ busy r (o ∷ os))
        × OutGone m n o
        × (act m.queues commands replies debug d n control_sends
            ≡ some (record n { control = crashed })))
      ⊎ ((t : ComTask) × (o : Output) × (os : List Output) × (n.serial ≡ busy t (o ∷ os))
          × OutputGone m n o
          × (act m.queues commands replies debug d n com_sends
              ≡ some (record n { serial = crashed })))

  -- Some task goes on, or panics, or else there is a reason why not.
  abbrev pub Goes : Network m.queues → Type 0 → Type 0
  Goes n X = CanMove n ⊎ (Panics n ⊎ X)

  pub or_else : {X Y : Type 0} (n : Network m.queues) → Goes n X → (X → Goes n Y) → Goes n Y
  or_else n (inl g) k = inl g
  or_else n (inr (inl p)) k = inr (inl p)
  or_else n (inr (inr x)) k = k x

  module _ (n : Network m.queues) where
    abbrev acts : Move → Option (Network m.queues)
    acts = act m.queues commands replies debug d n

    -- A send is done, or the receiver is gone, or it waits.
    pub offered :
        {Q : Type 0} (v : Move) (crash : Network m.queues) (o : Offer Q)
        (done : Q → Network m.queues)
        → acts v ≡ sending m.queues crash o done
        → ((k : Q) → Done m v n (done k))
        → (o ≡ refused → acts v ≡ some crash → Panics n)
        → Goes n (o ≡ waits)
    offered v crash waits done e k g = inr (inr refl)
    offered v crash refused done e k g = inr (inl (g refl e))
    offered v crash (put c) done e k g = inl (v, done c, e, k c)

    -- A task takes from its channel.
    took :
        {A : Type 0} (v : Move) (o : Option (Network m.queues)) (n' : Network m.queues) (a : A)
        (c c' : m.queues.Chan A)
        → acts v ≡ o
        → o ≡ some n'
        → m.queues.recv A c ≡ some (a, c')
        → ((length (m.contents A c) ≡ suc (length (m.contents A c'))) → Done m v n n')
        → CanMove n
    took v o n' a c c' e p got k = (v, n', e ∙ p, k (recv_taken m _ c a c' got))

    when_true :
        (b : Bool) (o : Option (Network m.queues))
        → b ≡ true
        → (elim b [ true ↦ o | false ↦ none ]) ≡ o
    when_true true o e = refl
    when_true false o e = absurd (cc)

    printed :
        (p : Print) (k : m.queues.Chan Print)
        → acts prints ≡ print_take m.queues commands replies debug d n
        → m.queues.recv Print n.prints ≡ some (p, k)
        → CanMove n
    unfolding print_take
    printed Print.shutdown k on e =
        took prints _ (record n { printing = false; prints = k }) Print.shutdown n.prints k on
          (rw (e, print_take) refl) e (λ x. x)
    printed (Print.static t) k on e =
        took prints _ (record n { prints = k }) (Print.static t) n.prints k on
          (rw (e, print_take) refl) e (λ x. x)
    printed (Print.dyn t) k on e =
        took prints _ (record n { prints = k }) (Print.dyn t) n.prints k on
          (rw (e, print_take) refl) e (λ x. x)
    printed (Print.aloc t) k on e =
        took prints _ (record n { prints = k }) (Print.aloc t) n.prints k on
          (rw (e, print_take) refl) e (λ x. x)

    module _ (dir : FilePath) (disk : Disk)
        (h : Consistent m commands replies debug d dir disk n) where
      -- Where a message for `print_task` waits, that task takes one.
      pub printer_goes :
          (p : Print) → offer m.queues Print n.printing n.prints p ≡ waits → CanMove n
      unfolding act
      printer_goes p w =
          let (full, on) = offer_waits m Print n.printing n.prints p w in
          let (p', (k, e)) = recv_some m Print n.prints (omega (arith, full, h.prints_fit.0)) in
          printed p' k (when_true n.printing _ on) e

      -- Where the serial task listens and there is a command for it, it goes on or is stuck.
      pub serial_goes :
          (x : Doing ComTask Output)
          → n.serial ≡ x
          → Answers
          → com_listens x ≡ true
          → 0 < length (m.contents ComCmd n.com_cmds)
          → Goes n (Stuck m n x)
      unfolding act com_listens com_sends_of com_takes_of com_send com_take
      serial_goes (busy t (print p ∷ os)) e a l full =
          or_else n
            (offered com_sends (record n { serial = crashed })
              (offer m.queues Print n.printing n.prints p)
              (λ k. record (given m.queues n t os (print p)) { prints = k })
              (ap (com_sends_of m.queues commands replies debug d n) e)
              (λ k. (t, print p, os, e, refl))
              (λ gone crash.
                inr (t, print p, os, e, offer_refused m Print n.printing n.prints p gone, crash)))
            (λ w. inl (printer_goes p w))
      serial_goes (busy t (send v ∷ os)) e a l full =
          or_else n
            (offered com_sends (record n { serial = crashed })
              (offer m.queues Event (control_listens n.control) n.events v)
              (λ k. record (given m.queues n t os (send v)) { events = k })
              (ap (com_sends_of m.queues commands replies debug d n) e)
              (λ k. (t, send v, os, e, refl))
              (λ gone crash. inr (
                t,
                send v,
                os,
                e,
                offer_refused m Event (control_listens n.control) n.events v gone,
                crash,
              )))
            (λ w.
              let full' = (offer_waits m Event (control_listens n.control) n.events v w).0 in
              inr (inr (omega (arith, full', h.events_fit.0))))
      serial_goes (busy t (wrote port bytes ∷ os)) e a l full = inl (
        com_sends,
        given m.queues n t os (wrote port bytes),
        ap (com_sends_of m.queues commands replies debug d n) e,
        (t, wrote port bytes, os, e, refl),
      )
      serial_goes (busy connecting []) e a l full =
          let (c, (k, got)) = recv_some m ComCmd n.com_cmds full in
          inl (
            took (com_takes a) _
              (record (com_on m.queues commands replies debug d n connecting a (command (some c))) {
                com_cmds = k;
              })
              c n.com_cmds k (ap (λ x. com_takes_of m.queues commands replies debug d n x a) e)
              (rw (got, com_take) refl) got (λ x. x))
      serial_goes (busy (connected s) []) e a l full =
          let (c, (k, got)) = recv_some m ComCmd n.com_cmds full in
          inl (
            took (com_takes a) _
              (record (com_on m.queues commands replies debug d n (connected s) a
                (command (some c))) { com_cmds = k })
              c n.com_cmds k (ap (λ x. com_takes_of m.queues commands replies debug d n x a) e)
              (rw (got, com_take) refl) got (λ x. x))
      serial_goes (busy in_write []) e a l full = inr (inr tt)
      serial_goes (busy returned []) e a l full = absurd (cc)
      serial_goes (busy panicked []) e a l full = absurd (cc)
      serial_goes crashed e a l full = absurd (cc)

      -- Where the file task listens and there is a command for it, it takes one.
      pub file_goes :
          (x : Doing FileTask Event)
          → n.file ≡ x
          → file_listens x ≡ true
          → 0 < length (m.contents FileCmd n.file_cmds)
          → CanMove n
      unfolding act file_listens file_takes_of
      file_goes (busy (going t) []) e l full =
          let (c, (k, got)) = recv_some m FileCmd n.file_cmds full in
          took (file_takes true) _
            (record (file_on m.queues commands replies debug d n c (handle_checked t true c)) {
              file_cmds = k;
            })
            c n.file_cmds k (ap (λ x. file_takes_of m.queues commands replies debug d n x true) e)
            (rw (got, file_take) refl) got (λ x. x)
      file_goes (busy (ended t) []) e l full = absurd (cc)
      file_goes (busy t (v ∷ es)) e l full =
          absurd (nothing_to_send m commands replies debug d dir disk n h t v es e)
      file_goes crashed e l full = absurd (cc)
