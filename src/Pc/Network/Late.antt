-- ===== src/Pc/Network/Late.antt =====
-- The serial task when `print_task` has ended before it (serial.rs, lines 50 to 55, and lib.rs).
use battery_tester.Prelude.{
  ◌≡◌, refl, ap, ◌∙◌, String, true, false, List, [], ◌∷◌, ◌++◌, Option, none, some, Result, ok, err,
}
use battery_tester.Common.{BiCommand, BiReply}
use battery_tester.Wire.{Codec, Bytes}
use battery_tester.Pc.Text.{Text, codes}
use battery_tester.Pc.Messages.{ComCmd}
use battery_tester.Pc.Printer.{Print, buf}
use battery_tester.Pc.Mpsc.{Queues, offer}
use battery_tester.Pc.Serial.Write.{Written, finished, writing, failed}
use battery_tester.Pc.Serial.Com.{
  Port, Answers, command, Line, ComTask, connected, Output, print, connect, sends, reports, written,
  last_write, reconnect, handle, round, step,
}
use battery_tester.Pc.Server.Base.{Debug}
use battery_tester.Pc.Network.{
  busy, crashed, Network, Move, com_takes, com_sends, com_send, sending, given,
}
use battery_tester.Pc.Network.Moves.{act, network, com_on, com_take, com_takes_of, com_sends_of}

-- What goes out begins with `o`.
abbrev Begins : Output → ComTask × List Output → Type 0
Begins o r = (rest : List Output) × (r.1 ≡ o ∷ rest)

written-Begins :
    (s : Line) (what : Text) (o : Output) (w : Bytes × Written Text)
    → Begins o (written true s what (o ∷ []) w)
unfolding written reports sends
written-Begins s what o (bytes, finished) = (_, refl)
written-Begins s what o (bytes, failed e) = (_, refl)
written-Begins s what o (bytes, writing) = (_, refl)

last_write-Begins :
    (s : Line) (o : Output) (w : Bytes × Written Text) → Begins o (last_write s (o ∷ []) w)
unfolding last_write
last_write-Begins s o (bytes, finished) = (_, refl)
last_write-Begins s o (bytes, failed e) = (_, refl)
last_write-Begins s o (bytes, writing) = (_, refl)

reconnect-Begins :
    (s : Line) (n : String) (o : Output) (r : Result Port Text)
    → Begins o (reconnect true s n (o ∷ []) r)
unfolding reconnect reports sends
reconnect-Begins s n o (ok port) = (_, refl)
reconnect-Begins s n o (err e) = (_, refl)

module _ (commands : Codec BiCommand) (replies : Codec BiReply) (debug : Option ComCmd → Text) where
  -- A command is printed before anything is done about it.
  handle-Begins :
      (s : Line) (a : Answers) (o : Output) (c : ComCmd)
      → Begins o (handle commands replies debug s (record a { listening = true }) (o ∷ []) (some c))
  unfolding handle
  handle-Begins s a o (ComCmd.bi_command b) = written-Begins (record s { bi_command = b }) _ o _
  handle-Begins s a o (ComCmd.new_device_name n) =
      reconnect-Begins s n o (connect (record a { listening = true }))
  handle-Begins s a o ComCmd.shutdown = last_write-Begins s o _
  handle-Begins s a o ComCmd.clear_fault = written-Begins s _ o _

  two_moves :
      (q : Queues) (d : Debug) (n n1 n2 : Network q) (v w : Move)
      → act q commands replies debug d n v ≡ some n1
      → act q commands replies debug d n1 w ≡ some n2
      → network q commands replies debug d n (v ∷ w ∷ []) ≡ n2
  unfolding network
  two_moves q d n n1 n2 v w e f =
      ap
        (λ o. elim o [
          | none ↦ network q commands replies debug d n (w ∷ [])
          | some x ↦ network q commands replies debug d x (w ∷ [])
        ])
        e
      ∙ ap (λ o. elim o [ none ↦ n1 | some x ↦ x ]) f

  module _ (q : Queues) (d : Debug) (n : Network q) (s : Line) (c : ComCmd) (k : q.Chan ComCmd)
      (a : Answers) (waiting : n.serial ≡ busy (connected s) [])
      (next : q.recv ComCmd n.com_cmds ≡ some (c, k)) where
    -- The task with the command.
    abbrev took : Network q
    took = record (com_on q commands replies debug d n (connected s) a (command (some c))) {
      com_cmds = k;
    }

    takes : act q commands replies debug d n (com_takes a) ≡ some took
    unfolding act com_takes_of
    takes =
        ap (λ x. com_takes_of q commands replies debug d n x a) waiting ∙ rw (next, com_take) refl

    line : Output
    line = print (buf (codes "command: " ++ debug (some c)))

    refused_line :
        n.printing ≡ false
        → act q commands replies debug d took com_sends ≡ some (record took { serial = crashed })
    unfolding act com_sends_of com_send step round line offer
    refused_line gone =
        let (rest, e) = handle-Begins s a line c in
        let t =
          (step commands replies debug (connected s)
            (record a { listening = true }, command (some c))).0 in
        ap (λ os. com_sends_of q commands replies debug d took (busy t os)) e
        ∙ ap
            (λ b.
              sending q (record took { serial = crashed })
                (offer q Print b n.prints (buf (codes "command: " ++ debug (some c))))
                (λ k'. record (given q took t rest line) { prints = k' }))
            gone

    -- A serial task that waits in its main loop and takes a command, whichever it is, after `print_task`
    -- has ended: it panics on the line that says so, before it has sent or written anything.
    pub late_command :
        n.printing ≡ false
        → ((network q commands replies debug d n (com_takes a ∷ com_sends ∷ [])).serial ≡ crashed)
          × ((network q commands replies debug d n (com_takes a ∷ com_sends ∷ [])).past.gave
              ≡ n.past.gave)
    late_command gone =
        let e =
          two_moves q d n took (record took { serial = crashed }) (com_takes a) com_sends takes
            (refused_line gone) in
        (ap (λ x. x.serial) e, ap (λ x. x.past.gave) e)
