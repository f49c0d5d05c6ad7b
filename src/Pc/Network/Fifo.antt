-- ===== src/Pc/Network/Fifo.antt =====
-- A channel of tokio::sync::mpsc for tests: a queue in a list, with its bound.
use battery_tester.Prelude.{
  ℕ, refl, List, [], ◌∷◌, ◌++◌, Option, none, some, length, ltb, if◌then◌else◌, arith,
}
use battery_tester.Pc.Mpsc.{Queues, Mpsc, Sent, Received}

abbrev pub Fifo : Type 0 → Type 0
Fifo A = ℕ × List A

abbrev pub pop : {A : Type 0} → Fifo A → Option (A × Fifo A)
pop (k, []) = none
pop (k, x ∷ xs) = some (x, (k, xs))

abbrev pub queues : Queues
queues = record {
  Chan = Fifo;
  channel = λ A k. (k, []);
  send = λ A c a. if ltb (length c.1) c.0 then some (c.0, c.1 ++ a ∷ []) else none;
  recv = λ A c. pop c;
}

pub queues-Sent :
    (A : Type 0) (c : Fifo A) (a : A) → Sent queues A (λ x. x.1) (λ x. x.0) c a (queues.send A c a)
queues-Sent A (k, xs) a = ground arith

pub queues-Received :
    (A : Type 0) (c : Fifo A) → Received queues A (λ x. x.1) (λ x. x.0) c (queues.recv A c)
queues-Received A (k, []) = refl
queues-Received A (k, x ∷ xs) = (refl, refl)

abbrev pub fifo : Mpsc
fifo = record {
  queues = queues;
  contents = λ A c. c.1;
  bound = λ A c. c.0;
  contents-channel = λ A k. refl;
  bound-channel = λ A k. refl;
  send_lem = queues-Sent;
  recv_lem = queues-Received;
}
