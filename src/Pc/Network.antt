-- ===== src/Pc/Network.antt =====
-- The server as its tasks and the channels between them (server.rs, lines 19 to 70): any task may move
-- next. A task sends what one input leads to one by one, and may wait or panic at each `send`.
pub mod Moves
pub mod History
pub mod Consistent
pub mod Lists
pub mod Sends
pub mod ComSends
pub mod Takes
pub mod Filed
pub mod Runs
pub mod Going
pub mod Progress
pub mod Outcomes
pub mod Late
pub mod Fifo
mod Tests
use battery_tester.Prelude.{Bool, true, false, List, [], ◌∷◌, ◌++◌, Option, none, some, Result}
use battery_tester.Wire.{Bytes}
use battery_tester.Pc.Text.{Text}
use battery_tester.Pc.Messages.{ComCmd, Event, FileCmd, ServerCmd}
use battery_tester.Pc.Printer.{Print}
use battery_tester.Pc.Mpsc.{Queues, Offer, waits, refused, put, offer}
use battery_tester.Pc.Files.{Task}
use battery_tester.Pc.Server.Base.{World, Out, to_com, to_file, ipc_shutdown}
use battery_tester.Pc.Server.Base
use battery_tester.Pc.Server.Program.{Running, running, stopped, unfinished}
use battery_tester.Pc.Serial.Com.{
  Answers, Input, ComTask, connecting, connected, returned, panicked, in_write, Output, send, wrote,
}
use battery_tester.Pc.Serial.Com

-- A task: where it is, with what it still has to send before it takes its next input; or it has
-- panicked.
pub data Doing (S O : Type 0) : Type 0 where
  busy : S → List O → Doing S O
  crashed : Doing S O

-- `file_task` between two commands, and behind its loop.
pub data FileTask : Type 0 where
  going ended : Task → FileTask

-- What has happened so far; no task reads it. The events that the control task has taken and what it
-- has sent, the inputs of the serial task with what it has printed, sent and written, and the commands that
-- the file task has carried out.
pub record Past : Type 0 where
  pub events : List (World × Option Event)
  pub sent : List Out
  pub inputs : List (Answers × Input)
  pub gave : List Output
  pub filed : List FileCmd

-- The tasks and the channels. `printing` and `serving` say whether `print_task` and `ipc_task` go on.
pub record Network (q : Queues) : Type 0 where
  pub control : Doing Running Out
  pub serial : Doing ComTask Output
  pub file : Doing FileTask Event
  pub printing : Bool
  pub serving : Bool
  pub events : q.Chan Event
  pub com_cmds : q.Chan ComCmd
  pub file_cmds : q.Chan FileCmd
  pub prints : q.Chan Print
  pub past : Past

-- Who moves, with what the world answers. A command of a user comes over a connection of its own.
pub data Move : Type 0 where
  user : ServerCmd → Move
  ipc_ends control_sends com_sends file_sends prints : Move
  control_takes : World → Move
  com_takes com_ticks : Answers → Move
  com_reads : Answers → Result Bytes Text → Move
  file_takes : Bool → Move

-- Whether a task still has the receiver of its channel.
unfoldable pub control_listens : Doing Running Out → Bool
control_listens (busy (running s p) os) = true
control_listens (busy stopped []) = false
control_listens (busy stopped (o ∷ os)) = true
control_listens (busy unfinished os) = false
control_listens crashed = false

unfoldable pub com_listens : Doing ComTask Output → Bool
com_listens (busy returned []) = false
com_listens (busy returned (o ∷ os)) = true
com_listens (busy panicked []) = false
com_listens (busy panicked (o ∷ os)) = true
com_listens (busy connecting os) = true
com_listens (busy in_write os) = true
com_listens (busy (connected s) os) = true
com_listens crashed = false

unfoldable pub file_listens : Doing FileTask Event → Bool
file_listens (busy (going t) es) = true
file_listens (busy (ended t) []) = false
file_listens (busy (ended t) (e ∷ es)) = true
file_listens crashed = false

module _ (q : Queues) where
  -- A task of the server after one `send(..).await.unwrap()`.
  abbrev pub sending : {Q : Type 0} → Network q → Offer Q → (Q → Network q) → Option (Network q)
  sending crash waits done = none
  sending crash refused done = some crash
  sending crash (put c) done = some (done c)

  abbrev pub sent_on : Network q → Running → List Out → Out → Network q
  sent_on n r os o = record n {
    control = busy r os;
    past = record (n.past) { sent = n.past.sent ++ o ∷ [] };
  }

  unfoldable pub control_send : Network q → Running → Out → List Out → Option (Network q)
  unfolding com_listens file_listens
  control_send n r (to_com c) os =
      sending (record n { control = crashed }) (offer q ComCmd (com_listens n.serial) n.com_cmds c)
        (λ k. record (sent_on n r os (to_com c)) { com_cmds = k })
  control_send n r (to_file c) os =
      sending (record n { control = crashed }) (offer q FileCmd (file_listens n.file) n.file_cmds c)
        (λ k. record (sent_on n r os (to_file c)) { file_cmds = k })
  control_send n r (Base.print p) os =
      sending (record n { control = crashed }) (offer q Print n.printing n.prints p)
        (λ k. record (sent_on n r os (Base.print p)) { prints = k })
  control_send n r ipc_shutdown os = some (elim n.serving [
    | true ↦ sent_on n r os ipc_shutdown
    | false ↦ record n { control = crashed }
  ])

  abbrev pub given : Network q → ComTask → List Output → Output → Network q
  given n t os o = record n {
    serial = busy t os;
    past = record (n.past) { gave = n.past.gave ++ o ∷ [] };
  }

  unfoldable pub com_send : Network q → ComTask → Output → List Output → Option (Network q)
  unfolding control_listens
  com_send n t (Com.print p) os =
      sending (record n { serial = crashed }) (offer q Print n.printing n.prints p)
        (λ k. record (given n t os (Com.print p)) { prints = k })
  com_send n t (send e) os =
      sending (record n { serial = crashed }) (offer q Event (control_listens n.control) n.events e)
        (λ k. record (given n t os (send e)) { events = k })
  com_send n t (wrote port bytes) os = some (given n t os (wrote port bytes))

  unfoldable pub file_send : Network q → FileTask → Event → List Event → Option (Network q)
  unfolding control_listens
  file_send n t e es =
      sending (record n { file = crashed }) (offer q Event (control_listens n.control) n.events e)
        (λ k. record n { file = busy t es; events = k })

  -- `for_each_conn` with a command of a user.
  unfoldable pub user_send : Network q → Event → Option (Network q)
  unfolding control_listens
  user_send n e =
      sending (record n { serving = false }) (offer q Event (control_listens n.control) n.events e)
        (λ k. record n { events = k })
