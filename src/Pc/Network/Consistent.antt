-- ===== src/Pc/Network/Consistent.antt =====
-- What ties the tasks of the server together while they move (server.rs, serial.rs and files.rs): each
-- has done what it does alone, over the inputs that it has taken so far, and what one has sent is what
-- the other has taken and what is still in the channel.
use battery_tester.Prelude.{ℕ, ◌≤◌, ◌≡◌, refl, List, [], ◌∷◌, ◌++◌, Option, none, some, length}
use battery_tester.Common.{BiCommand, BiReply}
use battery_tester.Wire.{Codec}
use battery_tester.Pc.Text.{Text}
use battery_tester.Pc.Messages.{ComCmd, Event, FileCmd}
use battery_tester.Pc.Printer.{Print}
use battery_tester.Pc.Mpsc.{Mpsc, Offer, waits, refused, put}
use battery_tester.Pc.Files.{Disk, file_task}
use battery_tester.Pc.Files.Failing.{at}
use battery_tester.Pc.Server.Base.{FilePath, Debug, World, Out}
use battery_tester.Pc.Server.Program.{Running, program_event_task}
use battery_tester.Pc.Serial.Com.{
  Answers, Input, ComTask, connecting, Output, print, send, wrote, serial_com_task,
}
use battery_tester.Pc.Driving.{com_cmds, taken}
use battery_tester.Pc.Recording.{file_cmds}
use battery_tester.Pc.Network.{Doing, busy, crashed, FileTask, going, ended, Network, sending}
use battery_tester.Pc.Network.History.{NoStop}

-- The events of the serial task, among some.
unfoldable pub from_serial : List Event → List Event
from_serial [] = []
from_serial (Event.comm_dc ∷ es) = Event.comm_dc ∷ from_serial es
from_serial (Event.com_reply r ∷ es) = Event.com_reply r ∷ from_serial es
from_serial (_ ∷ es) = from_serial es

-- The events that the control task has taken.
unfoldable pub heard : List (World × Option Event) → List Event
heard [] = []
heard ((w, none) ∷ is) = heard is
heard ((w, some e) ∷ is) = e ∷ heard is

unfoldable pub sends : List Output → List Event
sends [] = []
sends (send e ∷ os) = e ∷ sends os
sends (print p ∷ os) = sends os
sends (wrote port bytes ∷ os) = sends os

module _ (m : Mpsc) where
  -- A channel with its bound, and no more in it.
  abbrev pub Fits : (A : Type 0) → ℕ → m.queues.Chan A → Type 0
  Fits A k c = (m.bound A c ≡ k) × (length (m.contents A c) ≤ k)

module _ (m : Mpsc) (commands : Codec BiCommand) (replies : Codec BiReply)
    (debug : Option ComCmd → Text) (d : Debug) (dir : FilePath) (disk : Disk) where
  abbrev pub ControlAt : Doing Running Out → List (World × Option Event) → List Out → Type 0
  ControlAt (busy r rest) es sent = program_event_task d dir es ≡ (r, sent ++ rest)
  ControlAt crashed es sent = (rest : List Out) × ((program_event_task d dir es).1 ≡ sent ++ rest)

  abbrev pub ComAt : Doing ComTask Output → List (Answers × Input) → List Output → Type 0
  ComAt (busy t left) is gave =
      serial_com_task commands replies debug connecting is ≡ (t, gave ++ left)
  ComAt crashed is gave =
      (left : List Output) × ((serial_com_task commands replies debug connecting is).1
        ≡ gave ++ left)

  -- `all` are the commands sent to the file task, and `more` those in its channel.
  abbrev pub FileAt : Doing FileTask Event → List FileCmd → List FileCmd → List FileCmd → Type 0
  FileAt (busy (going t) es) cs all more =
      (file_task (at none disk) cs ≡ (t, [])) × (es ≡ []) × NoStop cs × (all ≡ cs ++ more)
  FileAt (busy (ended t) es) cs all more =
      (file_task (at none disk) cs ≡ (t, []))
      × (es ≡ [])
      × (t.persistance ≡ none)
      × (all ≡ cs ++ more)
  FileAt crashed cs all more =
      ((file_task (at none disk) cs).1 ≡ []) × ((rest : List FileCmd) × (all ≡ cs ++ rest))

  pub record Consistent (n : Network m.queues) : Type 0 where
    pub control : ControlAt n.control n.past.events n.past.sent
    pub serial : ComAt n.serial n.past.inputs n.past.gave
    pub file : FileAt n.file n.past.filed (file_cmds n.past.sent) (m.contents FileCmd n.file_cmds)
    pub commanded : com_cmds n.past.sent ≡ taken n.past.inputs ++ m.contents ComCmd n.com_cmds
    pub told :
        from_serial (heard n.past.events ++ m.contents Event n.events)
        ≡ from_serial (sends n.past.gave)
    pub events_fit : Fits m Event 8 n.events
    pub com_cmds_fit : Fits m ComCmd 8 n.com_cmds
    pub file_cmds_fit : Fits m FileCmd 8 n.file_cmds
    pub prints_fit : Fits m Print 16 n.prints

  abbrev pub Keeps : Option (Network m.queues) → Type 0
  Keeps none = Unit
  Keeps (some n) = Consistent n

  pub sending-Keeps :
      {Q : Type 0} (crash : Network m.queues) (o : Offer Q) (done : Q → Network m.queues)
      → Consistent crash
      → ((k : Q) → o ≡ put k → Consistent (done k))
      → Keeps (sending m.queues crash o done)
  sending-Keeps crash waits done h f = tt
  sending-Keeps crash refused done h f = h
  sending-Keeps crash (put k) done h f = f k refl
