-- ===== src/Pc/Server/Program/Cutoff.antt =====
-- How a test starts, goes on, and ends (server.rs).
use battery_tester.Prelude.{
  ◌≡◌, refl, ◌⊎◌, inl, inr, ◌↔◌, List, [], ◌∷◌, Option, none, some, ap, arith,
}
use battery_tester.Pc.State.{Mode}
use battery_tester.Pc.Messages.{ComCmd, Event, FileCmd, idle_command}
use battery_tester.Pc.Printer.{Print}
use battery_tester.Pc.Server.Base.{
  Debug, World, Out, print, ipc_shutdown, to_com, to_file, Program, Turn,
}
use battery_tester.Pc.Server.Setup
use battery_tester.Pc.Server.Waiting.Battery
use battery_tester.Pc.Server.Waiting.UsrStart
use battery_tester.Pc.Server.Testing
use battery_tester.Pc.Server.Fault
use battery_tester.Pc.Server.Program.{
  Stage, in_setup, in_battery, in_usr_start, in_testing, in_fault, running, stopped, enter,
  on_event, after, step, shutdown,
}

-- The handlers that may enter `Testing`.
pub goes_testing :
    (d : Debug) (w : World) (s : Stage) (p : Program) (e : Event)
    → (on_event d w s p e).2 ≡ some Mode.testing
    → (s ≡ in_usr_start) × (e ≡ Event.start_test)
unfolding on_event Setup.on_event Battery.on_event UsrStart.on_event Testing.on_event Fault.on_event
goes_testing d w in_setup p (Event.batt_id id) h = absurd (ground arith)
goes_testing d w in_setup p e h = absurd (ground arith)
goes_testing d w in_battery p e h = absurd (ground arith)
goes_testing d w in_usr_start p Event.start_test h = (refl, refl)
goes_testing d w in_usr_start p e h = absurd (ground arith)
goes_testing d w in_testing p e h = absurd (ground arith)
goes_testing d w in_fault p e h = absurd (ground arith)

-- The handlers that stop the task.
goes_shutdown :
    (d : Debug) (w : World) (s : Stage) (p : Program) (e : Event)
    → ((on_event d w s p e).2 ≡ some Mode.shutdown) ↔ (e ≡ Event.shutdown)
unfolding on_event Setup.on_event Battery.on_event UsrStart.on_event Testing.on_event Fault.on_event
goes_shutdown d w in_setup p e = ground arith
goes_shutdown d w s p e = ground arith

enter_testing :
    (d : Debug) (m : Mode) (p q : Program)
    → (enter d m p).0 ≡ running in_testing q
    → m ≡ Mode.testing
unfolding enter
enter_testing d Mode.testing p q h = refl
enter_testing d m p q h = absurd (ground arith)

enter_stopped :
    (d : Debug) (m : Mode) (p : Program) → ((enter d m p).0 ≡ stopped) ↔ (m ≡ Mode.shutdown)
unfolding enter
enter_stopped d Mode.setup p = ground arith
enter_stopped d m p = ground arith

after_testing :
    (d : Debug) (s : Stage) (t : Turn) (q : Program)
    → (after d s t).0 ≡ running in_testing q
    → (s ≡ in_testing) ⊎ (t.2 ≡ some Mode.testing)
unfolding after
after_testing d s (p, outs, none) q h = inl (ground arith)
after_testing d s (p, outs, some m) q h = inr (ap some (enter_testing d m p q h))

after_stopped :
    (d : Debug) (s : Stage) (t : Turn) → ((after d s t).0 ≡ stopped) ↔ (t.2 ≡ some Mode.shutdown)
unfolding after
after_stopped d s (p, outs, none) = (λ h. cc, λ h. cc)
after_stopped d s (p, outs, some m) =
    (λ h. ap some ((enter_stopped d m p).0 h), λ h. (enter_stopped d m p).1 (ground arith))

-- The task comes into `Testing` from another mode only out of `WaitForUsrStart` and only by the
-- user's start command, whatever is received.
pub starts_by_user :
    (d : Debug) (w : World) (s : Stage) (p q : Program) (i : Option Event)
    → (step d (running s p) (w, i)).0 ≡ running in_testing q
    → (s ≡ in_testing) ⊎ ((s ≡ in_usr_start) × (i ≡ some Event.start_test))
unfolding step shutdown
starts_by_user d w s p q none h = absurd (cc (enter_testing d Mode.shutdown p q h))
starts_by_user d w s p q (some e) h = elim (after_testing d s (on_event d w s p e) q h) [
  | inl same ↦ inl same
  | inr went ↦ let (from, by) = goes_testing d w s p e went in inr (from, ap some by)
]

shutdown_turn :
    (d : Debug) (w : World) (s : Stage) (p : Program)
    → on_event d w s p Event.shutdown ≡ (p, [], some Mode.shutdown)
unfolding on_event Setup.on_event Battery.on_event UsrStart.on_event Testing.on_event Fault.on_event
shutdown_turn d w in_setup p = refl
shutdown_turn d w _ p = refl

-- In every mode a shutdown command and a closed channel stop the task, and nothing else does.
stops_by_user :
    (d : Debug) (w : World) (s : Stage) (p : Program) (i : Option Event)
    → ((step d (running s p) (w, i)).0 ≡ stopped) ↔ ((i ≡ none) ⊎ (i ≡ some Event.shutdown))
unfolding step
stops_by_user d w s p none = (λ h. inl refl, λ h. unfold enter in refl)
stops_by_user d w s p (some e) = (
  λ h. inr (ap some ((goes_shutdown d w s p e).0 ((after_stopped d s (on_event d w s p e)).0 h))),
  λ h. (after_stopped d s (on_event d w s p e)).1 ((goes_shutdown d w s p e).1 (ground arith)),
)

-- What the task sends when it stops.
abbrev pub last_sent : List Out
last_sent =
    to_com (ComCmd.bi_command idle_command)
    ∷ to_file FileCmd.close_file
    ∷ to_file FileCmd.shutdown
    ∷ to_com ComCmd.shutdown
    ∷ ipc_shutdown
    ∷ print Print.shutdown
    ∷ []

-- It is the same in every mode.
stops_with :
    (d : Debug) (w : World) (s : Stage) (p : Program) (i : Option Event)
    → (step d (running s p) (w, i)).0 ≡ stopped
    → (step d (running s p) (w, i)).1 ≡ last_sent
unfolding step shutdown
stops_with d w s p none h = unfold enter in refl
stops_with d w s p (some e) h =
    let by : e ≡ Event.shutdown =
      (goes_shutdown d w s p e).0 ((after_stopped d s (on_event d w s p e)).0 h) in
    rw (by, shutdown_turn) (unfold after enter in refl)

-- In every mode the task stops exactly on a shutdown command or when its channel is closed, and it
-- stops exactly with these as what it sends last: the command to turn the load off, to close the file,
-- to stop the file task, to stop the serial task, to stop the connections, and to stop printing, in
-- this order.
pub stops_lem :
    (d : Debug) (w : World) (s : Stage) (p : Program) (i : Option Event)
    → (((step d (running s p) (w, i)).0 ≡ stopped) ↔ ((i ≡ none) ⊎ (i ≡ some Event.shutdown)))
      × (((step d (running s p) (w, i)).0 ≡ stopped)
          ↔ (step d (running s p) (w, i) ≡ (stopped, last_sent)))
stops_lem d w s p i =
    (stops_by_user d w s p i, (λ h. let e = stops_with d w s p i h in cc, λ e. ap (λ r. r.0) e))
