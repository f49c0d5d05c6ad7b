-- ===== src/Microbit/Power/Running.antt =====
-- One step of the power task in a release build, and panics (main.rs, lines 134 to 285).
use battery_tester.Prelude.{
  ℕ, ◌≤◌, ◌≡◌, List, Option, none, some, Checked, returns, panic, ◌>>=◌, release, Result, ok, err,
  arith,
}
use battery_tester.Common.{BiCommand, BiReply, Fault, FaultKind, Measurement, Reset}
use battery_tester.Microbit.Signal.{
  Signal, command, tick, com_timeout, Poll, waits, returned, unawaited,
}
use battery_tester.Microbit.Wait.{Contact, Button, wait_bat_reconnect}
use battery_tester.Microbit.Daq.{DaqDataQueue}
use battery_tester.Microbit.Pwm.{off, PwmCtrl}
use battery_tester.Microbit.Pwm.Output.{set_cmd-commanded, commanded_by}
use battery_tester.Microbit.Acquire.Running.{
  IsClock, QueueLive, Acquires, default_queue-Live, queue_later, daq-Acquires,
}
use battery_tester.Microbit.Acquire.{Platform, World}
use battery_tester.Microbit.Power.{
  Control, Loop, acquiring, reconnecting, Phase, boot, init_fault, control, faulted, awaiting,
  Board, after_reply, after_daq, after_reconnect, power_ctrl_loop, after_loop, after_init,
  then_init, then_await, dispatch, power_task, LoopPoll, Outcome,
}

abbrev LoopLive : Loop → ℕ → Type 0
LoopLive (acquiring c) t = QueueLive c.daq_queue t
LoopLive (reconnecting s) t = Unit

abbrev pub PhaseLive : Phase → ℕ → Type 0
PhaseLive (control l) t = LoopLive l t
PhaseLive _ t = Unit

pub record IsLive {p : Platform} (b : Board p) (t : ℕ) : Type 0 where
  pub changed : b.ctrl.change_time ≤ t
  pub acquires : PhaseLive b.phase t

module _ (p : Platform) (t : ℕ) where
  open p use {twim.{Bus}}

  -- What a step of the control loop leaves, without a panic.
  abbrev LoopRuns : Checked (LoopPoll p) → Type 0
  LoopRuns panic = ⊥
  LoopRuns (returns (c, bus, waits l rs)) = (c.change_time ≤ t) × LoopLive l t
  LoopRuns (returns (c, bus, returned fk rs)) = c.change_time ≤ t
  LoopRuns (returns (c, bus, unawaited)) = c.change_time ≤ t

  -- What a step leaves: no panic, and a state that is live.
  abbrev pub RunsOn : Outcome p → Type 0
  RunsOn panic = ⊥
  RunsOn (returns none) = Unit
  RunsOn (returns (some (b, rs))) = IsLive b t

  module _ (w : World) (by : (k : ℕ) → w.now k ≤ t) where
    after_reply-LoopRuns :
        (c : Control) (cmd : BiCommand) (bus : Bus) (ctrl : PwmCtrl) (r : Reset)
        → ctrl.change_time ≤ t
        → QueueLive c.daq_queue t
        → LoopRuns (after_reply p w c cmd bus ctrl r)
    unfolding after_reply
    after_reply-LoopRuns c cmd bus ctrl Reset.yes h q =
        rw set_cmd-commanded (commanded_by ctrl off (w.now 1) t h (by 1), tt)
    after_reply-LoopRuns c cmd bus ctrl Reset.no h q = (h, q)

    after_daq-LoopRuns :
        (c : Control) (ctrl : PwmCtrl)
        (r : Checked (Result (Option Measurement) FaultKind × DaqDataQueue × Bus))
        → ctrl.change_time ≤ t
        → Acquires p t r
        → LoopRuns (r >>= λ x. returns (after_daq p c ctrl x))
    unfolding after_daq
    after_daq-LoopRuns c ctrl panic h q = q
    after_daq-LoopRuns c ctrl (returns (err fk, k, bus)) h q = h
    after_daq-LoopRuns c ctrl (returns (ok none, k, bus)) h q = (h, q)
    after_daq-LoopRuns c ctrl (returns (ok (some m), k, bus)) h q = (h, q)

    after_reconnect-LoopRuns :
        (ctrl : PwmCtrl) (bus : Bus) (r : Poll Contact (Unit {0}))
        → ctrl.change_time ≤ t
        → LoopRuns (returns (after_reconnect p w ctrl bus r))
    unfolding after_reconnect
    after_reconnect-LoopRuns ctrl bus (waits s rs) h = (h, tt)
    after_reconnect-LoopRuns ctrl bus (returned u rs) h = (h, default_queue-Live (w.now 0) t (by 0))
    after_reconnect-LoopRuns ctrl bus unawaited h = h

    after_loop-RunsOn : (r : Checked (LoopPoll p)) → LoopRuns r → RunsOn (r >>= after_loop p w)
    unfolding after_loop
    after_loop-RunsOn panic h = h
    after_loop-RunsOn (returns (c, bus, waits l rs)) h = record { changed = h.0; acquires = h.1 }
    after_loop-RunsOn (returns (c, bus, returned fk rs)) h =
        rw set_cmd-commanded
          (record { changed = commanded_by c off (w.now 2) t h (by 2); acquires = tt })
    after_loop-RunsOn (returns (c, bus, unawaited)) h = tt

    after_init-RunsOn :
        (ctrl : PwmCtrl) (rs : List BiReply) (r : Result (Unit {0}) Fault × Bus)
        → ctrl.change_time ≤ t
        → RunsOn (after_init p w ctrl rs r)
    unfolding after_init
    after_init-RunsOn ctrl rs (ok u, bus) h = record {
      changed = h;
      acquires = default_queue-Live (w.now 1) t (by 1);
    }
    after_init-RunsOn ctrl rs (err f, bus) h = record { changed = h; acquires = tt }

    then_init-RunsOn :
        {S : Type 0} (b : Board p) (at : S → Phase) (r : Poll S (Unit {0}))
        → ((s : S) → PhaseLive (at s) t)
        → b.ctrl.change_time ≤ t
        → RunsOn (then_init p w b at r)
    unfolding then_init
    then_init-RunsOn b at (waits s rs) i h = record { changed = h; acquires = i s }
    then_init-RunsOn b at (returned u rs) i h = after_init-RunsOn b.ctrl rs _ h
    then_init-RunsOn b at unawaited i h = tt

    then_await-RunsOn :
        (b : Board p) (f : Fault) (r : Poll Button (Unit {0}))
        → b.ctrl.change_time ≤ t
        → RunsOn (then_await p b f r)
    unfolding then_await
    then_await-RunsOn b f (waits s rs) h = record { changed = h; acquires = tt }
    then_await-RunsOn b f (returned u rs) h = record { changed = h; acquires = tt }
    then_await-RunsOn b f unawaited h = tt

module _ (p : Platform) (in_release : p.build ≡ release) where
  open p use {twim.{Bus}}

  module _ (w : World) (t t' : ℕ) (clock : IsClock w t t') where
    still : (c : PwmCtrl) → c.change_time ≤ t → c.change_time ≤ t'
    still c h = omega (arith, clock.not_before 0, clock.not_after 0)

    power_ctrl_loop-LoopRuns :
        (ctrl : PwmCtrl) (bus : Bus) (l : Loop) (signal : Signal)
        → ctrl.change_time ≤ t
        → LoopLive l t
        → LoopRuns p t' (power_ctrl_loop p w ctrl bus l signal)
    unfolding power_ctrl_loop
    power_ctrl_loop-LoopRuns ctrl bus (acquiring c) tick h q =
        after_daq-LoopRuns p t' w clock.not_after c ctrl _ (still ctrl h)
          (daq-Acquires p w ctrl c.daq_queue c.allow_undercurrent t t' in_release clock h q bus)
    power_ctrl_loop-LoopRuns ctrl bus (acquiring c) (command cmd) h q = rw set_cmd-commanded (
        after_reply-LoopRuns p t' w clock.not_after c cmd bus _ cmd.reset
          (commanded_by ctrl _ (w.now 0) t' (still ctrl h) (clock.not_after 0))
          (queue_later q clock))
    power_ctrl_loop-LoopRuns ctrl bus (acquiring c) com_timeout h q =
        rw set_cmd-commanded (
          commanded_by ctrl off (w.now 0) t' (still ctrl h) (clock.not_after 0),
          queue_later q clock,
        )
    power_ctrl_loop-LoopRuns ctrl bus (acquiring c) _ h q = still ctrl h
    power_ctrl_loop-LoopRuns ctrl bus (reconnecting s) signal h q =
        after_reconnect-LoopRuns p t' w clock.not_after ctrl bus (wait_bat_reconnect s signal)
          (still ctrl h)

    dispatch-RunsOn :
        (at : Phase) (b : Board p) (signal : Signal)
        → b.ctrl.change_time ≤ t
        → PhaseLive at t
        → RunsOn p t' (dispatch p at w b signal)
    unfolding dispatch
    dispatch-RunsOn (boot s) b signal h q =
        then_init-RunsOn p t' w clock.not_after b boot _ (λ s'. tt) (still b.ctrl h)
    dispatch-RunsOn (init_fault f s) b signal h q =
        then_init-RunsOn p t' w clock.not_after b (init_fault f) _ (λ s'. tt) (still b.ctrl h)
    dispatch-RunsOn (control l) b signal h q =
        after_loop-RunsOn p t' w clock.not_after _
          (power_ctrl_loop-LoopRuns b.ctrl b.bus l signal h q)
    dispatch-RunsOn (faulted f s) b signal h q =
        then_await-RunsOn p t' w clock.not_after b f _ (still b.ctrl h)
    dispatch-RunsOn (awaiting s) b signal h q =
        then_init-RunsOn p t' w clock.not_after b awaiting _ (λ s'. tt) (still b.ctrl h)

    -- Any signal in any live state of a release build, whatever the bus does, with a clock that reads
    -- from `t` to `t'` within the step: the step does not panic, and leaves a live state.
    pub power_task-RunsOn :
        (b : Board p) (signal : Signal) → IsLive b t → RunsOn p t' (power_task p w b signal)
    unfolding power_task
    power_task-RunsOn b signal h = dispatch-RunsOn b.phase b signal h.changed h.acquires
