-- ===== src/Microbit/Power/Safety.antt =====
-- The heater in the states of the power task (main.rs, lines 134 to 248).
use battery_tester.Prelude.{
  ℕ, ◌≡◌, refl, Bool, true, false, List, Option, none, some, Checked, returns, panic, ◌>>=◌, Result,
  ok, err, arith,
}
use mathlib.Core.Path.{subst}
use battery_tester.Common.{BiCommand, BiReply, FaultKind, Reset, Measurement, Fault}
use battery_tester.Microbit.Signal.{
  Signal, command, tick, com_timeout, Poll, waits, returned, unawaited,
}
use battery_tester.Microbit.Wait.{Contact, Button, wait_bat_reconnect}
use battery_tester.Microbit.Daq.{DaqDataQueue}
use battery_tester.Microbit.Pwm.{off, SimplePwm, PwmCtrl, new}
use battery_tester.Microbit.Pwm.Output.{
  Drives, commanded, set_cmd-commanded, commanded-Drives, new-Drives,
}
use battery_tester.Microbit.Acquire.{Platform, World, init_i2c}
use battery_tester.Microbit.Power.{
  Control, Loop, acquiring, reconnecting, Phase, boot, init_fault, control, faulted, awaiting,
  Board, after_reply, after_daq, after_reconnect, power_ctrl_loop, after_loop, after_init,
  then_init, then_await, dispatch, power_task, start, LoopPoll, Outcome,
}

abbrev pub is_acquiring : Phase → Bool
is_acquiring (control (acquiring c)) = true
is_acquiring _ = false

-- The output carries the duty of the remembered command, and that is `off` wherever the task does
-- not acquire data.
pub record IsSafe {p : Platform} (b : Board p) : Type 0 where
  pub drives : Drives b.ctrl
  pub idle_off : is_acquiring b.phase ≡ false → b.ctrl.cmd ≡ off

module _ (p : Platform) where
  open p use {build, twim.{Bus}}

  -- What a step of the control loop has to leave for the task to be safe.
  abbrev LoopSafe : Checked (LoopPoll p) → Type 0
  LoopSafe panic = Unit
  LoopSafe (returns (c, bus, waits (acquiring k) rs)) = Drives c
  LoopSafe (returns (c, bus, waits (reconnecting s) rs)) = Drives c × (c.cmd ≡ off)
  LoopSafe (returns (c, bus, returned fk rs)) = Drives c
  LoopSafe (returns (c, bus, unawaited)) = Unit

  -- The state after a step is safe, where the step leaves one.
  abbrev pub SafeAfter : Outcome p → Type 0
  SafeAfter panic = Unit
  SafeAfter (returns none) = Unit
  SafeAfter (returns (some (b, rs))) = IsSafe b

  after_reply-LoopSafe :
      (w : World) (c : Control) (cmd : BiCommand) (bus : Bus) (ctrl : PwmCtrl) (r : Reset)
      → Drives ctrl
      → LoopSafe (after_reply p w c cmd bus ctrl r)
  unfolding after_reply commanded
  after_reply-LoopSafe w c cmd bus ctrl Reset.yes h = rw set_cmd-commanded (refl, refl)
  after_reply-LoopSafe w c cmd bus ctrl Reset.no h = h

  after_daq-LoopSafe :
      (c : Control) (ctrl : PwmCtrl)
      (r : Checked (Result (Option Measurement) FaultKind × DaqDataQueue × Bus))
      → Drives ctrl
      → LoopSafe (r >>= λ x. returns (after_daq p c ctrl x))
  unfolding after_daq
  after_daq-LoopSafe c ctrl panic h = tt
  after_daq-LoopSafe c ctrl (returns (err fk, q, bus)) h = h
  after_daq-LoopSafe c ctrl (returns (ok none, q, bus)) h = h
  after_daq-LoopSafe c ctrl (returns (ok (some m), q, bus)) h = h

  after_reconnect-LoopSafe :
      (w : World) (ctrl : PwmCtrl) (bus : Bus) (r : Poll Contact (Unit {0}))
      → Drives ctrl
      → ctrl.cmd ≡ off
      → LoopSafe (returns (after_reconnect p w ctrl bus r))
  unfolding after_reconnect
  after_reconnect-LoopSafe w ctrl bus (waits s rs) h e = (h, e)
  after_reconnect-LoopSafe w ctrl bus (returned u rs) h e = h
  after_reconnect-LoopSafe w ctrl bus unawaited h e = tt

  power_ctrl_loop-LoopSafe :
      (w : World) (ctrl : PwmCtrl) (bus : Bus) (l : Loop) (signal : Signal)
      → Drives ctrl
      → (is_acquiring (control l) ≡ false → ctrl.cmd ≡ off)
      → LoopSafe (power_ctrl_loop p w ctrl bus l signal)
  unfolding power_ctrl_loop
  power_ctrl_loop-LoopSafe w ctrl bus (acquiring c) tick h e = after_daq-LoopSafe c ctrl _ h
  power_ctrl_loop-LoopSafe w ctrl bus (acquiring c) (command cmd) h e =
      rw set_cmd-commanded
        (after_reply-LoopSafe w c cmd bus _ cmd.reset (commanded-Drives ctrl _ (w.now 0)))
  power_ctrl_loop-LoopSafe w ctrl bus (acquiring c) com_timeout h e =
      rw set_cmd-commanded (commanded-Drives ctrl off (w.now 0))
  power_ctrl_loop-LoopSafe w ctrl bus (acquiring c) _ h e = tt
  power_ctrl_loop-LoopSafe w ctrl bus (reconnecting s) signal h e =
      after_reconnect-LoopSafe w ctrl bus (wait_bat_reconnect s signal) h (e refl)

  after_loop-SafeAfter :
      (w : World) (r : Checked (LoopPoll p)) → LoopSafe r → SafeAfter (r >>= after_loop p w)
  unfolding after_loop commanded
  after_loop-SafeAfter w panic h = tt
  after_loop-SafeAfter w (returns (c, bus, waits (acquiring k) rs)) h = record {
    drives = h;
    idle_off = λ e. cc;
  }
  after_loop-SafeAfter w (returns (c, bus, waits (reconnecting s) rs)) h = record {
    drives = h.0;
    idle_off = λ e. h.1;
  }
  after_loop-SafeAfter w (returns (c, bus, returned fk rs)) h =
      rw set_cmd-commanded (record { drives = refl; idle_off = λ e. refl })
  after_loop-SafeAfter w (returns (c, bus, unawaited)) h = tt

  after_init-SafeAfter :
      (w : World) (ctrl : PwmCtrl) (rs : List BiReply) (r : Result (Unit {0}) Fault × Bus)
      → Drives ctrl
      → ctrl.cmd ≡ off
      → SafeAfter (after_init p w ctrl rs r)
  unfolding after_init
  after_init-SafeAfter w ctrl rs (ok u, bus) h e = record { drives = h; idle_off = λ x. e }
  after_init-SafeAfter w ctrl rs (err f, bus) h e = record { drives = h; idle_off = λ x. e }

  then_init-SafeAfter :
      {S : Type 0} (w : World) (b : Board p) (at : S → Phase) (r : Poll S (Unit {0}))
      → Drives b.ctrl
      → b.ctrl.cmd ≡ off
      → SafeAfter (then_init p w b at r)
  unfolding then_init
  then_init-SafeAfter w b at (waits s rs) h e = record { drives = h; idle_off = λ x. e }
  then_init-SafeAfter w b at (returned u rs) h e =
      after_init-SafeAfter w b.ctrl rs (init_i2c p (w.now 0) b.bus) h e
  then_init-SafeAfter w b at unawaited h e = tt

  then_await-SafeAfter :
      (b : Board p) (f : Fault) (r : Poll Button (Unit {0}))
      → Drives b.ctrl
      → b.ctrl.cmd ≡ off
      → SafeAfter (then_await p b f r)
  unfolding then_await
  then_await-SafeAfter b f (waits s rs) h e = record { drives = h; idle_off = λ x. e }
  then_await-SafeAfter b f (returned u rs) h e = record { drives = h; idle_off = λ x. e }
  then_await-SafeAfter b f unawaited h e = tt

  dispatch-SafeAfter :
      (at : Phase) (w : World) (b : Board p) (signal : Signal)
      → Drives b.ctrl
      → (is_acquiring at ≡ false → b.ctrl.cmd ≡ off)
      → SafeAfter (dispatch p at w b signal)
  unfolding dispatch
  dispatch-SafeAfter (boot s) w b signal h e = then_init-SafeAfter w b boot _ h (e refl)
  dispatch-SafeAfter (init_fault f s) w b signal h e =
      then_init-SafeAfter w b (init_fault f) _ h (e refl)
  dispatch-SafeAfter (control l) w b signal h e =
      after_loop-SafeAfter w _ (power_ctrl_loop-LoopSafe w b.ctrl b.bus l signal h e)
  dispatch-SafeAfter (faulted f s) w b signal h e = then_await-SafeAfter b f _ h (e refl)
  dispatch-SafeAfter (awaiting s) w b signal h e = then_init-SafeAfter w b awaiting _ h (e refl)

  -- Any signal in any safe state, whatever the world and the bus do: the state that the step leaves,
  -- if it neither panics nor is not waiting for that signal, is safe.
  pub power_task-SafeAfter :
      (w : World) (b : Board p) (signal : Signal) → IsSafe b → SafeAfter (power_task p w b signal)
  unfolding power_task
  power_task-SafeAfter w b signal h = dispatch-SafeAfter b.phase w b signal h.drives h.idle_off

-- The states that the firmware can reach from its start with an output that `PwmCtrl::new` made.
pub data Reach (p : Platform) (pwm : SimplePwm) (now : ℕ) (bus : p.twim.Bus)
    : Board p → Type 0 where
  started :
      {b : Board p} (c : PwmCtrl)
      → new p.build pwm now ≡ returns c
      → b ≡ start p c bus
      → Reach p pwm now bus b
  stepped :
      {b b' : Board p} (w : World) (signal : Signal) (rs : List BiReply)
      → Reach p pwm now bus b
      → power_task p w b signal ≡ returns (some (b', rs))
      → Reach p pwm now bus b'

pub start-IsSafe :
    (p : Platform) (pwm : SimplePwm) (now : ℕ) (bus : p.twim.Bus) (c : PwmCtrl)
    → new p.build pwm now ≡ returns c
    → IsSafe (start p c bus)
unfolding start
start-IsSafe p pwm now bus c e =
    let (d, made, idle, at, drives) = new-Drives p.build pwm now in
    let same : d ≡ c = ground arith in
    record { drives = subst Drives same drives; idle_off = λ x. rw (← same) idle }

-- In every state that the firmware can reach from its start, after any signals in any order and
-- with any answers of the bus: the peripheral holds the duty of the remembered command, and outside
-- the acquiring control loop (at boot, in a fault, waiting for a battery) that command is `off`.
pub Reach-IsSafe :
    (p : Platform) (pwm : SimplePwm) (now : ℕ) (bus : p.twim.Bus) (b : Board p)
    → Reach p pwm now bus b
    → IsSafe b
Reach-IsSafe p pwm now bus b (started c made e) = rw e (start-IsSafe p pwm now bus c made)
Reach-IsSafe p pwm now bus b (stepped {b = a} w signal rs r e) =
    subst (SafeAfter p) e (power_task-SafeAfter p w a signal (Reach-IsSafe p pwm now bus a r))
