-- ===== src/Microbit/Power/Replies.antt =====
-- How many replies the power task sends.
use battery_tester.Prelude.{
  ℕ, ◌≡◌, refl, List, Option, none, some, Checked, returns, panic, ◌>>=◌, Result, ok, err, length,
  arith,
}
use mathlib.Core.Path.{subst}
use battery_tester.Common.{BiCommand, BiReply, Fault, FaultKind, Measurement, Reset}
use battery_tester.Microbit.Signal.{
  Signal, command, tick, com_timeout, Poll, waits, returned, unawaited,
}
use battery_tester.Microbit.Wait.{
  Contact, Button, down, wait_bat_reconnect, wait_bat_present, wait_fault_clear,
}
use battery_tester.Microbit.Daq.{DaqDataQueue}
use battery_tester.Microbit.Pwm.{PwmCtrl}
use battery_tester.Microbit.Pwm.Output.{set_cmd-commanded}
use battery_tester.Microbit.Acquire.{Platform, World, init_i2c}
use battery_tester.Microbit.Power.{
  Control, Loop, acquiring, reconnecting, Phase, boot, init_fault, control, faulted, awaiting,
  Board, after_reply, after_daq, after_reconnect, power_ctrl_loop, after_loop, after_init,
  then_init, then_await, dispatch, power_task, LoopPoll, Outcome,
}

-- The replies that a step owes: one to a command, and one when the button has cleared a fault by
-- being held down.
abbrev pub owed : Phase → Signal → ℕ
owed phase (command cmd) = 1
owed (init_fault f down) tick = 1
owed (faulted f down) tick = 1
owed _ _ = 0

abbrev PollOwes {ℓ κ} : {S : Type ℓ} {R : Type κ} → ℕ → Poll S R → Type 0
PollOwes n (waits s rs) = length rs ≡ n
PollOwes n (returned r rs) = length rs ≡ n
PollOwes n unawaited = Unit

-- What each wait owes, by the signal alone or by the state of the button.
abbrev answers : Signal → ℕ
answers (command cmd) = 1
answers _ = 0

abbrev clears : Button → Signal → ℕ
clears b (command cmd) = 1
clears down tick = 1
clears _ _ = 0

wait_bat_reconnect-PollOwes :
    (s : Contact) (signal : Signal) → PollOwes (answers signal) (wait_bat_reconnect s signal)
unfolding wait_bat_reconnect
wait_bat_reconnect-PollOwes s signal = ground arith

wait_bat_present-PollOwes :
    (s : Contact) (signal : Signal) → PollOwes (answers signal) (wait_bat_present s signal)
unfolding wait_bat_present
wait_bat_present-PollOwes s signal = ground arith

wait_fault_clear-PollOwes :
    (f : Fault) (s : Button) (signal : Signal)
    → PollOwes (clears s signal) (wait_fault_clear f s signal)
unfolding wait_fault_clear
wait_fault_clear-PollOwes f s signal = ground arith

owed_boot : (s : Contact) (signal : Signal) → owed (boot s) signal ≡ answers signal
owed_boot s signal = ground arith

owed_awaiting : (s : Contact) (signal : Signal) → owed (awaiting s) signal ≡ answers signal
owed_awaiting s signal = ground arith

owed_control : (l : Loop) (signal : Signal) → owed (control l) signal ≡ answers signal
owed_control l signal = ground arith

owed_init :
    (f : Fault) (s : Button) (signal : Signal) → owed (init_fault f s) signal ≡ clears s signal
owed_init f s signal = ground arith

owed_faulted :
    (f : Fault) (s : Button) (signal : Signal) → owed (faulted f s) signal ≡ clears s signal
owed_faulted f s signal = ground arith

module _ (p : Platform) where
  open p use {build, twim.{Bus}}

  abbrev LoopOwes : ℕ → Checked (LoopPoll p) → Type 0
  LoopOwes n panic = Unit
  LoopOwes n (returns (c, bus, r)) = PollOwes n r

  abbrev pub Owes : ℕ → Outcome p → Type 0
  Owes n panic = Unit
  Owes n (returns none) = Unit
  Owes n (returns (some (b, rs))) = length rs ≡ n

  after_reply-LoopOwes :
      (w : World) (c : Control) (cmd : BiCommand) (bus : Bus) (ctrl : PwmCtrl) (r : Reset)
      → LoopOwes 1 (after_reply p w c cmd bus ctrl r)
  unfolding after_reply
  after_reply-LoopOwes w c cmd bus ctrl Reset.yes = rw set_cmd-commanded refl
  after_reply-LoopOwes w c cmd bus ctrl Reset.no = refl

  after_daq-LoopOwes :
      (c : Control) (ctrl : PwmCtrl)
      (r : Checked (Result (Option Measurement) FaultKind × DaqDataQueue × Bus))
      → LoopOwes 0 (r >>= λ x. returns (after_daq p c ctrl x))
  unfolding after_daq
  after_daq-LoopOwes c ctrl panic = tt
  after_daq-LoopOwes c ctrl (returns (err fk, q, bus)) = refl
  after_daq-LoopOwes c ctrl (returns (ok none, q, bus)) = refl
  after_daq-LoopOwes c ctrl (returns (ok (some m), q, bus)) = refl

  after_reconnect-LoopOwes :
      (w : World) (ctrl : PwmCtrl) (bus : Bus) (n : ℕ) (r : Poll Contact (Unit {0}))
      → PollOwes n r
      → LoopOwes n (returns (after_reconnect p w ctrl bus r))
  unfolding after_reconnect
  after_reconnect-LoopOwes w ctrl bus n (waits s rs) h = h
  after_reconnect-LoopOwes w ctrl bus n (returned u rs) h = h
  after_reconnect-LoopOwes w ctrl bus n unawaited h = tt

  power_ctrl_loop-LoopOwes :
      (w : World) (ctrl : PwmCtrl) (bus : Bus) (l : Loop) (signal : Signal)
      → LoopOwes (answers signal) (power_ctrl_loop p w ctrl bus l signal)
  unfolding power_ctrl_loop
  power_ctrl_loop-LoopOwes w ctrl bus (acquiring c) tick = after_daq-LoopOwes c ctrl _
  power_ctrl_loop-LoopOwes w ctrl bus (acquiring c) (command cmd) =
      rw set_cmd-commanded (after_reply-LoopOwes w c cmd bus _ cmd.reset)
  power_ctrl_loop-LoopOwes w ctrl bus (acquiring c) com_timeout = rw set_cmd-commanded refl
  power_ctrl_loop-LoopOwes w ctrl bus (acquiring c) _ = tt
  power_ctrl_loop-LoopOwes w ctrl bus (reconnecting s) signal =
      after_reconnect-LoopOwes w ctrl bus _ _ (wait_bat_reconnect-PollOwes s signal)

  after_loop-Owes :
      (w : World) (n : ℕ) (r : Checked (LoopPoll p)) → LoopOwes n r → Owes n (r >>= after_loop p w)
  unfolding after_loop
  after_loop-Owes w n panic h = tt
  after_loop-Owes w n (returns (c, bus, waits l rs)) h = h
  after_loop-Owes w n (returns (c, bus, returned fk rs)) h = rw set_cmd-commanded h
  after_loop-Owes w n (returns (c, bus, unawaited)) h = tt

  after_init-Owes :
      (w : World) (ctrl : PwmCtrl) (rs : List BiReply) (n : ℕ) (r : Result (Unit {0}) Fault × Bus)
      → length rs ≡ n
      → Owes n (after_init p w ctrl rs r)
  unfolding after_init
  after_init-Owes w ctrl rs n (ok u, bus) h = h
  after_init-Owes w ctrl rs n (err f, bus) h = h

  then_init-Owes :
      {S : Type 0} (w : World) (b : Board p) (at : S → Phase) (n : ℕ) (r : Poll S (Unit {0}))
      → PollOwes n r
      → Owes n (then_init p w b at r)
  unfolding then_init
  then_init-Owes w b at n (waits s rs) h = h
  then_init-Owes w b at n (returned u rs) h =
      after_init-Owes w b.ctrl rs n (init_i2c p (w.now 0) b.bus) h
  then_init-Owes w b at n unawaited h = tt

  then_await-Owes :
      (b : Board p) (f : Fault) (n : ℕ) (r : Poll Button (Unit {0}))
      → PollOwes n r
      → Owes n (then_await p b f r)
  unfolding then_await
  then_await-Owes b f n (waits s rs) h = h
  then_await-Owes b f n (returned u rs) h = h
  then_await-Owes b f n unawaited h = tt

  dispatch-Owes :
      (at : Phase) (w : World) (b : Board p) (signal : Signal)
      → Owes (owed at signal) (dispatch p at w b signal)
  unfolding dispatch
  dispatch-Owes (boot s) w b signal =
      rw (owed_boot s signal) (then_init-Owes w b boot _ _ (wait_bat_reconnect-PollOwes s signal))
  dispatch-Owes (init_fault f s) w b signal =
      rw (owed_init f s signal)
        (then_init-Owes w b (init_fault f) _ _ (wait_fault_clear-PollOwes f s signal))
  dispatch-Owes (control l) w b signal =
      rw (owed_control l signal)
        (after_loop-Owes w _ _ (power_ctrl_loop-LoopOwes w b.ctrl b.bus l signal))
  dispatch-Owes (faulted f s) w b signal =
      rw (owed_faulted f s signal) (then_await-Owes b f _ _ (wait_fault_clear-PollOwes f s signal))
  dispatch-Owes (awaiting s) w b signal =
      rw (owed_awaiting s signal)
        (then_init-Owes w b awaiting _ _ (wait_bat_present-PollOwes s signal))

  -- A step that the task takes on a signal, in any state and world, sends exactly one reply if the
  -- signal is a command or the button held down to clear a fault, and none otherwise.
  pub power_task-replies :
      (w : World) (b : Board p) (signal : Signal) (b' : Board p) (rs : List BiReply)
      → power_task p w b signal ≡ returns (some (b', rs))
      → length rs ≡ owed b.phase signal
  unfolding power_task
  power_task-replies w b signal b' rs e =
      subst (Owes (owed b.phase signal)) e (dispatch-Owes b.phase w b signal)
