-- ===== src/Microbit/Power/Off.antt =====
-- The power task under commands that leave the load off (main.rs, lines 134 to 248).
pub mod Heating
use battery_tester.Prelude.{
  ℕ, ◌≡◌, refl, ap, ◌∙◌, List, [], ◌∷◌, ◌++◌, Option, none, some, Checked, returns, panic, ◌>>=◌,
  Result, ok, err, arith,
}
use mathlib.Core.Path.{subst}
use battery_tester.Common.{BiCommand, BiReply, Fault, FaultKind, LoadState, Measurement, Reset}
use battery_tester.Microbit.Signal.{
  Signal, command, tick, com_timeout, bat_rising, bat_high, bat_low, btn_fell, btn_high, Poll,
  waits, returned, unawaited,
}
use battery_tester.Microbit.Wait.{Contact, Button, wait_bat_reconnect}
use battery_tester.Microbit.Daq.{DaqDataQueue}
use battery_tester.Microbit.Pwm.{off, PwmCtrl, SimplePwm}
use battery_tester.Microbit.Pwm.Output.{commanded, set_cmd-commanded}
use battery_tester.Microbit.Acquire.{Platform, World, init_i2c}
use battery_tester.Microbit.Power.{
  Control, Loop, acquiring, reconnecting, Phase, boot, init_fault, control, faulted, awaiting,
  Board, after_reply, after_daq, after_reconnect, power_ctrl_loop, after_loop, after_init,
  then_init, then_await, dispatch, power_task, LoopPoll, Outcome,
}
use battery_tester.Microbit.Power.Delivery.{go_on, run}
use battery_tester.Microbit.Power.Safety.{Reach, stepped}

-- The commands among some signals.
abbrev pub commands_in : List (World × Signal) → List BiCommand
commands_in [] = []
commands_in ((w, command cmd) ∷ es) = cmd ∷ commands_in es
commands_in ((w, _) ∷ es) = commands_in es

abbrev pub AllOff : List BiCommand → Type 0
AllOff [] = Unit
AllOff (c ∷ cs) = (c.load ≡ LoadState.off) × AllOff cs

-- A signal that does not ask for the load.
abbrev AsksOff : Signal → Type 0
AsksOff (command cmd) = cmd.load ≡ LoadState.off
AsksOff _ = Unit

module _ (p : Platform) where
  open p use {build, twim.{Bus}}

  abbrev LoopOff : Checked (LoopPoll p) → Type 0
  LoopOff panic = Unit
  LoopOff (returns (c, bus, r)) = c.cmd ≡ off

  -- A step leads to a state of some kind, where it leads to one.
  abbrev pub After : (Board p → Type 0) → Outcome p → Type 0
  After P panic = Unit
  After P (returns none) = Unit
  After P (returns (some (b, rs))) = P b

  abbrev pub IsOff : Board p → Type 0
  IsOff b = b.ctrl.cmd ≡ off

  abbrev OffAfter : Outcome p → Type 0
  OffAfter = After IsOff

  reply-LoopOff :
      (w : World) (c : Control) (cmd : BiCommand) (bus : Bus) (ctrl : PwmCtrl) (r : Reset)
      → ctrl.cmd ≡ off
      → LoopOff (after_reply p w c cmd bus ctrl r)
  unfolding after_reply commanded
  reply-LoopOff w c cmd bus ctrl Reset.yes h = rw set_cmd-commanded refl
  reply-LoopOff w c cmd bus ctrl Reset.no h = h

  daq-LoopOff :
      (c : Control) (ctrl : PwmCtrl)
      (r : Checked (Result (Option Measurement) FaultKind × DaqDataQueue × Bus))
      → ctrl.cmd ≡ off
      → LoopOff (r >>= λ x. returns (after_daq p c ctrl x))
  unfolding after_daq
  daq-LoopOff c ctrl panic h = tt
  daq-LoopOff c ctrl (returns (err fk, q, bus)) h = h
  daq-LoopOff c ctrl (returns (ok none, q, bus)) h = h
  daq-LoopOff c ctrl (returns (ok (some m), q, bus)) h = h

  reconnect-LoopOff :
      (w : World) (ctrl : PwmCtrl) (bus : Bus) (r : Poll Contact (Unit {0}))
      → ctrl.cmd ≡ off
      → LoopOff (returns (after_reconnect p w ctrl bus r))
  unfolding after_reconnect
  reconnect-LoopOff w ctrl bus (waits s rs) h = h
  reconnect-LoopOff w ctrl bus (returned u rs) h = h
  reconnect-LoopOff w ctrl bus unawaited h = h

  loop-LoopOff :
      (w : World) (ctrl : PwmCtrl) (bus : Bus) (l : Loop) (signal : Signal)
      → AsksOff signal
      → ctrl.cmd ≡ off
      → LoopOff (power_ctrl_loop p w ctrl bus l signal)
  unfolding power_ctrl_loop commanded
  loop-LoopOff w ctrl bus (acquiring c) tick a h = daq-LoopOff c ctrl _ h
  loop-LoopOff w ctrl bus (acquiring c) (command cmd) a h =
      rw (a, set_cmd-commanded)
        (reply-LoopOff w c cmd bus (commanded ctrl off (w.now 0)) cmd.reset refl)
  loop-LoopOff w ctrl bus (acquiring c) com_timeout a h = rw set_cmd-commanded refl
  loop-LoopOff w ctrl bus (acquiring c) _ a h = h
  loop-LoopOff w ctrl bus (reconnecting s) signal a h =
      reconnect-LoopOff w ctrl bus (wait_bat_reconnect s signal) h

  after_loop-OffAfter :
      (w : World) (r : Checked (LoopPoll p)) → LoopOff r → OffAfter (r >>= after_loop p w)
  unfolding after_loop commanded
  after_loop-OffAfter w panic h = tt
  after_loop-OffAfter w (returns (c, bus, waits l rs)) h = h
  after_loop-OffAfter w (returns (c, bus, returned fk rs)) h = rw set_cmd-commanded refl
  after_loop-OffAfter w (returns (c, bus, unawaited)) h = tt

  init-OffAfter :
      (w : World) (ctrl : PwmCtrl) (rs : List BiReply) (r : Result (Unit {0}) Fault × Bus)
      → ctrl.cmd ≡ off
      → OffAfter (after_init p w ctrl rs r)
  unfolding after_init
  init-OffAfter w ctrl rs (ok u, bus) h = h
  init-OffAfter w ctrl rs (err f, bus) h = h

  then_init-OffAfter :
      {S : Type 0} (w : World) (b : Board p) (at : S → Phase) (r : Poll S (Unit {0}))
      → b.ctrl.cmd ≡ off
      → OffAfter (then_init p w b at r)
  unfolding then_init
  then_init-OffAfter w b at (waits s rs) h = h
  then_init-OffAfter w b at (returned u rs) h =
      init-OffAfter w b.ctrl rs (init_i2c p (w.now 0) b.bus) h
  then_init-OffAfter w b at unawaited h = tt

  await-OffAfter :
      (b : Board p) (f : Fault) (r : Poll Button (Unit {0}))
      → b.ctrl.cmd ≡ off
      → OffAfter (then_await p b f r)
  unfolding then_await
  await-OffAfter b f (waits s rs) h = h
  await-OffAfter b f (returned u rs) h = h
  await-OffAfter b f unawaited h = tt

  dispatch-OffAfter :
      (at : Phase) (w : World) (b : Board p) (signal : Signal)
      → AsksOff signal
      → b.ctrl.cmd ≡ off
      → OffAfter (dispatch p at w b signal)
  unfolding dispatch
  dispatch-OffAfter (boot s) w b signal a h = then_init-OffAfter w b boot _ h
  dispatch-OffAfter (init_fault f s) w b signal a h = then_init-OffAfter w b (init_fault f) _ h
  dispatch-OffAfter (control l) w b signal a h =
      after_loop-OffAfter w _ (loop-LoopOff w b.ctrl b.bus l signal a h)
  dispatch-OffAfter (faulted f s) w b signal a h = await-OffAfter b f _ h
  dispatch-OffAfter (awaiting s) w b signal a h = then_init-OffAfter w b awaiting _ h

  first_asks :
      (w : World) (signal : Signal) (es : List (World × Signal))
      → AllOff (commands_in ((w, signal) ∷ es))
      → AsksOff signal × AllOff (commands_in es)
  first_asks w (command cmd) es h = h
  first_asks w tick es h = (tt, h)
  first_asks w com_timeout es h = (tt, h)
  first_asks w bat_rising es h = (tt, h)
  first_asks w bat_high es h = (tt, h)
  first_asks w bat_low es h = (tt, h)
  first_asks w btn_fell es h = (tt, h)
  first_asks w btn_high es h = (tt, h)

  -- The rest of a run, after one step.
  pub stays :
      (P : Board p → Type 0) (b b' : Board p) (o : Outcome p) (rs : List BiReply)
      (rest : Board p → Checked (Board p × List BiReply))
      → After P o
      → P b
      → ((a : Board p) (qs : List BiReply) → P a → rest a ≡ returns (b', qs) → P b')
      → (o >>= go_on b rest) ≡ returns (b', rs)
      → P b'
  stays P b b' panic rs rest h e k ran = absurd (ground arith)
  stays P b b' (returns none) rs rest h e k ran = k b rs e ran
  stays P b b' (returns (some (a, qs))) rs rest h e k ran = after (rest a) refl ran
    where
      after :
          (r : Checked (Board p × List BiReply))
          → rest a ≡ r
          → (let all : Checked (Board p × List BiReply) = r >>= λ x. returns (x.0, qs ++ x.1) in
              all ≡ returns (b', rs))
          → P b'
      after panic at went = absurd (ground arith)
      after (returns (end, more)) at went =
          let same : end ≡ b' = ground arith in k a more h (at ∙ ap (λ x. returns (x, more)) same)

  leads_to :
      (pwm : SimplePwm) (now : ℕ) (bus : Bus) (w : World) (b : Board p) (signal : Signal)
      (o : Outcome p)
      → Reach p pwm now bus b
      → power_task p w b signal ≡ o
      → After (Reach p pwm now bus) o
  leads_to pwm now bus w b signal panic r e = tt
  leads_to pwm now bus w b signal (returns none) r e = tt
  leads_to pwm now bus w b signal (returns (some (a, rs))) r e = stepped {b = b} w signal rs r e

  -- A run of the firmware stays among the states that it can reach.
  pub run_reaches :
      (pwm : SimplePwm) (now : ℕ) (bus : Bus) (es : List (World × Signal)) (b b' : Board p)
      (rs : List BiReply)
      → Reach p pwm now bus b
      → run p b es ≡ returns (b', rs)
      → Reach p pwm now bus b'
  unfolding run
  run_reaches pwm now bus [] b b' rs r ran =
      let same : b ≡ b' = ground arith in subst (Reach p pwm now bus) same r
  run_reaches pwm now bus ((w, signal) ∷ es) b b' rs r ran =
      stays (Reach p pwm now bus) b b' (power_task p w b signal) rs (λ x. run p x es)
        (leads_to pwm now bus w b signal (power_task p w b signal) r refl) r
        (λ x qs. run_reaches pwm now bus es x b' qs) ran

  -- Over any signals among which no command asks for the load, a board whose heater is off keeps it off.
  pub run_off :
      (es : List (World × Signal)) (b b' : Board p) (rs : List BiReply)
      → AllOff (commands_in es)
      → b.ctrl.cmd ≡ off
      → run p b es ≡ returns (b', rs)
      → b'.ctrl.cmd ≡ off
  unfolding run power_task
  run_off [] b b' rs a h ran =
      let same : b ≡ b' = ground arith in subst (λ x. x.ctrl.cmd ≡ off) same h
  run_off ((w, signal) ∷ es) b b' rs a h ran =
      let (asks, later) = first_asks w signal es a in
      stays IsOff b b' (power_task p w b signal) rs (λ x. run p x es)
        (dispatch-OffAfter b.phase w b signal asks h) h (λ x qs. run_off es x b' qs later) ran
