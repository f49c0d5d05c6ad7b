-- ===== src/Microbit/Power/Off/Heating.antt =====
-- What a command does to the heater (main.rs, lines 134 to 248, the arm of lines 217 to 238).
use battery_tester.Prelude.{
  ◌≡◌, refl, ◌↔◌, ◌>>=◌, ℕ, List, Option, some, returns, true, false, arith,
}
use mathlib.Core.Path.{subst}
use battery_tester.Common.{BiCommand, BiReply, LoadState, Reset}
use battery_tester.Microbit.Signal.{command}
use battery_tester.Microbit.Wait.{wait_bat_reconnect}
use battery_tester.Microbit.Pwm.{HeaterCmd, PwmCtrl, SimplePwm, off}
use battery_tester.Microbit.Pwm.Output.{duty_now, trimmed, commanded, set_cmd-commanded}
use battery_tester.Microbit.Acquire.{Platform, World}
use battery_tester.Microbit.Power.{
  Control, acquiring, reconnecting, Phase, boot, init_fault, control, faulted, awaiting, Board,
  on_command, after_reply, power_ctrl_loop, after_loop, after_reconnect, dispatch, power_task,
  heater_of,
}
use battery_tester.Microbit.Power.Safety.{
  is_acquiring, IsSafe, SafeAfter, Reach, Reach-IsSafe, power_task-SafeAfter,
}
use battery_tester.Microbit.Power.Off.{
  After, reconnect-LoopOff, after_loop-OffAfter, then_init-OffAfter, await-OffAfter,
}

-- What a command leaves the heater at, by where the task stands.
abbrev asked : Phase → LoadState → Reset → HeaterCmd
asked (control (acquiring c)) LoadState.on Reset.no = HeaterCmd.on
asked _ _ _ = off

module _ (p : Platform) where
  open p use {build, twim.{Bus}}

  reply_heats :
      (w : World) (k c : Control) (cmd : BiCommand) (bus : Bus) (ctrl : PwmCtrl) (l : LoadState)
      (r : Reset)
      → After p
          (λ b'. b'.ctrl.cmd ≡ asked (control (acquiring k)) l r)
          (after_reply p w c cmd bus (commanded ctrl (heater_of l) (w.now 0)) r >>= after_loop p w)
  unfolding after_reply after_loop commanded
  reply_heats w k c cmd bus ctrl LoadState.on Reset.no = refl
  reply_heats w k c cmd bus ctrl LoadState.off Reset.no = refl
  reply_heats w k c cmd bus ctrl LoadState.on Reset.yes = rw set_cmd-commanded refl
  reply_heats w k c cmd bus ctrl LoadState.off Reset.yes = rw set_cmd-commanded refl

  dispatch_heats :
      (at : Phase) (w : World) (b : Board p) (cmd : BiCommand)
      → (is_acquiring at ≡ false → b.ctrl.cmd ≡ off)
      → After p (λ b'. b'.ctrl.cmd ≡ asked at cmd.load cmd.reset) (dispatch p at w b (command cmd))
  unfolding dispatch power_ctrl_loop on_command
  dispatch_heats (boot s) w b cmd h = then_init-OffAfter p w b boot _ (h refl)
  dispatch_heats (init_fault f s) w b cmd h = then_init-OffAfter p w b (init_fault f) _ (h refl)
  dispatch_heats (control (acquiring c)) w b cmd h =
      rw set_cmd-commanded (reply_heats w c c cmd b.bus b.ctrl cmd.load cmd.reset)
  dispatch_heats (control (reconnecting s)) w b cmd h =
      after_loop-OffAfter p w
        (returns (after_reconnect p w b.ctrl b.bus (wait_bat_reconnect s (command cmd))))
        (reconnect-LoopOff p w b.ctrl b.bus (wait_bat_reconnect s (command cmd)) (h refl))
  dispatch_heats (faulted f s) w b cmd h = await-OffAfter p b f _ (h refl)
  dispatch_heats (awaiting s) w b cmd h = then_init-OffAfter p w b awaiting _ (h refl)

duty_asked :
    (at : Phase) (l : LoadState) (r : Reset) (duty : Option ℕ)
    → duty ≡ some (trimmed (asked at l r))
    → (duty ≡ some 17984) ↔ ((is_acquiring at ≡ true) × (l ≡ LoadState.on) × (r ≡ Reset.no))
duty_asked (control (acquiring c)) LoadState.on Reset.no duty e = ground arith
duty_asked (control (acquiring c)) LoadState.on Reset.yes duty e = ground arith
duty_asked (control (acquiring c)) LoadState.off r duty e = ground arith
duty_asked (control (reconnecting s)) l r duty e = ground arith
duty_asked (boot s) l r duty e = ground arith
duty_asked (init_fault f s) l r duty e = ground arith
duty_asked (faulted f s) l r duty e = ground arith
duty_asked (awaiting s) l r duty e = ground arith

-- In every state that the firmware can reach from its start, a command that it takes leaves the
-- peripheral with the duty of heating, 17984, exactly when the task acquires data and the command asks
-- for the load and not for a reset.
pub command_heats :
    (p : Platform) (pwm : SimplePwm) (now : ℕ) (bus : p.twim.Bus) (b : Board p)
    → Reach p pwm now bus b
    → (w : World) (cmd : BiCommand) (b' : Board p) (rs : List BiReply)
    → power_task p w b (command cmd) ≡ returns (some (b', rs))
    → (duty_now b'.ctrl.pwm ≡ some 17984)
      ↔ ((is_acquiring b.phase ≡ true) × (cmd.load ≡ LoadState.on) × (cmd.reset ≡ Reset.no))
unfolding power_task
command_heats p pwm now bus b reached w cmd b' rs e =
    let safe = Reach-IsSafe p pwm now bus b reached in
    let safe' : IsSafe b' = subst (SafeAfter p) e (power_task-SafeAfter p w b (command cmd) safe) in
    let to : b'.ctrl.cmd ≡ asked b.phase cmd.load cmd.reset =
      subst (After p (λ x. x.ctrl.cmd ≡ asked b.phase cmd.load cmd.reset)) e
        (dispatch_heats p b.phase w b cmd safe.idle_off) in
    duty_asked b.phase cmd.load cmd.reset (duty_now b'.ctrl.pwm)
      (subst (λ x. duty_now b'.ctrl.pwm ≡ some (trimmed x)) to safe'.drives)
