-- ===== src/Microbit/Power/Timeout.antt =====
-- The power task when the server is silent (main.rs, lines 185 to 248).
use battery_tester.Prelude.{◌≡◌, refl, ap, sym, ◌∙◌, ℕ, false, List, [], ◌∷◌, some, returns, ◌>>=◌}
use battery_tester.Common.{BiReply}
use battery_tester.Microbit.Signal.{Signal, com_timeout}
use battery_tester.Microbit.Pwm.{off, SimplePwm}
use battery_tester.Microbit.Pwm.Output.{commanded, duty_now, trimmed, set_cmd-commanded}
use battery_tester.Microbit.Acquire.{Platform, World}
use battery_tester.Microbit.Power.{
  Control, acquiring, reconnecting, Phase, boot, init_fault, control, faulted, awaiting, Board,
  power_ctrl_loop, after_loop, power_task,
}
use battery_tester.Microbit.Power.Delivery.{go_on, run}
use battery_tester.Microbit.Power.Safety.{is_acquiring, Reach, Reach-IsSafe}
use battery_tester.Microbit.Power.Off.{commands_in, AllOff, IsOff, stays, run_reaches, run_off}

module _ (p : Platform) where
  -- What the timeout leaves of a board that acquires data.
  turned_off : World → Board p → Board p
  unfolding commanded
  turned_off w b = record b { ctrl = commanded b.ctrl off (w.now 0) }

  timeout_step :
      (w : World) (b : Board p) (c : Control)
      → b.phase ≡ control (acquiring c)
      → power_task p w b com_timeout ≡ returns (some (turned_off w b, []))
  unfolding power_task power_ctrl_loop after_loop turned_off
  timeout_step w b c h = rw (h, set_cmd-commanded) refl

  run_timeout :
      (w : World) (es : List (World × Signal)) (b b' : Board p) (rs : List BiReply) (at : Phase)
      → b.phase ≡ at
      → (is_acquiring b.phase ≡ false → b.ctrl.cmd ≡ off)
      → AllOff (commands_in es)
      → run p b ((w, com_timeout) ∷ es) ≡ returns (b', rs)
      → b'.ctrl.cmd ≡ off
  unfolding run
  run_timeout w es b b' rs (control (acquiring c)) h idle a ran =
      stays p (IsOff p) (turned_off w b) b' (returns (some (turned_off w b, []))) rs
        (λ x. run p x es) (unfold turned_off in refl) (unfold turned_off in refl)
        (λ x qs. run_off p es x b' qs a)
        (ap (λ o. o >>= go_on b (λ x. run p x es)) (sym (timeout_step w b c h)) ∙ ran)
  run_timeout w es b b' rs (control (reconnecting s)) h idle a ran =
      run_off p ((w, com_timeout) ∷ es) b b' rs a (idle (rw h refl)) ran
  run_timeout w es b b' rs (boot s) h idle a ran =
      run_off p ((w, com_timeout) ∷ es) b b' rs a (idle (rw h refl)) ran
  run_timeout w es b b' rs (init_fault f s) h idle a ran =
      run_off p ((w, com_timeout) ∷ es) b b' rs a (idle (rw h refl)) ran
  run_timeout w es b b' rs (faulted f s) h idle a ran =
      run_off p ((w, com_timeout) ∷ es) b b' rs a (idle (rw h refl)) ran
  run_timeout w es b b' rs (awaiting s) h idle a ran =
      run_off p ((w, com_timeout) ∷ es) b b' rs a (idle (rw h refl)) ran

  -- In every state that the firmware can reach from its start: once the server has been silent for
  -- the time of the timeout, over any further signals with any answers of the bus among which no
  -- command asks for the load, the heater is commanded off, and the peripheral holds the duty of `off`.
  pub timeout_turns_off :
      (pwm : SimplePwm) (now : ℕ) (bus : p.twim.Bus) (b : Board p)
      → Reach p pwm now bus b
      → (w : World) (es : List (World × Signal)) → AllOff (commands_in es)
      → (b' : Board p) (rs : List BiReply) → run p b ((w, com_timeout) ∷ es) ≡ returns (b', rs)
      → (b'.ctrl.cmd ≡ off) × (duty_now b'.ctrl.pwm ≡ some (trimmed off))
  timeout_turns_off pwm now bus b r w es a b' rs ran =
      let safe = Reach-IsSafe p pwm now bus b r in
      let off_at_end = run_timeout w es b b' rs b.phase refl safe.idle_off a ran in
      let end =
        Reach-IsSafe p pwm now bus b'
          (run_reaches p pwm now bus ((w, com_timeout) ∷ es) b b' rs r ran) in
      (off_at_end, end.drives ∙ ap (λ x. some (trimmed x)) off_at_end)
