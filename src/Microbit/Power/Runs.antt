-- ===== src/Microbit/Power/Runs.antt =====
-- Runs of a release build of the firmware (main.rs, lines 134 to 285).
use battery_tester.Prelude.{
  ℕ, ◌≡◌, refl, List, [], ◌∷◌, ◌++◌, none, some, Checked, returns, panic, ◌>>=◌, release, arith,
}
use battery_tester.Common.{BiReply}
use battery_tester.Microbit.Signal.{Signal}
use battery_tester.Microbit.Pwm.{PwmCtrl, SimplePwm, new}
use battery_tester.Microbit.Pwm.Output.{new-Drives}
use battery_tester.Microbit.Acquire.Running.{IsClock, queue_later}
use battery_tester.Microbit.Acquire.{Platform, World}
use battery_tester.Microbit.Power.Delivery.{go_on, run}
use battery_tester.Microbit.Power.{
  acquiring, reconnecting, Phase, boot, init_fault, control, faulted, awaiting, Board, power_task,
  start, Outcome,
}
use battery_tester.Microbit.Power.Running.{IsLive, PhaseLive, RunsOn, power_task-RunsOn}

-- Worlds whose clocks never run backwards, from `t`.
abbrev pub Onward : ℕ → List (World × Signal) → Type 0
Onward t [] = Unit
Onward t ((w, signal) ∷ es) = (t' : ℕ) × IsClock w t t' × Onward t' es

continues :
    (p : Platform) (t : ℕ) (b : Board p) (o : Outcome p)
    (rest : Board p → Checked (Board p × List BiReply))
    → RunsOn p t o
    → IsLive b t
    → ((a : Board p) → IsLive a t → (r : Board p × List BiReply) × (rest a ≡ returns r))
    → (r : Board p × List BiReply) × ((o >>= go_on b rest) ≡ returns r)
continues p t b panic rest h k f = absurd h
continues p t b (returns none) rest h k f = f b k
continues p t b (returns (some (a, rs))) rest h k f =
    let (r, ran) = f a h in ((r.0, rs ++ r.1), rw ran refl)

phase_later :
    {w : World} {t t' : ℕ} (at : Phase) → PhaseLive at t → IsClock w t t' → PhaseLive at t'
phase_later (control (acquiring c)) h clock = queue_later h clock
phase_later (control (reconnecting s)) h clock = tt
phase_later (boot s) h clock = tt
phase_later (init_fault f s) h clock = tt
phase_later (faulted f s) h clock = tt
phase_later (awaiting s) h clock = tt

later-IsLive :
    {p : Platform} {w : World} {b : Board p} {t t' : ℕ} → IsLive b t → IsClock w t t' → IsLive b t'
later-IsLive {b = b} h clock = record {
  changed = omega (arith, h.changed, clock.not_before 0, clock.not_after 0);
  acquires = phase_later b.phase h.acquires clock;
}

start-IsLive :
    (p : Platform) (c : PwmCtrl) (bus : p.twim.Bus) (now : ℕ)
    → c.change_time ≡ now
    → IsLive (start p c bus) now
unfolding start
start-IsLive p c bus now e = record { changed = omega arith; acquires = tt }

run_returns :
    (p : Platform)
    → p.build ≡ release
    → (es : List (World × Signal)) (t : ℕ) (b : Board p) → Onward t es
    → IsLive b t
    → (r : Board p × List BiReply) × (run p b es ≡ returns r)
unfolding run
run_returns p m [] t b o h = ((b, []), refl)
run_returns p m ((w, signal) ∷ es) t b (t', clock, o) h =
    continues p t' b (power_task p w b signal) (λ a. run p a es)
      (power_task-RunsOn p m w t t' clock b signal h) (later-IsLive h clock)
      (λ a k. run_returns p m es t' a o k)

-- A release build of the firmware, from its start and over any signals in any order, with any
-- answers of the bus and of the battery input, while the clock never runs backwards: `PwmCtrl::new`
-- and all steps of the power task come to an end without a panic.
pub firmware_keeps_running :
    (p : Platform) (pwm : SimplePwm) (now : ℕ) (bus : p.twim.Bus) (es : List (World × Signal))
    → p.build ≡ release
    → Onward now es
    → (c : PwmCtrl) × (new p.build pwm now ≡ returns c)
      × ((r : Board p × List BiReply) × (run p (start p c bus) es ≡ returns r))
firmware_keeps_running p pwm now bus es m o =
    let (c, made, idle, at, drives) = new-Drives p.build pwm now in
    (c, made, run_returns p m es now (start p c bus) o (start-IsLive p c bus now at))
