-- ===== src/Microbit/Pwm/Watchdog.antt =====
-- When the watchdog raises a fault (pwm.rs, lines 40 to 82).
use battery_tester.Prelude.{
  ℕ, ◌+◌, ◌-◌, ◌≤◌, ◌<◌, ◌≡◌, ◌⊎◌, ◌↔◌, refl, inl, inr, Bool-cases, ltb, le→not-ltb, Result,
  returns, Build, release, ok, err, arith,
}
use battery_tester.Common.{AllowUndercurrent, no, FaultKind, MilliAmp, MilliVolt}
use battery_tester.Microbit.Pwm.{HeaterCmd, off, on, PwmCtrl, judge, current_in_range, watchdog}

module _ (build : Build) (as_millis : ℕ → ℕ) (c : PwmCtrl) (v : MilliVolt) (i : MilliAmp)
    (allow : AllowUndercurrent) (now : ℕ) where
  -- More than 25 ms have passed since the last change of the command.
  abbrev pub Settled : Type 0
  Settled = 25 < as_millis (now - c.change_time)

  abbrev pub TooMuch : Type 0
  TooMuch = ((c.cmd ≡ off) × (100 < i.raw)) ⊎ ((c.cmd ≡ on) × (v.raw + 200 < i.raw))

  abbrev pub TooLittle : Type 0
  TooLittle = (c.cmd ≡ on) × (allow ≡ no) × (i.raw + 200 < v.raw)

  -- For a clock that has not run backwards and a voltage of 200 to 65335 mV, in both builds: an
  -- overcurrent is reported exactly when the output has settled and the current is above 100 mA
  -- with the heater off, or more than 200 above the voltage's number with the heater on; an
  -- undercurrent exactly when it has settled, the heater is on, undercurrent is not allowed, and
  -- the current is more than 200 below; the watchdog never panics, and every other case is `ok`.
  pub watchdog_lem :
      c.change_time ≤ now
      → 200 ≤ v.raw
      → v.raw ≤ 65335
      → ((watchdog build as_millis c v i allow now ≡ returns (err FaultKind.overcurrent))
          ↔ (Settled × TooMuch))
        × ((watchdog build as_millis c v i allow now ≡ returns (err FaultKind.undercurrent))
            ↔ (Settled × TooLittle))
        × ((watchdog build as_millis c v i allow now ≡ returns (ok tt))
            ↔ ¬ (Settled × (TooMuch ⊎ TooLittle)))
  unfolding watchdog
  watchdog_lem past h k = ground arith

judge_in_release :
    (cmd : HeaterCmd) (v : MilliVolt) (i : MilliAmp) (allow : AllowUndercurrent)
    → (r : Result (Unit {0}) FaultKind) × (judge release cmd v i allow ≡ returns r)
unfolding current_in_range
judge_in_release off v i allow = (_, refl)
judge_in_release on v i allow = (_, refl)

-- In a release build the watchdog has an answer for all readings.
pub watchdog_in_release :
    (as_millis : ℕ → ℕ) (c : PwmCtrl) (v : MilliVolt) (i : MilliAmp) (allow : AllowUndercurrent)
    (now : ℕ)
    → c.change_time ≤ now
    → (r : Result (Unit {0}) FaultKind) × (watchdog release as_millis c v i allow now ≡ returns r)
unfolding watchdog
watchdog_in_release as_millis c v i allow now h =
    elim (Bool-cases (ltb 25 (as_millis (now - c.change_time)))) [
      | inl e ↦
          let (r, judged) = judge_in_release c.cmd v i allow in
          (r, rw (le→not-ltb now c.change_time h, e) judged)
      | inr e ↦ (Result.ok tt, rw (le→not-ltb now c.change_time h, e) refl)
    ]
