-- ===== src/Microbit/Pwm/Tests.antt =====
-- The heater output and its watchdog at concrete inputs.
use battery_tester.Prelude.{
  ℕ, ◌≡◌, ◌≢◌, ◌⊎◌, ◌<◌, ◌≤◌, ◌↔◌, [], ◌∷◌, returns, panic, Build, ok, err, arith,
}
use battery_tester.Common.{AllowUndercurrent, FaultKind, MilliAmp, MilliVolt}
use battery_tester.Microbit.Pwm.{
  on, off, PwmCtrl, set_duty, set_cmd, watchdog, Range, current_in_range,
}
use battery_tester.Microbit.Pwm.Current.{current_in_range_overflow}
use battery_tester.Microbit.Pwm.Output.{set_cmd_lem}
use battery_tester.Microbit.Pwm.Watchdog.{Settled, TooMuch, TooLittle, watchdog_lem}

abbrev millis : ℕ → ℕ
millis n = n

abbrev heating : PwmCtrl
heating = record { cmd = on; pwm = []; change_time = 5 }

abbrev full : MilliVolt
full = record { raw = 12000 }

abbrev flat : MilliVolt
flat = record { raw = 150 }

abbrev weak : MilliAmp
weak = record { raw = 300 }

watchdog_lem_example :
    ((watchdog Build.debug millis heating full weak AllowUndercurrent.no 50
        ≡ returns (err FaultKind.overcurrent))
      ↔ (Settled Build.debug millis heating full weak AllowUndercurrent.no 50
          × TooMuch Build.debug millis heating full weak AllowUndercurrent.no 50))
    × ((watchdog Build.debug millis heating full weak AllowUndercurrent.no 50
          ≡ returns (err FaultKind.undercurrent))
        ↔ (Settled Build.debug millis heating full weak AllowUndercurrent.no 50
            × TooLittle Build.debug millis heating full weak AllowUndercurrent.no 50))
    × ((watchdog Build.debug millis heating full weak AllowUndercurrent.no 50 ≡ returns (ok tt))
        ↔ ¬ (
            Settled Build.debug millis heating full weak AllowUndercurrent.no 50
            × (TooMuch Build.debug millis heating full weak AllowUndercurrent.no 50
                ⊎ TooLittle Build.debug millis heating full weak AllowUndercurrent.no 50)))
watchdog_lem_example =
    watchdog_lem Build.debug millis heating full weak AllowUndercurrent.no 50 (omega arith)
      (omega arith) (omega arith)

current_in_range_overflow_example :
    ((current_in_range Build.debug flat weak ≡ panic) ↔ ((150 < 200) ⊎ (65335 < 150)))
    × ((current_in_range Build.release flat weak ≡ returns Range.lo)
        ↔ ((300 < 65486) × (300 ≤ 350)))
current_in_range_overflow_example = current_in_range_overflow flat weak

set_cmd_lem_example :
    (c' : PwmCtrl) × (set_cmd Build.debug heating off 9 ≡ returns c')
    × (c'.cmd ≡ off)
    × (c'.pwm ≡ set_duty 0 18484 ∷ [])
    × (((on ≡ off) × (c'.change_time ≡ 5)) ⊎ ((on ≢ off) × (c'.change_time ≡ 9)))
set_cmd_lem_example = set_cmd_lem Build.debug heating off 9
