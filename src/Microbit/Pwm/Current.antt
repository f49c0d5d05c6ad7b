-- ===== src/Microbit/Pwm/Current.antt =====
-- The window of currents that the watchdog accepts (pwm.rs, lines 110 to 146).
use battery_tester.Prelude.{
  ◌+◌, ◌^◌, ◌%◌, ◌≤◌, ◌<◌, ◌≡◌, ◌⊎◌, ◌↔◌, returns, panic, Build, debug, release, arith,
}
use battery_tester.Common.{MilliAmp, MilliVolt}
use battery_tester.Microbit.Pwm.{hi, lo, ok, current_in_range}

-- In both builds, for a voltage of 200 to 65335 mV: the answer is `hi` exactly when the current
-- exceeds the voltage's number by more than 200, `lo` exactly when it falls short by more than
-- 200, and `ok` exactly when it lies between, both ends included.
pub current_in_range_lem :
    (build : Build) (v : MilliVolt) (i : MilliAmp)
    → 200 ≤ v.raw
    → v.raw ≤ 65335
    → ((current_in_range build v i ≡ returns hi) ↔ (v.raw + 200 < i.raw))
      × ((current_in_range build v i ≡ returns lo) ↔ (i.raw + 200 < v.raw))
      × ((current_in_range build v i ≡ returns ok)
          ↔ ((i.raw ≤ v.raw + 200) × (v.raw ≤ i.raw + 200)))
unfolding current_in_range
current_in_range_lem debug v i h k = ground arith
current_in_range_lem release v i h k = ground arith

-- For any voltage and any current. A debug build panics on the check of the current exactly
-- below 200 mV and above 65335 mV. A release build goes on with the bounds that wrap around: it calls a
-- current too low exactly when it is below the lower bound, reduced modulo 2 ^ 16, and not above the
-- upper one, reduced as well.
pub current_in_range_overflow :
    (v : MilliVolt) (i : MilliAmp)
    → ((current_in_range debug v i ≡ panic) ↔ ((v.raw < 200) ⊎ (65335 < v.raw)))
      × ((current_in_range release v i ≡ returns lo)
          ↔ ((i.raw < (v.raw + 65336) % 2 ^ 16) × (i.raw ≤ (v.raw + 200) % 2 ^ 16)))
unfolding current_in_range
current_in_range_overflow v i = (ground arith, ground arith)

-- So it calls every current up to 200 above the voltage's number too low, for a voltage below 200 mV.
current_in_range_wraps :
    (v : MilliVolt) (i : MilliAmp)
    → v.raw < 200
    → i.raw ≤ v.raw + 200
    → current_in_range release v i ≡ returns lo
current_in_range_wraps v i h k = (current_in_range_overflow v i).1.1 (omega arith, omega arith)
