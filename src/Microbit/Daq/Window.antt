-- ===== src/Microbit/Daq/Window.antt =====
-- The specification of the averaging queue: a window of at most nine readings that, at the tenth,
-- gives their averages and starts again.
use battery_tester.Prelude.{
  ℕ, ◌+◌, ◌-◌, ◌/◌, ◌<◌, List, [], ◌∷◌, ◌++◌, map, Option, none, some, ◌==◌, if◌then◌else◌, length,
}
use battery_tester.Common.{MilliAmp, MilliVolt}

pub record Reading : Type 0 where
  pub amps : MilliAmp
  pub volts : MilliVolt

pub record Window : Type 0 where
  pub start : ℕ
  pub readings : List Reading

abbrev pub sum : List ℕ → ℕ
sum [] = 0
sum (x ∷ xs) = x + sum xs

abbrev pub amps_of : List Reading → List ℕ
amps_of = map (λ r. r.amps.raw)

abbrev pub volts_of : List Reading → List ℕ
volts_of = map (λ r. r.volts.raw)

-- The exact averages of ten readings, the end of the window and its length.
abbrev pub summary : List Reading → ℕ → ℕ → MilliVolt × MilliAmp × ℕ × ℕ
summary rs now start = (
  record { raw = sum (volts_of rs) / 10 },
  record { raw = sum (amps_of rs) / 10 },
  now,
  now - start,
)

unfoldable pub record_reading :
    Window → Reading → ℕ → Window × Option (MilliVolt × MilliAmp × ℕ × ℕ)
record_reading w r now =
    let all = w.readings ++ (r ∷ []) in
    if length all == 10
    then (record { start = now; readings = [] }, some (summary all now w.start))
    else (record w { readings = all }, none)

-- Readings are 16-bit words.
abbrev pub IsWord : Reading → Type 0
IsWord r = (r.amps.raw < 65536) × (r.volts.raw < 65536)

abbrev pub AllWords : List Reading → Type 0
AllWords [] = Unit
AllWords (r ∷ rs) = IsWord r × AllWords rs
