-- ===== src/Microbit/Daq.antt =====
-- The queue that averages ten readings (battery_tester_microbit/src/lib.rs, lines 51 to 119).
-- `Instant::now()` is an argument, in ticks. An index out of range and the subtraction of a later
-- instant panic. The sums wrap as u32 does.
pub mod Window
pub mod Refine
pub mod Average
mod Tests
use battery_tester.Prelude.{
  ℕ, zero, suc, ◌+◌, ◌-◌, ◌/◌, ◌≡◌, List, [], ◌∷◌, map, Option, none, some, Checked, returns, panic,
  ◌>>=◌, ltb, ◌==◌, if◌then◌else◌, length, set, replicate, u16, u32,
}
use battery_tester.Common.{MilliAmp, MilliVolt, default_milliamp, default_millivolt}

pub record DaqDataQueue : Type 0 where
  pub index : ℕ
  pub start : ℕ
  pub milliamps : List MilliAmp
  pub millivolts : List MilliVolt

-- `reset` gives every field anew.
unfoldable pub reset : DaqDataQueue → ℕ → DaqDataQueue
unfolding default_milliamp default_millivolt
reset q now = record q {
  index = 0;
  start = now;
  milliamps = replicate 10 default_milliamp;
  millivolts = replicate 10 default_millivolt;
}

unfoldable pub default_queue : ℕ → DaqDataQueue
default_queue now = record {
  index = 0;
  start = now;
  milliamps = replicate 10 (record { raw = 0 });
  millivolts = replicate 10 (record { raw = 0 });
}

unfoldable pub milliamp_to_u32 : MilliAmp → ℕ
milliamp_to_u32 m = m.raw

unfoldable pub millivolt_to_u32 : MilliVolt → ℕ
millivolt_to_u32 m = m.raw

-- `Iterator::sum` into u32.
unfoldable pub sum_u32 : ℕ → List ℕ → ℕ
sum_u32 acc [] = acc
sum_u32 acc (x ∷ xs) = sum_u32 (u32 (acc + x)) xs

unfoldable pub avg_milliamps : DaqDataQueue → MilliAmp
avg_milliamps q =
    let sum = sum_u32 0 (map milliamp_to_u32 q.milliamps) in record { raw = u16 (sum / 10) }

unfoldable pub avg_millivolts : DaqDataQueue → MilliVolt
avg_millivolts q =
    let sum = sum_u32 0 (map millivolt_to_u32 q.millivolts) in record { raw = u16 (sum / 10) }

-- `xs[i] = v`.
abbrev pub set_checked {ℓ} : {A : Type ℓ} → List A → ℕ → A → Checked (List A)
set_checked xs i v = if ltb i (length xs) then returns (set xs i v) else panic

-- `now - start` on instants.
abbrev pub since : ℕ → ℕ → Checked ℕ
since now start = if ltb now start then panic else returns (now - start)

abbrev pub Averaged : Type 0
Averaged = MilliVolt × MilliAmp × ℕ × ℕ

-- The end of `push`: what is done at the last index and before it.
finish_push : DaqDataQueue → ℕ → Checked (DaqDataQueue × Option Averaged)
unfolding avg_milliamps avg_millivolts
finish_push q now =
    if q.index == 9
    then (do
      duration ← since now q.start
      let q' = record q { index = 0; start = now }
      returns (q', some (avg_millivolts q', avg_milliamps q', q'.start, duration)))
    else (if q.index == 0
        then returns (record q { index = q.index + 1 }, none)
        else returns (record q { index = q.index + 1 }, none))

unfoldable pub push :
    DaqDataQueue → MilliAmp → MilliVolt → ℕ → Checked (DaqDataQueue × Option Averaged)
unfolding finish_push
push q vin_milliamps vin_millivolts now = do
  milliamps ← set_checked q.milliamps q.index vin_milliamps
  millivolts ← set_checked q.millivolts q.index vin_millivolts
  finish_push (record q { milliamps = milliamps; millivolts = millivolts }) now
