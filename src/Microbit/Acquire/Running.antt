-- ===== src/Microbit/Acquire/Running.antt =====
-- One acquisition in a release build (main.rs, lines 250 to 285).
use battery_tester.Prelude.{
  ℕ, ◌≤◌, ◌<◌, ◌≡◌, refl, Bool, true, false, [], returns, panic, release, Result, ok, err,
  if◌then◌else◌, arith,
}
use battery_tester.Common.{AllowUndercurrent, FaultKind, MilliAmp, MilliVolt}
use battery_tester.Microbit.Twim.{TwimError}
use battery_tester.Microbit.Daq.{DaqDataQueue, default_queue}
use battery_tester.Microbit.Daq.Window.{Reading, Window, record_reading}
use battery_tester.Microbit.Daq.Refine.{Holds, push_refines}
use battery_tester.Microbit.Ina260.Readings.{get_amps, get_voltage, amps_of, volts_of, map_read}
use battery_tester.Microbit.Pwm.{PwmCtrl}
use battery_tester.Microbit.Pwm.Watchdog.{watchdog_in_release}
use battery_tester.Microbit.Acquire.{Platform, World, Acquired, daq, daq_amps, daq_volts, daq_push}

-- Within a step the clock reads instants from `t` to `t'`.
pub record IsClock (w : World) (t t' : ℕ) : Type 0 where
  pub not_before : (k : ℕ) → t ≤ w.now k
  pub not_after : (k : ℕ) → w.now k ≤ t'

-- A queue as `push` leaves it, begun by `t`.
abbrev pub QueueLive : DaqDataQueue → ℕ → Type 0
QueueLive q t = (window : Window) × Holds q window × (window.start ≤ t)

default_queue-Holds : (now : ℕ) → Holds (default_queue now) (record { start = now; readings = [] })
unfolding default_queue
default_queue-Holds now = record {
  index = refl;
  room = omega arith;
  start = refl;
  amps_length = refl;
  volts_length = refl;
  amps = refl;
  volts = refl;
  words = tt;
}

pub default_queue-Live : (now t : ℕ) → now ≤ t → QueueLive (default_queue now) t
default_queue-Live now t h = (record { start = now; readings = [] }, default_queue-Holds now, h)

pub queue_later :
    {w : World} {q : DaqDataQueue} {t t' : ℕ} → QueueLive q t → IsClock w t t' → QueueLive q t'
queue_later live clock =
    (live.0, live.1, omega (arith, live.2, clock.not_before 0, clock.not_after 0))

window_start :
    (w : Window) (r : Reading) (now t : ℕ)
    → w.start ≤ t
    → now ≤ t
    → ((record_reading w r now).0).start ≤ t
unfolding record_reading
window_start w r now t h k = ground arith

amps_word : (buffer : ℕ × ℕ) → (amps_of buffer).raw < 65536
unfolding amps_of
amps_word buffer = omega arith

volts_word : (buffer : ℕ × ℕ) → (volts_of buffer).raw < 65536
unfolding volts_of
volts_word buffer = omega arith

-- Nothing has panicked, and the queue is fit for the next reading.
abbrev pub Acquires : (p : Platform) → ℕ → Acquired p → Type 0
Acquires p t panic = ⊥
Acquires p t (returns (r, q, bus)) = QueueLive q t

either_way :
    (p : Platform) (t : ℕ) (b : Bool) (x y : Acquired p)
    → Acquires p t x
    → Acquires p t y
    → Acquires p t (if b then x else y)
either_way p t true x y h k = h
either_way p t false x y h k = k

module _ (p : Platform) (w : World) (ctrl : PwmCtrl) (q : DaqDataQueue) (allow : AllowUndercurrent)
    (t t' : ℕ) (in_release : p.build ≡ release) (clock : IsClock w t t')
    (changed : ctrl.change_time ≤ t) (live : QueueLive q t) where
  open p use {twim.{Bus}}

  kept_start : live.0.start ≤ t'
  kept_start = omega (arith, live.2, clock.not_before 0, clock.not_after 0)

  kept_queue : QueueLive q t'
  kept_queue = (live.0, live.1, kept_start)

  daq_push-Acquires :
      (ma : MilliAmp) (mv : MilliVolt) (bus : Bus) (r : Result (Unit {0}) FaultKind)
      → ma.raw < 65536
      → mv.raw < 65536
      → Acquires p t' (daq_push p w ctrl q allow ma mv bus r)
  unfolding daq_push
  daq_push-Acquires ma mv bus (err fk) h k = kept_queue
  daq_push-Acquires ma mv bus (ok u) h k =
      let r : Reading = record { amps = ma; volts = mv } in
      let past : live.0.start ≤ w.now 1 = omega (arith, live.2, clock.not_before 1) in
      let (q', pushed, holds) = push_refines r (w.now 1) live.1 (h, k) past in
      rw pushed (
        (record_reading live.0 r (w.now 1)).0,
        holds,
        window_start live.0 r (w.now 1) t' kept_start (clock.not_after 1),
      )

  daq_volts-Acquires :
      (ma : MilliAmp) (r : Result (ℕ × ℕ) TwimError × Bus)
      → ma.raw < 65536
      → Acquires p t' (daq_volts p w ctrl q allow ma (map_read volts_of r))
  unfolding daq_volts
  daq_volts-Acquires ma (err e, bus) h = kept_queue
  daq_volts-Acquires ma (ok buffer, bus) h =
      let (r, judged) =
        watchdog_in_release p.as_millis ctrl (volts_of buffer) ma allow (w.now 0)
          (omega (arith, clock.not_before 0)) in
      rw (in_release, judged) (daq_push-Acquires ma (volts_of buffer) bus r h (volts_word buffer))

  daq_amps-Acquires :
      (r : Result (ℕ × ℕ) TwimError × Bus)
      → Acquires p t' (daq_amps p w ctrl q allow (map_read amps_of r))
  unfolding daq_amps get_voltage
  daq_amps-Acquires (err e, bus) = kept_queue
  daq_amps-Acquires (ok buffer, bus) =
      either_way p t' w.low_second _ _ kept_queue
        (daq_volts-Acquires (amps_of buffer) _ (amps_word buffer))

  pub daq-Acquires : (bus : Bus) → Acquires p t' (daq p w ctrl q allow bus)
  unfolding daq get_amps
  daq-Acquires bus = either_way p t' w.low_first _ _ kept_queue (daq_amps-Acquires _)
