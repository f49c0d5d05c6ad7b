-- ===== src/Microbit/Daq/Refine.antt =====
-- The queue of lib.rs (lines 59 to 118) against a window of readings.
use battery_tester.Prelude.{
  ℕ, suc, ◌+◌, ◌/◌, ◌≤◌, ◌<◌, ◌≡◌, refl, ap, sym, ◌∙◌, List, [], ◌∷◌, ◌++◌, map, none, some,
  returns, inl, inr, Bool-cases, length, length-append, length-set, set, take, take_all, take-set,
  ◌==◌, ==→eq, not-==→ne, arith,
}
use mathlib.Core.List.{map-append}
use native.Mathlib.Numerals.{add-one}
use battery_tester.Common.{MilliAmp, MilliVolt}
use battery_tester.Microbit.Daq.{
  DaqDataQueue, default_queue, milliamp_to_u32, millivolt_to_u32, avg_milliamps, avg_millivolts,
  push,
}
use battery_tester.Microbit.Daq.Window.{
  Reading, Window, amps_of, volts_of, sum, summary, record_reading, IsWord, AllWords,
}
use battery_tester.Microbit.Daq.Average.{AllBetween, average_exact}

-- The queue holds the readings of the window, oldest first, below its index.
pub record Holds (q : DaqDataQueue) (w : Window) : Type 0 where
  pub index : q.index ≡ length w.readings
  pub room : q.index < 10
  pub start : q.start ≡ w.start
  pub amps_length : length q.milliamps ≡ 10
  pub volts_length : length q.millivolts ≡ 10
  pub amps : take q.index q.milliamps ≡ map (λ r. r.amps) w.readings
  pub volts : take q.index q.millivolts ≡ map (λ r. r.volts) w.readings
  pub words : AllWords w.readings

amps_raw : (rs : List Reading) → map milliamp_to_u32 (map (λ r. r.amps) rs) ≡ amps_of rs
unfolding milliamp_to_u32
amps_raw [] = refl
amps_raw (r ∷ rs) = ap (λ t. r.amps.raw ∷ t) (amps_raw rs)

volts_raw : (rs : List Reading) → map millivolt_to_u32 (map (λ r. r.volts) rs) ≡ volts_of rs
unfolding millivolt_to_u32
volts_raw [] = refl
volts_raw (r ∷ rs) = ap (λ t. r.volts.raw ∷ t) (volts_raw rs)

amps_in_range : (rs : List Reading) → AllWords rs → AllBetween 0 65535 (amps_of rs)
amps_in_range [] h = tt
amps_in_range (r ∷ rs) h = (omega arith, omega arith, amps_in_range rs h.1)

volts_in_range : (rs : List Reading) → AllWords rs → AllBetween 0 65535 (volts_of rs)
volts_in_range [] h = tt
volts_in_range (r ∷ rs) h = (omega arith, omega arith, volts_in_range rs h.1)

length-amps_of : (rs : List Reading) → length (amps_of rs) ≡ length rs
length-amps_of [] = refl
length-amps_of (r ∷ rs) = ap suc (length-amps_of rs)

length-volts_of : (rs : List Reading) → length (volts_of rs) ≡ length rs
length-volts_of [] = refl
length-volts_of (r ∷ rs) = ap suc (length-volts_of rs)

AllWords-snoc : (rs : List Reading) (r : Reading) → AllWords rs → IsWord r → AllWords (rs ++ r ∷ [])
AllWords-snoc [] r h w = (w, tt)
AllWords-snoc (x ∷ rs) r h w = (h.0, AllWords-snoc rs r h.1 w)

module _ (q : DaqDataQueue) (rs : List Reading) (n : length rs ≡ 10) (w : AllWords rs) where
  avg_amps :
      q.milliamps ≡ map (λ r. r.amps) rs → avg_milliamps q ≡ record { raw = sum (amps_of rs) / 10 }
  unfolding avg_milliamps
  avg_amps e =
      rw (e, amps_raw)
        (ap (λ k. let m : MilliAmp = record { raw = k } in m)
          (average_exact (amps_of rs) (length-amps_of rs ∙ n) (amps_in_range rs w)))

  avg_volts :
      q.millivolts ≡ map (λ r. r.volts) rs
      → avg_millivolts q ≡ record { raw = sum (volts_of rs) / 10 }
  unfolding avg_millivolts
  avg_volts e =
      rw (e, volts_raw)
        (ap (λ k. let m : MilliVolt = record { raw = k } in m)
          (average_exact (volts_of rs) (length-volts_of rs ∙ n) (volts_in_range rs w)))

-- A fresh queue holds an empty window.
pub default_queue-Holds :
    (now : ℕ) → Holds (default_queue now) (record { start = now; readings = [] })
unfolding default_queue
default_queue-Holds now = record {
  index = refl;
  room = omega arith;
  start = refl;
  amps_length = refl;
  volts_length = refl;
  amps = refl;
  volts = refl;
  words = tt;
}

-- One reading more, in both buffers.
module _ (q : DaqDataQueue) (w : Window) (h : Holds q w) (r : Reading) where
  amps_pushed :
      take (suc q.index) (set q.milliamps q.index r.amps) ≡ map (λ x. x.amps) (w.readings ++ r ∷ [])
  amps_pushed =
      take-set q.index q.milliamps r.amps (omega (arith, h.room, h.amps_length))
      ∙ rw (h.amps, map-append)

  volts_pushed :
      take (suc q.index) (set q.millivolts q.index r.volts)
      ≡ map (λ x. x.volts) (w.readings ++ r ∷ [])
  volts_pushed =
      take-set q.index q.millivolts r.volts (omega (arith, h.room, h.volts_length))
      ∙ rw (h.volts, map-append)

  all_length : length (w.readings ++ r ∷ []) ≡ suc q.index
  all_length = omega (arith, length-append {0} w.readings (r ∷ []), h.index)

  -- What `push` leaves at the last index, and before it.
  emptied : ℕ → DaqDataQueue
  emptied now = record {
    index = 0;
    start = now;
    milliamps = set q.milliamps q.index r.amps;
    millivolts = set q.millivolts q.index r.volts;
  }

  advanced : DaqDataQueue
  advanced = record q {
    index = q.index + 1;
    milliamps = set q.milliamps q.index r.amps;
    millivolts = set q.millivolts q.index r.volts;
  }

  lengths :
      (length (set q.milliamps q.index r.amps) ≡ 10)
      × (length (set q.millivolts q.index r.volts) ≡ 10)
  lengths = (
    length-set q.milliamps q.index r.amps ∙ h.amps_length,
    length-set q.millivolts q.index r.volts ∙ h.volts_length,
  )

  amps_whole :
      q.index ≡ 9 → set q.milliamps q.index r.amps ≡ map (λ x. x.amps) (w.readings ++ r ∷ [])
  amps_whole e =
      sym (take_all (suc q.index) (set q.milliamps q.index r.amps) (omega (arith, lengths.0)))
      ∙ amps_pushed

  volts_whole :
      q.index ≡ 9 → set q.millivolts q.index r.volts ≡ map (λ x. x.volts) (w.readings ++ r ∷ [])
  volts_whole e =
      sym (take_all (suc q.index) (set q.millivolts q.index r.volts) (omega (arith, lengths.1)))
      ∙ volts_pushed

  module _ (now : ℕ) (past : w.start ≤ now) (word : IsWord r) where
    push_last :
        q.index ≡ 9
        → push q r.amps r.volts now
          ≡ returns (emptied now, some (summary (w.readings ++ r ∷ []) now w.start))
    unfolding push emptied
    push_last e = ground (
      arith,
      h.amps_length,
      h.volts_length,
      h.start,
      avg_amps (emptied now) all full words (amps_whole e),
      avg_volts (emptied now) all full words (volts_whole e),
    )
      where
        all : List Reading
        all = w.readings ++ r ∷ []

        full : length all ≡ 10
        full = omega (arith, all_length)

        words : AllWords all
        words = AllWords-snoc w.readings r h.words word

    record_last :
        q.index ≡ 9
        → record_reading w r now ≡ (
          record { start = now; readings = [] },
          some (summary (w.readings ++ r ∷ []) now w.start),
        )
    unfolding record_reading
    record_last e = ground (arith, all_length)

    record_early :
        q.index < 9 → record_reading w r now ≡ (record w { readings = w.readings ++ r ∷ [] }, none)
    unfolding record_reading
    record_early e = ground (arith, all_length)

    emptied-Holds : Holds (emptied now) (record { start = now; readings = [] })
    unfolding emptied
    emptied-Holds = record {
      index = refl;
      room = omega arith;
      start = refl;
      amps_length = lengths.0;
      volts_length = lengths.1;
      amps = refl;
      volts = refl;
      words = tt;
    }

    push_early : q.index < 9 → push q r.amps r.volts now ≡ returns (advanced, none)
    unfolding push advanced
    push_early e = ground (arith, h.amps_length, h.volts_length)

    advanced-Holds : q.index < 9 → Holds advanced (record w { readings = w.readings ++ r ∷ [] })
    unfolding advanced
    advanced-Holds e = record {
      index = omega (arith, all_length);
      room = omega arith;
      start = h.start;
      amps_length = lengths.0;
      volts_length = lengths.1;
      amps = rw add-one amps_pushed;
      volts = rw add-one volts_pushed;
      words = AllWords-snoc w.readings r h.words word;
    }

-- In any state of the queue that holds a window: `push` does not panic, it returns what the window
-- returns (nothing for nine readings; at the tenth the exact averages of those ten, the present
-- instant and the time since the window began), and the new queue holds the new window.
pub push_refines :
    {q : DaqDataQueue} {w : Window} (r : Reading) (now : ℕ)
    → Holds q w
    → IsWord r
    → w.start ≤ now
    → (q' : DaqDataQueue) × (push q r.amps r.volts now ≡ returns (q', (record_reading w r now).1))
      × Holds q' (record_reading w r now).0
push_refines {q} {w} r now h word past = elim (Bool-cases (q.index == 9)) [
  | inl e ↦
      let last : q.index ≡ 9 = ==→eq q.index 9 e in
      (
        emptied q w h r now,
        rw (record_last q w h r now past word last) (push_last q w h r now past word last),
        rw (record_last q w h r now past word last) (emptied-Holds q w h r now past word),
      )
  | inr e ↦
      let early : q.index < 9 = omega (arith, h.room, not-==→ne q.index 9 e) in
      (
        advanced q w h r,
        rw (record_early q w h r now past word early) (push_early q w h r now past word early),
        rw (record_early q w h r now past word early) (advanced-Holds q w h r now past word early),
      )
]
