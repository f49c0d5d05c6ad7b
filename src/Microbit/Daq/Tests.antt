-- ===== src/Microbit/Daq/Tests.antt =====
-- The averaging queue at concrete readings.
use battery_tester.Prelude.{◌≡◌, refl, [], some, returns, replicate, set, arith}
use battery_tester.Microbit.Daq.{DaqDataQueue, push}
use battery_tester.Microbit.Daq.Window.{Reading, Window, record_reading}
use battery_tester.Microbit.Daq.Refine.{Holds, push_refines}

abbrev reading : Reading
reading = record { amps = record { raw = 8001 }; volts = record { raw = 12005 } }

abbrev nine_readings : Window
nine_readings = record { start = 3; readings = replicate 9 reading }

-- The tenth place still holds what `default` put there.
abbrev nearly_full : DaqDataQueue
nearly_full = record {
  start = 3;
  index = 9;
  milliamps = set (replicate 10 reading.amps) 9 (record { raw = 0 });
  millivolts = set (replicate 10 reading.volts) 9 (record { raw = 0 });
}

nearly_full-Holds : Holds nearly_full nine_readings
nearly_full-Holds = record {
  index = refl;
  room = omega arith;
  start = refl;
  amps_length = refl;
  volts_length = refl;
  amps = refl;
  volts = refl;
  words = ground arith;
}

push_refines_example :
    (q' : DaqDataQueue) × (push nearly_full (record { raw = 8001 }) (record { raw = 12005 }) 20
      ≡ returns (q', some (record { raw = 12005 }, record { raw = 8001 }, 20, 17)))
    × Holds q' (record { start = 20; readings = [] })
unfolding record_reading
push_refines_example =
    push_refines reading 20 nearly_full-Holds (omega arith, omega arith) (omega arith)
