-- ===== src/Microbit/Ina260/Tests.antt =====
-- The sensor's words at concrete inputs.
use battery_tester.Prelude.{◌+◌, ℕ, ◌*◌, ◌/◌, ◌%◌, ◌≡◌, ◌≤◌, ◌<◌, ◌↔◌, refl, Result, ok, arith}
use battery_tester.Common.{MilliAmp, MilliVolt}
use battery_tester.Microbit.Twim.{Twim, TwimError}
use battery_tester.Microbit.Ina260.Registers.{oper_bits, sc_bits, bv_bits, averaging_bits}
use battery_tester.Microbit.Ina260.Config.{new, as_be_bytes}
use battery_tester.Microbit.Ina260.Fields.{as_be_bytes_fields}
use battery_tester.Microbit.Ina260.Readings.{get_amps, get_voltage, get_amps_lem, get_voltage_lem}

as_be_bytes_fields_example :
    (807 % 8 ≡ 7)
    × (807 / 8 % 8 * 8 ≡ 32)
    × (807 / 64 % 8 * 64 ≡ 256)
    × (807 / 512 * 512 ≡ 512)
    × (3 < 256)
    × (39 < 256)
unfolding new as_be_bytes oper_bits sc_bits bv_bits averaging_bits
as_be_bytes_fields_example = as_be_bytes_fields new

-- A bus on which every register reads as 0xfff0, which is -16 and 65520.
abbrev high : Result (ℕ × ℕ) TwimError
high = ok (255, 240)

high_bytes : (hi lo : ℕ) → high ≡ ok (hi, lo) → (hi < 256) × (lo < 256)
high_bytes hi lo e = ground arith

abbrev high_bus : Twim
high_bus = record {
  Bus = Unit {0};
  write = λ address out b. (ok tt, b);
  write_read2 = λ address out b. (high, b);
  write_read2_bytes = λ address out b hi lo e. high_bytes hi lo e;
}

get_amps_lem_example :
    (a : MilliAmp) × ((get_amps high_bus 64 tt).0 ≡ ok a) × (a.raw ≡ 20) × (a.raw ≤ 40960)
get_amps_lem_example = get_amps_lem high_bus 64 tt 255 240 refl

get_voltage_lem_example :
    (v : MilliVolt) × ((get_voltage high_bus 64 tt).0 ≡ ok v)
    × ((v.raw ≡ 81900) ↔ (65520 ≤ 52428))
    × (52428 < 65520 → v.raw + 65536 ≡ 81900)
get_voltage_lem_example = get_voltage_lem high_bus 64 tt 255 240 refl
