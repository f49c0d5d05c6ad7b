-- ===== src/Microbit/Ina260/Readings.antt =====
-- Reading current and voltage (ina260/mod.rs, lines 319 to 342).
use battery_tester.Prelude.{
  ℕ, ◌+◌, ◌-◌, ◌*◌, ◌/◌, ◌≤◌, ◌<◌, ◌≡◌, [], ◌∷◌, Result, ok, err, u16, ltb, if◌then◌else◌, ◌↔◌,
  arith,
}
use battery_tester.Prelude.Int.{to_i16, mul_lit, div_lit, unsigned_abs}
use battery_tester.Common.{MilliAmp, MilliVolt}
use battery_tester.Microbit.Twim.{Twim, TwimError}
use battery_tester.Microbit.Ina260.Registers.{Register, addr}
use battery_tester.Microbit.Ina260.Config.{from_be_bytes}

-- What `get_amps` and `get_voltage` make of the two bytes that they read.
unfoldable pub amps_of : ℕ × ℕ → MilliAmp
amps_of buffer =
    let raw = to_i16 (from_be_bytes buffer) in
    record { raw = u16 (unsigned_abs (div_lit (mul_lit raw 1250) 1000)) }

unfoldable pub volts_of : ℕ × ℕ → MilliVolt
volts_of buffer = let raw = from_be_bytes buffer in record { raw = u16 (raw * 1250 / 1000) }

abbrev pub map_read : {A B E S : Type 0} → (A → B) → Result A E × S → Result B E × S
map_read f (ok a, s) = (ok (f a), s)
map_read f (err e, s) = (err e, s)

module _ (t : Twim) where
  open t use {Bus, write_read2}

  -- Returns current in milliamps. `?` passes an error of the bus on.
  unfoldable pub get_amps : ℕ → Bus → Result MilliAmp TwimError × Bus
  unfolding addr amps_of
  get_amps address bus = map_read amps_of (write_read2 address (addr Register.current ∷ []) bus)

  -- Returns voltage as millivolts.
  unfoldable pub get_voltage : ℕ → Bus → Result MilliVolt TwimError × Bus
  unfolding addr volts_of
  get_voltage address bus = map_read volts_of (write_read2 address (addr Register.voltage ∷ []) bus)

-- The magnitude of a 16-bit two's complement number.
abbrev pub magnitude : ℕ → ℕ
magnitude n = if ltb n 32768 then n else 65536 - n

amps_of_lem :
    (hi lo : ℕ)
    → hi < 256
    → lo < 256
    → ((amps_of (hi, lo)).raw ≡ magnitude (hi * 256 + lo) * 1250 / 1000)
      × ((amps_of (hi, lo)).raw ≤ 40960)
unfolding amps_of
amps_of_lem hi lo h l = ground arith

volts_of_exact :
    (hi lo : ℕ)
    → hi < 256
    → lo < 256
    → (((volts_of (hi, lo)).raw ≡ (hi * 256 + lo) * 1250 / 1000) ↔ (hi * 256 + lo ≤ 52428))
      × (52428 < hi * 256 + lo → (volts_of (hi, lo)).raw + 65536 ≡ (hi * 256 + lo) * 1250 / 1000)
unfolding volts_of
volts_of_exact hi lo h l = (omega arith, λ big. omega arith)

map_read_ok :
    {A B E S : Type 0} (f : A → B) (a : A) (r : Result A E × S)
    → r.0 ≡ ok a
    → (map_read f r).0 ≡ ok (f a)
map_read_ok f a (ok b, s) h = ground arith
map_read_ok f a (err e, s) h = absurd (ground arith)

module _ (t : Twim) (address : ℕ) (bus : t.Bus) (hi lo : ℕ) where
  open t use {write_read2, write_read2_bytes}

  -- When the bus answers the read of the current register with two bytes, `get_amps` gives the
  -- magnitude of the two's complement word that they spell times 1.25 mA, rounded down. No bit is
  -- lost to the narrowing to u16, since that is at most 40960.
  pub get_amps_lem :
      (write_read2 address (addr Register.current ∷ []) bus).0 ≡ ok (hi, lo)
      → (a : MilliAmp) × ((get_amps t address bus).0 ≡ ok a)
        × (a.raw ≡ magnitude (hi * 256 + lo) * 1250 / 1000)
        × (a.raw ≤ 40960)
  unfolding get_amps
  get_amps_lem h =
      let (b, c) = write_read2_bytes address _ bus hi lo h in
      let (value, bound) = amps_of_lem hi lo b c in
      (amps_of (hi, lo), map_read_ok amps_of (hi, lo) _ h, value, bound)

  -- When the bus answers the read of the voltage register with two bytes, `get_voltage` gives the
  -- word that they spell times 1.25 mV, rounded down, exactly when the word is at most 52428; above
  -- that it gives 65536 less than this.
  pub get_voltage_lem :
      (write_read2 address (addr Register.voltage ∷ []) bus).0 ≡ ok (hi, lo)
      → (v : MilliVolt) × ((get_voltage t address bus).0 ≡ ok v)
        × ((v.raw ≡ (hi * 256 + lo) * 1250 / 1000) ↔ (hi * 256 + lo ≤ 52428))
        × (52428 < hi * 256 + lo → v.raw + 65536 ≡ (hi * 256 + lo) * 1250 / 1000)
  unfolding get_voltage
  get_voltage_lem h =
      let (b, c) = write_read2_bytes address _ bus hi lo h in
      (
        volts_of (hi, lo),
        map_read_ok volts_of (hi, lo) _ h,
        (volts_of_exact hi lo b c).0,
        (volts_of_exact hi lo b c).1,
      )
