-- ===== src/Microbit/Twim.antt =====
-- The I2C peripheral that the firmware drives, and the errors that it reports
-- (battery_tester_microbit/src/lib.rs, lines 36 to 49).
use battery_tester.Prelude.{ℕ, ◌<◌, Result, ok, List, ◌≡◌}
use battery_tester.Common.{TiwmError}

-- `embassy_nrf::twim::Error`: the variants that the source names, and the rest of a
-- non-exhaustive enum.
pub data TwimError : Type 0 where
  tx_buffer_too_long rx_buffer_too_long transmit receive ram_buffer_too_small : TwimError
  address_nack data_nack overrun timeout : TwimError
  other : ℕ → TwimError

unfoldable pub twim_err_to_common : TwimError → TiwmError
twim_err_to_common TwimError.tx_buffer_too_long = TiwmError.tx_buffer_too_long
twim_err_to_common TwimError.rx_buffer_too_long = TiwmError.rx_buffer_too_long
twim_err_to_common TwimError.transmit = TiwmError.transmit
twim_err_to_common TwimError.receive = TiwmError.receive
twim_err_to_common TwimError.ram_buffer_too_small = TiwmError.ram_buffer_too_small
twim_err_to_common TwimError.address_nack = TiwmError.address_nack
twim_err_to_common TwimError.data_nack = TiwmError.data_nack
twim_err_to_common TwimError.overrun = TiwmError.overrun
twim_err_to_common TwimError.timeout = TiwmError.timeout
twim_err_to_common (TwimError.other n) = TiwmError.unknown

-- `embassy_nrf::twim::Twim`, which the firmware does not implement: a bus with a state of its own.
-- `write_read2` is `write_read` with a buffer of two bytes.
pub record Twim : Type 1 where
  pub Bus : Type 0
  pub write : ℕ → List ℕ → Bus → Result (Unit {0}) TwimError × Bus
  pub write_read2 : ℕ → List ℕ → Bus → Result (ℕ × ℕ) TwimError × Bus
  -- What is read are bytes.
  pub write_read2_bytes :
      (address : ℕ) (out : List ℕ) (bus : Bus) (hi lo : ℕ)
      → (write_read2 address out bus).0 ≡ ok (hi, lo)
      → (hi < 256) × (lo < 256)
