-- ===== src/Microbit/Acquire.antt =====
-- One acquisition and the set-up of the sensor (main.rs, lines 250 to 285, 345 to 352, 452 to 496).
pub mod Running
use battery_tester.Prelude.{
  ℕ, Bool, [], ◌∷◌, Option, Checked, returns, ◌>>=◌, Result, ok, err, Build, if◌then◌else◌,
}
use mathlib.Core.Option
use battery_tester.Common.{
  AllowUndercurrent, Fault, FaultKind, I2cError, TiwmError, Measurement, MilliAmp, MilliVolt,
}
use battery_tester.Microbit.Twim.{Twim, TwimError, twim_err_to_common}
use battery_tester.Microbit.Ina260.Registers.{
  Register, addr, Averaging, OperMode, ScConvTime, BvConvTime,
}
use battery_tester.Microbit.Ina260.Config
use battery_tester.Microbit.Ina260.Config.{Ina260Config, set_config}
use battery_tester.Microbit.Ina260.Readings.{get_amps, get_voltage}
use battery_tester.Microbit.Daq.{DaqDataQueue, Averaged, push}
use battery_tester.Microbit.Pwm.{PwmCtrl, watchdog}

-- What the firmware runs on. `as_millis` is that of `Instant` and `Duration`, which count ticks.
pub record Platform : Type 1 where
  pub build : Build
  pub twim : Twim
  pub as_millis : ℕ → ℕ

-- What the code reads of the world while it handles one signal: `now k` is its k-th reading of the
-- clock, and the battery pin is read twice.
pub record World : Type 0 where
  pub now : ℕ → ℕ
  pub low_first : Bool
  pub low_second : Bool

abbrev pub ina260_vin_address : ℕ
ina260_vin_address = 0x40

-- `INA260Config::new()` and the four setters that `init_i2c` calls.
abbrev pub vin_config : Ina260Config
vin_config =
    Config.set_bvcov_time
      (Config.set_sccov_time
        (Config.set_operating_mode (Config.set_averaging_mode Config.new Averaging.avg4)
          OperMode.scbvc)
        ScConvTime.ms4_156)
      BvConvTime.ms4_156

module _ (p : Platform) where
  open p use {build, twim, as_millis, twim.{Bus, write_read2}}

  unfoldable pub daq_to_measurement : Averaged → Measurement
  daq_to_measurement pwr = record {
    vbat = pwr.0;
    ibat = pwr.1;
    dt = as_millis pwr.2;
    duration = as_millis pwr.3;
  }

  -- The result of `daq`, with the bus and the queue that it leaves behind.
  abbrev pub Acquired : Type 0
  Acquired = Checked (Result (Option Measurement) FaultKind × DaqDataQueue × Bus)

  module _ (w : World) (ctrl : PwmCtrl) (q : DaqDataQueue) (allow : AllowUndercurrent) where
    daq_push : MilliAmp → MilliVolt → Bus → Result (Unit {0}) FaultKind → Acquired
    unfolding daq_to_measurement
    daq_push ma mv bus (err fk) = returns (err fk, q, bus)
    daq_push ma mv bus (ok _) =
        push q ma mv (w.now 1) >>= λ r. returns (ok (Option.map daq_to_measurement r.1), r.0, bus)

    daq_volts : MilliAmp → Result MilliVolt TwimError × Bus → Acquired
    unfolding twim_err_to_common daq_push
    daq_volts ma (err e, bus) =
        returns (err (FaultKind.i2c (I2cError.ina_vin_voltage (twim_err_to_common e))), q, bus)
    daq_volts ma (ok mv, bus) =
        watchdog build as_millis ctrl mv ma allow (w.now 0) >>= daq_push ma mv bus

    daq_amps : Result MilliAmp TwimError × Bus → Acquired
    unfolding twim_err_to_common daq_volts
    daq_amps (err e, bus) =
        returns (err (FaultKind.i2c (I2cError.ina_vin_current (twim_err_to_common e))), q, bus)
    daq_amps (ok ma, bus) =
        if w.low_second
        then returns (err FaultKind.no_battery, q, bus)
        else daq_volts ma (get_voltage twim ina260_vin_address bus)

    unfoldable pub daq : Bus → Acquired
    unfolding daq_amps
    daq bus =
        if w.low_first
        then returns (err FaultKind.no_battery, q, bus)
        else daq_amps (get_amps twim ina260_vin_address bus)

  abbrev fault_at : ℕ → (TiwmError → I2cError) → TwimError → Fault
  fault_at now kind e = record {
    kind = FaultKind.i2c (kind (twim_err_to_common e));
    time = as_millis now;
  }

  -- The identity of the chip is read and only logged.
  init_id : ℕ → Result (ℕ × ℕ) TwimError × Bus → Result (Unit {0}) Fault × Bus
  init_id now (err e, bus) = (err (fault_at now I2cError.ina_vin_id e), bus)
  init_id now (ok id, bus) = (ok tt, bus)

  init_config : ℕ → Result (Unit {0}) TwimError × Bus → Result (Unit {0}) Fault × Bus
  unfolding init_id addr
  init_config now (err e, bus) = (err (fault_at now I2cError.ina_vin_config e), bus)
  init_config now (ok _, bus) =
      init_id now (write_read2 ina260_vin_address (addr Register.die_id ∷ []) bus)

  unfoldable pub init_i2c : ℕ → Bus → Result (Unit {0}) Fault × Bus
  unfolding init_config
  init_i2c now bus = init_config now (set_config twim ina260_vin_address vin_config bus)
