-- ===== src/System/Tests.antt =====
-- A server that waits for the user, and a board with a battery.
use battery_tester.Prelude.{
  ℕ, ◌+◌, ◌≡◌, ◌<◌, refl, true, false, List, [], ◌∷◌, Option, none, some, Result, ok, Build, arith,
}
use battery_tester.Common.{ok_reply}
use battery_tester.Wire.Plain.{plain_commands, plain_replies}
use battery_tester.Pc.State.{default_state}
use battery_tester.Pc.Messages.{ComCmd, Event, idle_command, volts_command}
use battery_tester.Pc.Server.Base
use battery_tester.Pc.Server.Base.{Debug}
use battery_tester.Pc.Server.Setup
use battery_tester.Pc.Server.Waiting.Battery
use battery_tester.Pc.Server.Program.{enter, step, program_event_task}
use battery_tester.Pc.Serial.Com.{Answers, Input, command, read, tick, serial_com_task}
use battery_tester.Pc.Serial.Com.Intended.{Works, AllWork}
use battery_tester.Pc.Serial.Write.{serial_write_command}
use battery_tester.Pc.Serial.Decode.{serial_decode}
use battery_tester.Pc.Driving.{com_cmds, taken}
use battery_tester.Microbit.Serial.{serial_in_task, serial_reply_task}
use battery_tester.Microbit.Signal.{Signal, bat_rising}
use battery_tester.Microbit.Twim.{Twim, TwimError}
use battery_tester.Microbit.Ina260.Config.{set_config}
use battery_tester.Microbit.Wait.{wait_bat_reconnect}
use battery_tester.Microbit.Pwm.{off, PwmCall, PwmCtrl, set_duty, new, set_cmd}
use battery_tester.Microbit.Pwm.Output.{duty_now, trimmed}
use battery_tester.Microbit.Acquire
use battery_tester.Microbit.Acquire.{Platform, init_i2c}
use battery_tester.Microbit.Power.{
  acquiring, control, fresh, Board, power_ctrl_loop, power_task, start,
}
use battery_tester.Microbit.Power.Delivery.{run}
use battery_tester.System.{heater_needs_start}

abbrev debug : Debug
debug = record { state = λ s. []; i2c = λ e. []; fault = λ f. []; path = λ p. [] }

abbrev now_and_file : Base.World
now_and_file = record { now = 49 ∷ []; open_new = λ path. ok 3 }

-- A device, its first reply, and a battery.
abbrev received : List (Base.World × Option Event)
received =
    (now_and_file, some (Event.set_serial_device "COM3"))
    ∷ (now_and_file, some (Event.com_reply (ok_reply none)))
    ∷ (now_and_file, some (Event.batt_id (record { year = 2024; index = 7 })))
    ∷ (now_and_file, some Event.shutdown)
    ∷ []

abbrev lost : List ComCmd
lost = ComCmd.bi_command idle_command ∷ ComCmd.new_device_name "COM3" ∷ []

abbrev answers : Answers
answers = record {
  opened = ok 3;
  exclusive = ok tt;
  cleared = ok tt;
  first = ok tt;
  writes = ok 4 ∷ ok 1 ∷ ok 1 ∷ ok 1 ∷ [];
  listening = true;
}

abbrev rounds : List (Answers × Input)
rounds =
    (answers, command (some (ComCmd.bi_command volts_command)))
    ∷ (answers, read (ok (9 ∷ 0 ∷ 0 ∷ 0 ∷ 0 ∷ 0 ∷ 0 ∷ 0 ∷ 0 ∷ 0 ∷ [])))
    ∷ (answers, tick)
    ∷ (answers, command (some (ComCmd.bi_command idle_command)))
    ∷ []

answers-Works : Works plain_commands (answers, tick)
answers-Works =
    (refl, refl, (omega arith, (omega arith, (omega arith, (omega arith, tt)))), omega arith)

rounds-AllWork : AllWork plain_commands rounds
rounds-AllWork = (answers-Works, (answers-Works, (answers-Works, (answers-Works, tt))))

abbrev always : Result (ℕ × ℕ) TwimError
always = ok (0, 100)

always_bytes : (hi lo : ℕ) → always ≡ ok (hi, lo) → (hi < 256) × (lo < 256)
always_bytes hi lo e = ground arith

-- A bus that answers every read with the same two bytes.
abbrev steady : Twim
steady = record {
  Bus = Unit;
  write = λ address out bus. (ok tt, bus);
  write_read2 = λ address out bus. (always, bus);
  write_read2_bytes = λ address out bus hi lo e. always_bytes hi lo e;
}

abbrev board : Platform
board = record { build = Build.release; twim = steady; as_millis = λ n. n }

abbrev world : Acquire.World
world = record { now = λ k. k + 7; low_first = false; low_second = false }

abbrev signals : List (Acquire.World × Signal)
signals = (world, bat_rising) ∷ (world, Signal.tick) ∷ (world, Signal.command volts_command) ∷ []

abbrev ready : PwmCtrl
ready = record {
  cmd = off;
  pwm =
      PwmCall.enable
      ∷ set_duty 0 18484
      ∷ PwmCall.set_max_duty 20000
      ∷ PwmCall.set_prescaler_div16
      ∷ PwmCall.disable
      ∷ [];
  change_time = 5;
}

abbrev measuring : Board board
measuring = record {
  ctrl = record ready { pwm = set_duty 0 18484 ∷ ready.pwm };
  bus = tt;
  phase = control (acquiring (fresh 8));
}

heater_needs_start_example :
    (measuring.ctrl.cmd ≡ off) × (duty_now measuring.ctrl.pwm ≡ some (trimmed off))
unfolding com_cmds taken program_event_task enter step Setup.on_event default_state idle_command
    volts_command serial_com_task serial_write_command serial_decode serial_in_task
    serial_reply_task run power_task power_ctrl_loop wait_bat_reconnect init_i2c set_config new
    start set_cmd Battery.on_event
heater_needs_start_example =
    heater_needs_start plain_commands plain_replies (λ c. []) debug [] received
      (λ e. ground arith, (λ e. ground arith, (λ e. ground arith, (λ e. ground arith, tt)))) lost []
      rounds (some answers) refl 3 3 idle_command refl rounds-AllWork
      (refl, answers-Works.2, answers-Works.3) (ok_reply none ∷ []) refl board [] 5 tt ready refl
      signals (volts_command ∷ idle_command ∷ idle_command ∷ []) refl measuring (ok_reply none ∷ [])
      refl
