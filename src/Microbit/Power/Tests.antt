-- ===== src/Microbit/Power/Tests.antt =====
-- The power task at concrete inputs: the set-up after a battery has come, a command, and
-- a fault that stays.
use battery_tester.Prelude.{
  List, ◌≤◌, ℕ, ◌+◌, ◌≡◌, ◌<◌, ◌↔◌, refl, [], ◌∷◌, none, some, true, false, returns, Build, Result,
  ok, length, arith,
}
use battery_tester.Common.{
  BiReply, AllowUndercurrent, BiCommand, ClearFault, Fault, FaultKind, LoadState, Measurement,
  Reset, fault_reply, ok_reply,
}
use battery_tester.Microbit.Signal.{Signal, command, tick, com_timeout, bat_rising}
use battery_tester.Microbit.Twim.{Twim, TwimError}
use battery_tester.Microbit.Ina260.Config.{set_config}
use battery_tester.Microbit.Wait.{touching, Button, up, wait_bat_reconnect}
use battery_tester.Microbit.Pwm.{on, off, PwmCall, PwmCtrl, set_duty, new, set_cmd}
use battery_tester.Microbit.Acquire.{Platform, World, init_i2c}
use battery_tester.Microbit.Power.{
  Control, acquiring, boot, control, Board, power_ctrl_loop, power_task, start, fresh,
}
use battery_tester.Microbit.Acquire.Running.{IsClock}
use battery_tester.Microbit.Power.Runs.{Onward, firmware_keeps_running}
use battery_tester.Microbit.Power.Safety.{
  is_acquiring, IsSafe, Reach, started, stepped, Reach-IsSafe,
}
use battery_tester.Microbit.Power.Timeout.{timeout_turns_off}
use battery_tester.Microbit.Pwm.Output.{duty_now, trimmed}
use battery_tester.Microbit.Power.Replies.{owed, power_task-replies}
use battery_tester.Microbit.Power.Delivery.{faulted_persists, in_fault, run}
use battery_tester.Microbit.Power.Off.Heating.{command_heats}

abbrev always : Result (ℕ × ℕ) TwimError
always = ok (0, 100)

always_bytes : (hi lo : ℕ) → always ≡ ok (hi, lo) → (hi < 256) × (lo < 256)
always_bytes hi lo e = ground arith

-- A bus that counts the calls; all registers read as 0x0064.
abbrev counting : Twim
counting = record {
  Bus = ℕ;
  write = λ address out n. (ok tt, n + 1);
  write_read2 = λ address out n. (always, n + 1);
  write_read2_bytes = λ address out n hi lo e. always_bytes hi lo e;
}

abbrev board : Platform
board = record { build = Build.release; twim = counting; as_millis = λ n. n }

abbrev world : World
world = record { now = λ k. k + 7; low_first = false; low_second = false }

abbrev idle : PwmCtrl
idle = record {
  cmd = off;
  pwm =
      PwmCall.enable
      ∷ set_duty 0 18484
      ∷ PwmCall.set_max_duty 20000
      ∷ PwmCall.set_prescaler_div16
      ∷ PwmCall.disable
      ∷ [];
  change_time = 5;
}

abbrev touched : Board board
touched = record { ctrl = idle; bus = 0; phase = boot touching }

abbrev begun : Board board
begun = record { ctrl = idle; bus = 2; phase = control (acquiring (fresh 8)) }

begun_reached : Reach board [] 5 0 begun
unfolding power_task wait_bat_reconnect init_i2c set_config new start
begun_reached =
    stepped {b = touched} world tick [] (stepped world bat_rising [] (started idle refl refl) refl)
      refl

Reach-IsSafe_example : IsSafe begun
Reach-IsSafe_example = Reach-IsSafe board [] 5 0 begun begun_reached

abbrev load_on : BiCommand
load_on = record {
  load = LoadState.on;
  reset = Reset.no;
  clear_fault = ClearFault.no;
  allow_undercurrent = AllowUndercurrent.yes;
}

abbrev measured : Measurement
measured = record {
  vbat = record { raw = 12000 };
  ibat = record { raw = 8000 };
  dt = 30;
  duration = 20;
}

abbrev with_measurement : Control
with_measurement = record (fresh 8) { measurement = some measured }

abbrev acquiring_board : Board board
acquiring_board = record begun { phase = control (acquiring with_measurement) }

power_task-replies_example :
    length (ok_reply (some measured) ∷ [])
    ≡ owed (control (acquiring with_measurement)) (command load_on)
unfolding power_task power_ctrl_loop set_cmd
power_task-replies_example =
    power_task-replies board world acquiring_board (command load_on)
      (record begun {
        ctrl = record { cmd = on; pwm = set_duty 0 17984 ∷ idle.pwm; change_time = 7 };
        phase =
            control (acquiring (record (fresh 8) { allow_undercurrent = AllowUndercurrent.yes }));
      })
      (ok_reply (some measured) ∷ []) refl

command_heats_example :
    (duty_now (set_duty 0 17984 ∷ idle.pwm) ≡ some 17984)
    ↔ ((is_acquiring begun.phase ≡ true) × (LoadState.on ≡ LoadState.on) × (Reset.no ≡ Reset.no))
unfolding power_task power_ctrl_loop set_cmd
command_heats_example =
    command_heats board [] 5 0 begun begun_reached world load_on
      (record begun {
        ctrl = record { cmd = on; pwm = set_duty 0 17984 ∷ idle.pwm; change_time = 7 };
        phase =
            control (acquiring (record (fresh 8) { allow_undercurrent = AllowUndercurrent.yes }));
      })
      (ok_reply none ∷ []) refl

abbrev lost : Fault
lost = record { kind = FaultKind.no_battery; time = 10 }

faulted_persists_example :
    (s' : Button) × (run board
        (in_fault board idle 2 lost up)
        ((world, command load_on) ∷ (world, com_timeout) ∷ (world, command load_on) ∷ [])
      ≡ returns (in_fault board idle 2 lost s', fault_reply lost ∷ fault_reply lost ∷ []))
faulted_persists_example =
    faulted_persists board idle 2 lost
      ((world, command load_on) ∷ (world, com_timeout) ∷ (world, command load_on) ∷ []) up
      (refl, (tt, (refl, tt)))

abbrev frozen : World
frozen = record { now = λ k. 7; low_first = false; low_second = false }

frozen-IsClock : (t : ℕ) → t ≤ 7 → IsClock frozen t 7
frozen-IsClock t h = record { not_before = λ k. h; not_after = λ k. omega arith }

abbrev signals : List (World × Signal)
signals = (frozen, bat_rising) ∷ (frozen, tick) ∷ (frozen, command load_on) ∷ (frozen, tick) ∷ []

onward : Onward 5 signals
onward = (
  7,
  frozen-IsClock 5 (omega arith),
  (
    7,
    frozen-IsClock 7 (omega arith),
    (7, frozen-IsClock 7 (omega arith), (7, frozen-IsClock 7 (omega arith), tt)),
  ),
)

firmware_keeps_running_example :
    (c : PwmCtrl) × (new Build.release [] 5 ≡ returns c)
    × ((r : Board board × List BiReply) × (run board (start board c 0) signals ≡ returns r))
firmware_keeps_running_example = firmware_keeps_running board [] 5 0 signals refl onward

-- A board whose heater has been turned on, and the timeout after that.
abbrev heating : Board board
heating = record begun {
  ctrl = record { cmd = on; pwm = set_duty 0 17984 ∷ idle.pwm; change_time = 7 };
  phase = control (acquiring (record (fresh 8) { allow_undercurrent = AllowUndercurrent.yes }));
}

heating_reached : Reach board [] 5 0 heating
unfolding power_task power_ctrl_loop set_cmd
heating_reached =
    stepped {b = begun} world (command load_on) (ok_reply none ∷ []) begun_reached refl

abbrev silent : Board board
silent = record heating {
  ctrl = record { cmd = off; pwm = set_duty 0 18484 ∷ heating.ctrl.pwm; change_time = 7 };
}

timeout_turns_off_example :
    (silent.ctrl.cmd ≡ off) × (duty_now silent.ctrl.pwm ≡ some (trimmed off))
unfolding run power_task power_ctrl_loop set_cmd
timeout_turns_off_example =
    timeout_turns_off board [] 5 0 heating heating_reached world ((world, bat_rising) ∷ []) tt
      silent [] refl
