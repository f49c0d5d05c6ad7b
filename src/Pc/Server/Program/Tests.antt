-- ===== src/Pc/Server/Program/Tests.antt =====
-- The control task at concrete events: a test that is set up, begun, recorded and ended.
use battery_tester.Prelude.{
  ℕ, ◌≡◌, refl, ◌⊎◌, ◌↔◌, [], ◌∷◌, List, Option, none, some, ok, true, false,
}
use battery_tester.Common.{AllowUndercurrent, LoadState, Measurement, ok_reply}
use battery_tester.Pc.State.{BatteryId}
use battery_tester.Pc.Messages.{Event}
use battery_tester.Pc.Server.Base.{Debug, World, Program}
use battery_tester.Pc.Server.Waiting.UsrStart
use battery_tester.Pc.Server.Program.{
  in_testing, in_usr_start, running, stopped, step, enter, program_event_task,
}
use battery_tester.Pc.Server.Program.Runs.{StepGood, program_event_task-StepGood}
use battery_tester.Pc.Server.Program.Cutoff.{starts_by_user, stops_lem, last_sent}

abbrev debug : Debug
debug = record { state = λ s. []; i2c = λ e. []; fault = λ f. []; path = λ p. [] }

abbrev world : World
world = record { now = 49 ∷ []; open_new = λ path. ok 3 }

abbrev battery : BatteryId
battery = record { year = 2024; index = 7 }

abbrev tested : Program
tested = record {
  state = record {
    cutoff = record { raw = 11000 };
    battery_id = some battery;
    device_name = some "COM3";
    first_reply = true;
    allow_undercurrent = AllowUndercurrent.no;
  };
  output_dir = (100 ∷ []) ∷ [];
}

abbrev measured : ℕ → Measurement
measured v = record {
  vbat = record { raw = v };
  ibat = record { raw = 8000 };
  dt = 30;
  duration = 20;
}

abbrev one_test : List (World × Option Event)
one_test =
    (world, some (Event.batt_id battery))
    ∷ (world, some (Event.set_serial_device "COM3"))
    ∷ (world, some (Event.com_reply (ok_reply none)))
    ∷ (world, some (Event.com_reply (ok_reply (some (measured 12500)))))
    ∷ (world, some Event.start_test)
    ∷ (world, some (Event.com_reply (ok_reply (some (measured 12000)))))
    ∷ (world, some (Event.com_reply (ok_reply (some (measured 10990)))))
    ∷ (world, none)
    ∷ []

program_event_task-StepGood_example :
    StepGood LoadState.off false
      ((100 ∷ []) ∷ [])
      (program_event_task debug ((100 ∷ []) ∷ []) one_test)
program_event_task-StepGood_example = program_event_task-StepGood debug ((100 ∷ []) ∷ []) one_test

starts_by_user_example :
    (in_usr_start ≡ in_testing)
    ⊎ ((in_usr_start ≡ in_usr_start) × (some Event.start_test ≡ some Event.start_test))
unfolding step UsrStart.on_event enter
starts_by_user_example =
    starts_by_user debug world in_usr_start tested tested (some Event.start_test) refl

stops_lem_example :
    (((step debug (running in_testing tested) (world, some Event.shutdown)).0 ≡ stopped)
      ↔ ((some Event.shutdown ≡ none) ⊎ (some Event.shutdown ≡ some Event.shutdown)))
    × (((step debug (running in_testing tested) (world, some Event.shutdown)).0 ≡ stopped) ↔ (
        step debug (running in_testing tested) (world, some Event.shutdown) ≡ (stopped, last_sent)))
stops_lem_example = stops_lem debug world in_testing tested (some Event.shutdown)
