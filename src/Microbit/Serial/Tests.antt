-- ===== src/Microbit/Serial/Tests.antt =====
-- Commands over the line at concrete messages.
use battery_tester.Prelude.{ℕ, suc, ◌≡◌, List, [], ◌∷◌, Result, ok, returns, length, arith}
use battery_tester.Wire.Pairs.{pairs}
use battery_tester.Microbit.Serial.{serial_in_task}
use battery_tester.Microbit.Serial.Commands.{sent, AllProgress, commands_arrive}

abbrev writes : List (ℕ × List (Result ℕ ℕ))
writes = (7, ok 1 ∷ ok 3 ∷ []) ∷ (9, ok 2 ∷ ok 1 ∷ []) ∷ []

writes-AllProgress : AllProgress pairs writes
writes-AllProgress = (
  (omega arith, (omega arith, tt)),
  omega arith,
  ((omega arith, (omega arith, tt)), omega arith, tt),
)

commands_arrive_example :
    serial_in_task pairs (suc (length (sent pairs writes))) (sent pairs writes)
    ≡ returns (7 ∷ 9 ∷ [], [])
commands_arrive_example = commands_arrive pairs writes writes-AllProgress
