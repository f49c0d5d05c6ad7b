-- ===== src/Pc/Serial/Tests.antt =====
-- Receiving at concrete bytes, with messages of one byte of their own.
use battery_tester.Prelude.{List, Result, ok, ℕ, ◌≡◌, refl, [], ◌∷◌, returns, arith}
use battery_tester.Wire.Pairs.{pairs}
use battery_tester.Pc.Serial.Write.{finished, serial_write_command, serial_write_command_lem}
use battery_tester.Wire.{frame}
use battery_tester.Pc.Serial.Decode.{receive}
use battery_tester.Pc.Serial.Stream.{receive_lem}

receive_lem_example :
    receive pairs ((2 ∷ []) ∷ (1 ∷ 7 ∷ 2 ∷ 1 ∷ []) ∷ (9 ∷ []) ∷ []) [] ≡ (7 ∷ 9 ∷ [], returns [])
unfolding frame
receive_lem_example =
    receive_lem pairs ((2 ∷ []) ∷ (1 ∷ 7 ∷ 2 ∷ 1 ∷ []) ∷ (9 ∷ []) ∷ []) (7 ∷ 9 ∷ []) refl

-- Two bytes asked for and one taken, then three and one.
abbrev answers : List (Result ℕ ℕ)
answers = ok 1 ∷ ok 3 ∷ []

serial_write_command_lem_example :
    serial_write_command pairs 7 (ok tt) answers ≡ (frame pairs 7, finished)
serial_write_command_lem_example =
    serial_write_command_lem pairs 7 answers (omega arith, (omega arith, tt)) (omega arith)
