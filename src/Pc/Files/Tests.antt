-- ===== src/Pc/Files/Tests.antt =====
-- The file task at concrete commands.
use battery_tester.Prelude.{
  arith, ◌++◌, ◌≡◌, refl, [], ◌∷◌, none, Bool, true, false, List, panic, returns, if◌then◌else◌,
}
use battery_tester.Pc.Messages.{FileCmd, SaveData}
use battery_tester.Pc.Files.Rows.{IsRecord, rows, recording, rows-injective, recording_lem}
use battery_tester.Pc.Files.Failing.{task_checked, at, held, fails, commands, task_checked-fails}
use battery_tester.Pc.Files.{header_nl, Disk, Task, file_task}
use battery_tester.Pc.Files.Log.{Log, Refines, log_task, file_task-Refines}

abbrev blank : Disk
blank f = []

abbrev at_rest : Task
at_rest = record { persistance = none; disk = blank }

abbrev empty_log : Log
empty_log = record { current = none; disk = blank }

abbrev row : SaveData
row = record {
  millivolts = record { raw = 12005 };
  milliamps = record { raw = 8001 };
  dt = 30;
  duration = 20;
}

at_rest-Refines : Refines at_rest empty_log
at_rest-Refines = record { file = refl; bytes = λ g. refl; counted = tt }

file_task-Refines_example :
    Refines
      (file_task at_rest (FileCmd.push row ∷ FileCmd.new_file 4 ∷ FileCmd.push row ∷ [])).0
      (log_task empty_log (FileCmd.push row ∷ FileCmd.new_file 4 ∷ FileCmd.push row ∷ [])).0
    × ((file_task at_rest (FileCmd.push row ∷ FileCmd.new_file 4 ∷ FileCmd.push row ∷ [])).1
        ≡ (log_task empty_log (FileCmd.push row ∷ FileCmd.new_file 4 ∷ FileCmd.push row ∷ [])).1)
file_task-Refines_example =
    file_task-Refines (FileCmd.push row ∷ FileCmd.new_file 4 ∷ FileCmd.push row ∷ []) at_rest
      empty_log at_rest-Refines

row-IsRecord : IsRecord row
row-IsRecord = record {
  dt = omega arith;
  duration = omega arith;
  millivolts = omega arith;
  milliamps = omega arith;
}

rows-injective_example : (row ∷ row ∷ []) ≡ (row ∷ row ∷ [])
rows-injective_example =
    rows-injective (row ∷ row ∷ []) (row ∷ row ∷ []) (row-IsRecord, (row-IsRecord, tt))
      (row-IsRecord, (row-IsRecord, tt)) refl

recording_lem_example :
    (file_task at_rest (recording 4 (row ∷ row ∷ []))).0.disk 4 ≡ header_nl ++ rows (row ∷ row ∷ [])
recording_lem_example = recording_lem 4 (row ∷ row ∷ []) blank

-- A file is opened, a record is held back, and its write fails when the file is closed.
abbrev full_disk : List (Bool × FileCmd)
full_disk =
    (true, FileCmd.new_file 4) ∷ (false, FileCmd.push row) ∷ (false, FileCmd.close_file) ∷ []

task_checked-fails_example : task_checked (at none blank) full_disk ≡ (
    if fails (held none) full_disk
    then panic
    else returns (file_task (at none blank) (commands full_disk)))
task_checked-fails_example = task_checked-fails full_disk none blank tt
