-- ===== src/Pc/Server/Main.antt =====
-- The server's `main` (battery_tester_pc/src/server.rs, lines 19 to 70), as far as it decides: which
-- directory the control task is begun with.
use battery_tester.Prelude.{Bool, List, Option, Result, ok, err, if◌then◌else◌}
use battery_tester.Pc.Messages.{Event}
use battery_tester.Pc.Server.Base.{FilePath, Debug, World, Out}
use battery_tester.Pc.Server.Program.{Running, program_event_task}

pub record Cli : Type 0 where
  pub output_directory : FilePath

pub data Error : Type 0 where
  output_path_is_dir : FilePath → Error

-- `is_dir` is the file system's answer, `events` what the control task then receives.
unfoldable pub main :
    Debug
    → (FilePath → Bool)
    → Cli
    → List (World × Option Event)
    → Result (Running × List Out) Error
main d is_dir cli events =
    if is_dir cli.output_directory
    then ok (program_event_task d cli.output_directory events)
    else err (output_path_is_dir cli.output_directory)
