-- ===== src/Pc/Files.antt =====
-- The task that writes the records of a test (battery_tester_pc/src/files.rs).
-- The disk maps a file to its bytes; every file is open for appending. Here writing and flushing
-- succeed; Files/Failing has them fail. `println!` is left out.
pub mod Log
pub mod Rows
pub mod Failing
mod Tests
use battery_tester.Prelude.{
  ℕ, ◌+◌, Bool, List, [], ◌∷◌, ◌++◌, Option, none, some, ◌==◌, if◌then◌else◌, u8,
}
use battery_tester.Pc.Text.{Text, codes, decimal}
use battery_tester.Pc.Messages.{Event, File, FileCmd, SaveData}

unfoldable pub header_nl : Text
unfolding codes
header_nl = codes "dt\tduration\tmillivolts\tmilliamps\n"

abbrev pub Disk : Type 0
Disk = File → Text

abbrev pub append_to : Disk → File → Text → Disk
append_to disk f t g = if g == f then disk g ++ t else disk g

pub record DataPersistance : Type 0 where
  pub out_buf : Text
  pub buffered_records : ℕ
  pub out_file : File

unfoldable pub write_all : DataPersistance → Disk → DataPersistance × Disk
write_all dp disk = (record dp { out_buf = [] }, append_to disk dp.out_file dp.out_buf)

unfoldable pub new : File → Disk → DataPersistance × Disk
new out_file disk = (
  record { out_buf = []; buffered_records = 0; out_file = out_file },
  append_to disk out_file header_nl,
)

unfoldable pub new_file : DataPersistance → File → Disk → DataPersistance × Disk
unfolding write_all
new_file dp out_file disk =
    let (dp', disk') = write_all dp disk in
    write_all (record dp' { out_file = out_file; out_buf = dp'.out_buf ++ header_nl }) disk'

unfoldable pub flush_reset : DataPersistance → Disk → DataPersistance × Disk
unfolding write_all
flush_reset dp disk = write_all (record dp { buffered_records = 0 }) disk

-- A line of the file.
unfoldable pub line : SaveData → Text
line r =
    decimal r.dt
    ++ (9
        ∷ (decimal r.duration
            ++ (9 ∷ (decimal r.millivolts.raw ++ (9 ∷ (decimal r.milliamps.raw ++ 10 ∷ []))))))

unfoldable pub new_data : DataPersistance → SaveData → Disk → DataPersistance × Disk
unfolding write_all
new_data dp r disk =
    let dp' = record dp {
      out_buf = dp.out_buf ++ line r;
      buffered_records = u8 (dp.buffered_records + 1);
    } in
    if dp'.buffered_records == 10
    then write_all (record dp' { buffered_records = 0 }) disk
    else (dp', disk)

-- The variables of `file_task` and the disk.
pub record Task : Type 0 where
  pub persistance : Option DataPersistance
  pub disk : Disk

abbrev kept : DataPersistance × Disk → Task
kept (dp, disk) = record { persistance = some dp; disk = disk }

abbrev dropped : DataPersistance × Disk → Task
dropped (dp, disk) = record { persistance = none; disk = disk }

-- `FileCmd::CloseFile`, and what `FileCmd::Shutdown` does before it ends the loop.
close : Option DataPersistance → Disk → Task
unfolding flush_reset
close none disk = record { persistance = none; disk = disk }
close (some dp) disk = dropped (flush_reset dp disk)

handle : Option DataPersistance → Disk → FileCmd → Task × List Event
unfolding new_data new_file new close
handle (some dp) disk (FileCmd.push r) = (kept (new_data dp r disk), [])
handle none disk (FileCmd.push r) =
    (record { persistance = none; disk = disk }, Event.file_error ∷ [])
handle (some dp) disk (FileCmd.new_file f) = (kept (new_file dp f disk), [])
handle none disk (FileCmd.new_file f) = (kept (new f disk), [])
handle o disk FileCmd.close_file = (close o disk, [])
handle o disk FileCmd.shutdown = (close o disk, [])

unfoldable pub handle_cmd : Task → FileCmd → Task × List Event
unfolding handle
handle_cmd t c = handle t.persistance t.disk c

-- The task over the commands that it receives, with the events that it sends.
unfoldable pub file_task : Task → List FileCmd → Task × List Event
unfolding handle_cmd
file_task t [] = (t, [])
file_task t (FileCmd.shutdown ∷ cs) = handle_cmd t FileCmd.shutdown
file_task t (c ∷ cs) =
    let (t', es) = handle_cmd t c in let (end, more) = file_task t' cs in (end, es ++ more)
