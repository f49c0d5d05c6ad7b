-- ===== src/Pc/Server/Base.antt =====
-- What the handlers of server.rs share: their state, what they send, and the helpers at the end of
-- the file (lines 578 to 609).
use battery_tester.Prelude.{String, List, [], ◌∷◌, ◌++◌, Option, none, some, Result, ok, err}
use battery_tester.Common.{Fault, FaultKind, I2cError, MilliVolt}
use battery_tester.Pc.Text.{Text, codes, decimal}
use battery_tester.Pc.State
use battery_tester.Pc.State.{BatteryId, Mode, TestState}
use battery_tester.Pc.Messages.{ComCmd, File, FileCmd}
use battery_tester.Pc.Printer
use battery_tester.Pc.Printer.{Print, buf}

-- A path is the list of its components; `push` of a file name and `pop` are those of `PathBuf`.
abbrev pub FilePath : Type 0
FilePath = List Text

abbrev push_path : FilePath → Text → FilePath
push_path dir name = dir ++ name ∷ []

abbrev pub pop_path : FilePath → FilePath
pop_path [] = []
pop_path (c ∷ []) = []
pop_path (c ∷ d ∷ cs) = c ∷ pop_path (d ∷ cs)

-- What `{:?}` prints, which the compiler derives.
pub record Debug : Type 0 where
  pub state : TestState → Text
  pub i2c : I2cError → Text
  pub fault : Fault → Text
  pub path : FilePath → Text

-- The world at one event: the time as `new_file` formats it, and what `OpenOptions` answers, an
-- error by its text.
pub record World : Type 0 where
  pub now : Text
  pub open_new : FilePath → Result File Text

pub data Out : Type 0 where
  print : Print → Out
  to_com : ComCmd → Out
  to_file : FileCmd → Out
  ipc_shutdown : Out

-- The variables of `program_event_task` that the handlers change.
pub record Program : Type 0 where
  pub state : TestState
  pub output_dir : FilePath

-- What a handler does with one event: the new variables, what it sends, and the mode with which it
-- breaks or returns, or `none` if it takes the next event.
abbrev pub Turn : Type 0
Turn = Program × List Out × Option Mode

abbrev pub stat : String → Out
stat s = print (Printer.stat s)

abbrev pub prints : Text → Out
prints t = print (buf t)

unfoldable pub new_cutoff : Program → MilliVolt → Turn
unfolding State.new_cutoff
new_cutoff s millivolts = (
  record s { state = State.new_cutoff s.state millivolts },
  prints (codes "new cutoff voltage (millivolts): " ++ decimal millivolts.raw) ∷ [],
  none,
)

unfoldable pub file_name : World → BatteryId → Text
file_name w id =
    decimal id.year ++ (codes "-" ++ (decimal id.index ++ (codes "-" ++ (w.now ++ codes ".tsv"))))

new_file_prints : Debug → FilePath → Result File Text → List Out
new_file_prints d path (ok f) = prints (codes "created new file at: " ++ d.path path) ∷ []
new_file_prints d path (err e) = []

-- The result, the directory as it is left, and what is printed.
unfoldable pub new_file :
    Debug → World → BatteryId → FilePath → Result File Text × FilePath × List Out
unfolding new_file_prints
new_file d w id output_dir =
    let path = push_path output_dir (file_name w id) in
    let res = w.open_new path in (res, pop_path path, new_file_prints d path res)

-- What `testing` and `setup` say of a fault.
abbrev pub fault_notice : Debug → FaultKind → Out
fault_notice d (FaultKind.i2c e) = prints (codes "I2C Fault:\n" ++ d.i2c e)
fault_notice d FaultKind.undercurrent = stat "Heater undercurret/not present!"
fault_notice d FaultKind.no_battery = stat "Battery Disconnected!"
fault_notice d FaultKind.overcurrent = stat "Heater overcurrent!"

abbrev pub cannot_create : Text → Out
cannot_create e = prints (codes "can't create new output file:\n" ++ e)

-- The arm for a battery ID that `wait_for_usr_start` and `wait_for_battery` have in common.
waiting_opened : Program → BatteryId → Result File Text × FilePath × List Out → Turn
unfolding State.new_batt_id
waiting_opened s id (ok f, dir, outs) = (
  record { state = State.new_batt_id s.state id; output_dir = dir },
  outs ++ to_file (FileCmd.new_file f) ∷ [],
  none,
)
waiting_opened s id (err e, dir, outs) =
    (record s { output_dir = dir }, outs ++ cannot_create e ∷ [], some Mode.end_test)

unfoldable pub waiting_batt_id : Debug → World → Program → BatteryId → Turn
unfolding new_file waiting_opened
waiting_batt_id d w s id = waiting_opened s id (new_file d w id s.output_dir)
