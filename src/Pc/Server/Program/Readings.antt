-- ===== src/Pc/Server/Program/Readings.antt =====
-- The measurements of a test (server.rs, lines 186 to 267, and the end of a test, lines 98 to 104).
use battery_tester.Prelude.{◌<◌, List, [], ◌∷◌, Option, none, some, false}
use battery_tester.Common.{
  AllowUndercurrent, ClearFault, LoadState, Measurement, MilliVolt, Reset, ok_reply,
}
use battery_tester.Pc.Messages.{ComCmd, Event, FileCmd}
use battery_tester.Pc.Server.Base.{Debug, World, Out, to_com, to_file, Program, stat, prints}
use battery_tester.Pc.Server.Setup
use battery_tester.Pc.Server.Testing

-- Replies without a fault, with or without a measurement.
abbrev pub reported : List (World × Option Measurement) → List (World × Option Event)
reported [] = []
reported ((w, m) ∷ ms) = (w, some (Event.com_reply (ok_reply m))) ∷ reported ms

abbrev pub Above : MilliVolt → List (World × Option Measurement) → Type 0
Above cutoff [] = Unit
Above cutoff ((w, none) ∷ ms) = Above cutoff ms
Above cutoff ((w, some m) ∷ ms) = (cutoff.raw < m.vbat.raw) × Above cutoff ms

-- The records of the measurements.
abbrev pub records : List (World × Option Measurement) → List Out
records [] = []
records ((w, none) ∷ ms) = records ms
records ((w, some m) ∷ ms) =
    to_file (
      FileCmd.push
        (record { millivolts = m.vbat; milliamps = m.ibat; dt = m.dt; duration = m.duration }))
    ∷ records ms

-- The program with the ID and the first reply of the test forgotten.
abbrev pub forgotten : Program → Program
forgotten p = record p { state = record (p.state) { battery_id = none; first_reply = false } }

-- What is sent at the end of a test.
abbrev pub farewell : Debug → Program → List Out
farewell d p =
    to_com (
      ComCmd.bi_command (record {
        load = LoadState.off;
        clear_fault = ClearFault.no;
        reset = Reset.yes;
        allow_undercurrent = AllowUndercurrent.no;
      }))
    ∷ to_file FileCmd.close_file
    ∷ stat "ending test..."
    ∷ stat "setup: please set battery ID and tester serial port device name"
    ∷ to_com (
        ComCmd.bi_command (record {
          load = LoadState.off;
          clear_fault = ClearFault.no;
          reset = Reset.no;
          allow_undercurrent = AllowUndercurrent.no;
        }))
    ∷ prints (d.state (forgotten p).state)
    ∷ []
