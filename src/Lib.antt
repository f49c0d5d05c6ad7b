-- ===== src/Lib.antt =====
-- Verification of battery-tester: a firmware (battery_tester_microbit) that measures a battery and
-- switches a heater as its load, and a server on a PC (battery_tester_pc) that leads a test through
-- its modes and writes the records. They exchange `BiCommand` and `BIReply` over a serial line
-- (battery_tester_common).
--
-- How the parts interact. On the PC, the control task takes events of one channel (commands of the
-- user, replies of the firmware, errors of the other tasks) and sends commands to the serial task and
-- to the file task. The serial task writes the commands, repeats the last one twice a second, cuts the bytes
-- that it receives into replies, and reports each error of the line. Clients send commands of the user
-- over a local socket, each on a connection of its own. In the firmware, the
-- power task waits for the battery, sets the sensor up, then acquires a reading every 100 ms, averages
-- ten of them, obeys and answers commands, and turns the heater off at a fault, a reset or a timeout.
--
-- Which file models what (paths from the repository's root):
--   Prelude, Prelude/*      numbers, tests, lists, `Checked` for code that may panic
--   Common                  battery_tester_common/src/lib.rs
--   Wire                    postcard as a parameter (`Codec`), and a message behind its length byte
--                           (Wire/Pairs and Wire/Plain are codecs for tests);
--                           Wire/Stream: cutting a stream of such messages anywhere
--   Microbit/Twim           the I2C driver as a parameter, and twim_err_to_common of
--                           battery_tester_microbit/src/lib.rs
--   Microbit/Ina260/*       battery_tester_microbit/src/ina260/mod.rs: Registers, Config (the word and
--                           its transfer, `shutdown` is `power_down`), Readings; Fields is on the word
--   Microbit/Daq            DaqDataQueue of battery_tester_microbit/src/lib.rs; Daq/Window is its
--                           specification and Daq/Refine the refinement
--   Microbit/Pwm            battery_tester_microbit/src/pwm.rs; the peripheral is the list of calls
--                           made to it, the latest first
--   Microbit/Signal, Wait   main.rs of the firmware, wait_fault_clear, wait_bat_present and
--                           wait_bat_reconnect, one step per signal
--   Microbit/Acquire        main.rs: daq, daq_to_measurement, init_i2c
--   Microbit/Power          main.rs: power_task, power_ctrl_loop, i2c_init_loop as one step machine;
--                           a state says where the task waits. Safety, Replies, Delivery, Running,
--                           Runs, Off (with Heating) and Timeout are proofs, and Acquire/Running is their part on
--                           daq
--   Pc/Text                 the decimal numbers of format!
--   Pc/State, Messages,     battery_tester_pc/src/lib.rs
--   Pc/Printer
--   Pc/Server/*             battery_tester_pc/src/server.rs: Base (new_file, new_cutoff and what the
--                           handlers share), Setup, Waiting/Battery, Waiting/UsrStart, Testing, Fault
--                           (one handler each, a turn per event) and Program (program_event_task,
--                           with shutdown, comm_dc and end_test), and Main (the directory that main
--                           accepts); Program/* are proofs
--   Pc/Files                battery_tester_pc/src/files.rs; Files/Log is its specification, Files/Rows is
--                           on the bytes of a file, Files/Failing on writes that fail
--   Pc/Mpsc                 tokio::sync::mpsc as a parameter: bounded queues, and what a send comes to
--   Pc/Network              main of server.rs: the five tasks and the channels between them, any of which
--                           may move next; what one input makes a task send goes out one by one, and
--                           a send waits for room, or panics once the receiver is gone. Moves has the
--                           receives and the moves; Consistent ties the channels to the tasks alone;
--                           the others are proofs
--   Pc/Recording            the control task and the file task together
--   Pc/Driving              the control task and the serial task together
--   Pc/Serial               battery_tester_pc/src/serial.rs: Decode (serial_decode and the reads), Write
--                           (serial_write_command, serial_write_general) and Com (serial_com_task as a
--                           machine over the arms of its select!, and connect). Com/Intended says what
--                           is to be written, told from the inputs; the others in Com/ are proofs
--   Pc/Ipc                  battery_tester_pc/src/ipc.rs, and write_ipc of lib.rs
--   Pc/Client               battery_tester_pc/src/client.rs; Arrival and Callers are proofs
--   Microbit/Serial         main.rs: serial_in_task and serial_reply_task, on an undisturbed line and,
--                           in Uart, with the answers of the UART
--   System                  the control task, the serial task and a board at the end of the line
--
-- Conventions. An `.await` on several sources is a step on the signal or event that comes first; any
-- order may come. Panics (unwrap, overflow in a debug build, an index out of range, `todo!()`) are
-- values. Numbers are natural numbers with the wrap-around of their width written out. Logging is left
-- out, what the server prints is not.
--
-- Bounds and fuel. `decimal` runs for twenty digits, which is enough for every u64. The loop of
-- `serial_decode` is given one round more than there are bytes; each round passes at least the length
-- byte, so it always ends by itself. `serial_in_task` is given one round more than there are bytes on
-- the line. The loop of `serial_write_general` ends after as many writes as there are bytes; a round of
-- the serial task whose answers end before stays in `in_write`.
--
-- Not modelled: the start-up of the firmware and EmbassyDelayer, which only call embassy; the parsing of
-- the command lines, by argh; the failures of standard output; the clock of file names and the file
-- system, which are parameters of each event. In Pc/Serial and Pc/Ipc alone, whether the control task
-- still takes events is a parameter of each round and of each connection; in Pc/Network it shows from
-- where that task is. There `main` keeps a sender of each channel, so that none closes for want of
-- senders; a command of a user is one move, and what a connection goes through is in Pc/Ipc; and a
-- command comes to the file task with whether all its writes succeed. What bytes an error of the UART
-- leaves on the line of the firmware is not told: Microbit/Serial/Uart takes the answer of each read.
pub mod Common
pub mod Microbit
pub mod Pc
pub mod Prelude
pub mod System
pub mod Wire
