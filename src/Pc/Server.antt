-- ===== src/Pc/Server.antt =====
-- The control task of the server (battery_tester_pc/src/server.rs): a handler for each mode, which
-- first acts and then takes one event after another, and the loop over the modes.
pub mod Base
pub mod Setup
pub mod Waiting
pub mod Testing
pub mod Fault
pub mod Program
pub mod Main
