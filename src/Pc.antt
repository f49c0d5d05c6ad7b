-- ===== src/Pc.antt =====
-- The PC programs (battery_tester_pc): the server, its tasks, and the client.
pub mod Text
pub mod State
pub mod Messages
pub mod Printer
pub mod Files
pub mod Server
pub mod Driving
pub mod Recording
pub mod Serial
pub mod Ipc
pub mod Client
pub mod Mpsc
pub mod Network
