-- ===== src/Pc/Serial.antt =====
-- The serial task of the server (battery_tester_pc/src/serial.rs).
pub mod Com
pub mod Decode
pub mod Stream
pub mod Write
mod Tests
