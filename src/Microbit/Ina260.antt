-- ===== src/Microbit/Ina260.antt =====
-- The driver of the INA260 power monitor (battery_tester_microbit/src/ina260/mod.rs).
-- An enum with explicit discriminants is a data type with its `bits`.
pub mod Registers
pub mod Config
pub mod Fields
pub mod Readings
mod Tests
