-- ===== src/Microbit.antt =====
-- The firmware of the battery interface (battery_tester_microbit).
pub mod Twim
pub mod Ina260
pub mod Daq
pub mod Pwm
pub mod Signal
pub mod Wait
pub mod Acquire
pub mod Power
pub mod Serial
