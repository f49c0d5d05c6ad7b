-- ===== src/Pc/Server/Waiting.antt =====
-- The modes `WaitForBattery` and `WaitForUsrStart` (server.rs, lines 269 to 400).
pub mod Battery
pub mod UsrStart
