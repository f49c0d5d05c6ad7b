-- ===== src/Microbit/Wait.antt =====
-- The functions of main.rs that wait for the battery and for a fault to be cleared (lines 287 to
-- 343 and 354 to 438), each as a machine over the signals that it waits for.
pub mod Debounce
mod Tests
use battery_tester.Prelude.{ℕ, List, [], ◌∷◌, none}
use battery_tester.Common.{BiCommand, ClearFault, Fault, BiReply, ok_reply, fault_reply}
use battery_tester.Microbit.Signal.{
  Signal, command, tick, bat_rising, bat_high, bat_low, btn_fell, btn_high, Poll, waits, returned,
  unawaited,
}

-- In which of its two inner loops a wait for the battery stands.
pub data Contact : Type 0 where
  apart touching : Contact

unfoldable pub wait_bat_reconnect : Contact → Signal → Poll Contact (Unit {0})
wait_bat_reconnect apart bat_rising = waits touching []
wait_bat_reconnect apart (command cmd) = waits apart (ok_reply none ∷ [])
wait_bat_reconnect touching tick = returned tt []
wait_bat_reconnect touching bat_low = waits apart []
wait_bat_reconnect touching (command cmd) = waits touching (ok_reply none ∷ [])
wait_bat_reconnect _ _ = unawaited

unfoldable pub wait_bat_present : Contact → Signal → Poll Contact (Unit {0})
wait_bat_present apart bat_high = waits touching []
wait_bat_present apart (command cmd) = waits apart (ok_reply none ∷ [])
wait_bat_present touching tick = returned tt []
wait_bat_present touching bat_low = waits apart []
wait_bat_present touching (command cmd) = waits touching (ok_reply none ∷ [])
wait_bat_present _ _ = unawaited

-- In which of its two inner loops `wait_fault_clear` stands.
pub data Button : Type 0 where
  up down : Button

-- The answer to a command while there is a fault, the same in both loops.
abbrev answer_fault : Button → Fault → ClearFault → Poll Button (Unit {0})
answer_fault b fault ClearFault.yes = returned tt (ok_reply none ∷ [])
answer_fault b fault ClearFault.no = waits b (fault_reply fault ∷ [])

unfoldable pub wait_fault_clear : Fault → Button → Signal → Poll Button (Unit {0})
wait_fault_clear fault up (command cmd) = answer_fault up fault cmd.clear_fault
wait_fault_clear fault up btn_fell = waits down []
wait_fault_clear fault down tick = returned tt (ok_reply none ∷ [])
wait_fault_clear fault down btn_high = waits up []
wait_fault_clear fault down (command cmd) = answer_fault down fault cmd.clear_fault
wait_fault_clear _ _ _ = unawaited
