-- ===== src/Pc/Serial/Com/Intended.antt =====
-- What the serial task is to write, told from its inputs alone (battery_tester_pc/src/serial.rs).
use battery_tester.Prelude.{
  ◌≤◌, ◌≡◌, true, List, [], ◌∷◌, ◌++◌, some, Result, ok, err, length, ◌==◌, if◌then◌else◌,
}
use battery_tester.Common.{BiCommand}
use battery_tester.Wire.{Bytes, Codec}
use battery_tester.Pc.Text.{Text}
use battery_tester.Pc.Messages.{ComCmd, clear_fault_command}
use battery_tester.Pc.Serial.Write.{Progress}
use battery_tester.Pc.Serial.Com.{Port, Answers, Input, command, tick, Output, wrote, connect}

abbrev port_or : Port → Result Port Text → Port
port_or p (ok q) = q
port_or p (err e) = p

-- The device that is spoken to after a round.
abbrev pub next_port : Port → Answers → Input → Port
next_port p a (command (some (ComCmd.new_device_name n))) = port_or p (connect a)
next_port p a _ = p

-- The command that is repeated after a round: that of the control task's last command for the board.
-- Clearing a fault does not replace it.
abbrev pub next_command : BiCommand → Input → BiCommand
next_command b (command (some (ComCmd.bi_command b'))) = b'
next_command b _ = b

-- What a round writes.
abbrev pub writes_of : BiCommand → Input → List BiCommand
writes_of b tick = b ∷ []
writes_of b (command (some (ComCmd.bi_command b'))) = b' ∷ []
writes_of b (command (some ComCmd.clear_fault)) = clear_fault_command ∷ []
writes_of b _ = []

abbrev pub last_port : Port → List (Answers × Input) → Port
last_port p [] = p
last_port p ((a, i) ∷ is) = last_port (next_port p a i) is

abbrev pub last_command : BiCommand → List (Answers × Input) → BiCommand
last_command b [] = b
last_command b ((a, i) ∷ is) = last_command (next_command b i) is

-- What is written to one device, begun with another (or the same) one and a command to repeat.
abbrev pub intended : Port → Port → BiCommand → List (Answers × Input) → List BiCommand
intended to p b [] = []
intended to p b ((a, i) ∷ is) =
    (if p == to then writes_of b i else []) ++ intended to (next_port p a i) (next_command b i) is

-- The bytes that have gone to one device.
abbrev pub bytes_on : Port → List Output → Bytes
bytes_on to [] = []
bytes_on to (wrote p bytes ∷ os) = (if p == to then bytes else []) ++ bytes_on to os
bytes_on to (_ ∷ os) = bytes_on to os

-- A round in which the control task listens, no write fails or takes nothing, enough writes are
-- answered for any command, and which is not told to shut down. Reads and connections may fail.
abbrev pub Works : {A : Type 0} → Codec A → Answers × Input → Type 0
Works c (a, command (some ComCmd.shutdown)) = ⊥
Works c (a, _) =
    (a.listening ≡ true) × (a.first ≡ ok tt) × Progress a.writes × (c.max_size ≤ length a.writes)

abbrev pub AllWork : {A : Type 0} → Codec A → List (Answers × Input) → Type 0
AllWork c [] = Unit
AllWork c (i ∷ is) = Works c i × AllWork c is
