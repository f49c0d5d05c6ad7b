-- ===== src/Microbit/Serial/Commands.antt =====
-- Commands over the line from end to end, and the bytes of replies (serial.rs and main.rs).
use battery_tester.Prelude.{
  ℕ, zero, suc, ◌≤◌, ◌<◌, ◌≡◌, refl, ap, List, [], ◌∷◌, ◌++◌, returns, le→not-ltb, Result, ok,
  length, length-append, take_of_append, drop_of_append, arith,
}
use battery_tester.Wire.{Bytes, Codec, frame}
use battery_tester.Wire.Stream.{frames, frame_lem, length-frames}
use battery_tester.Microbit.Serial.{serial_in_task, serial_reply_task}
use battery_tester.Pc.Serial.Write.{Progress, serial_write_command, serial_write_command_lem}

module _ {A : Type 0} (c : Codec A) where
  open c use {to_slice, from_bytes, from_bytes-to_slice, length-to_slice}

  pub serial_in_task-frames :
      (cmds : List A) (fuel : ℕ)
      → length cmds < fuel
      → serial_in_task c fuel (frames c cmds) ≡ returns (cmds, [])
  unfolding serial_in_task
  serial_in_task-frames cmds zero h = absurd (omega arith)
  serial_in_task-frames [] (suc fuel) h = refl
  serial_in_task-frames (m ∷ cmds) (suc fuel) h =
      let l = length (to_slice m) in
      let F = frames c cmds in
      rw (frame_lem c m, serial_in_task)
        (rw
          (
            le→not-ltb c.max_size l (length-to_slice m),
            le→not-ltb (length (to_slice m ++ F)) l (omega (arith, length-append (to_slice m) F)),
            take_of_append l (to_slice m) F refl,
            from_bytes-to_slice m,
            drop_of_append l (to_slice m) F refl,
            serial_in_task-frames cmds fuel (omega arith),
          )
          refl)

  -- What the server writes for some commands, each with the answers to its writes.
  abbrev pub sent : {E : Type 0} → List (A × List (Result ℕ E)) → Bytes
  sent [] = []
  sent ((cmd, answers) ∷ rest) = (serial_write_command c cmd (ok tt) answers).0 ++ sent rest

  abbrev pub ordered : {E : Type 0} → List (A × List (Result ℕ E)) → List A
  ordered [] = []
  ordered ((cmd, answers) ∷ rest) = cmd ∷ ordered rest

  abbrev pub AllProgress : {E : Type 0} → List (A × List (Result ℕ E)) → Type 0
  AllProgress [] = Unit
  AllProgress ((cmd, answers) ∷ rest) =
      Progress answers × (length (to_slice cmd) ≤ length answers) × AllProgress rest

  sent-frames :
      {E : Type 0} (writes : List (A × List (Result ℕ E)))
      → AllProgress writes
      → sent writes ≡ frames c (ordered writes)
  sent-frames [] h = refl
  sent-frames ((cmd, answers) ∷ rest) h =
      rw (serial_write_command_lem c cmd answers h.0 h.1, sent-frames rest h.2) refl

  -- Commands that the server writes one after another, however the single writes cut them, if no
  -- write fails and each takes at least one byte: the firmware sends on these commands, each once
  -- and in order, does not panic, and is left with no bytes of another one.
  pub commands_arrive :
      {E : Type 0} (writes : List (A × List (Result ℕ E)))
      → AllProgress writes
      → serial_in_task c (suc (length (sent writes))) (sent writes) ≡ returns (ordered writes, [])
  commands_arrive writes h = rw (sent-frames writes h) (
      serial_in_task-frames (ordered writes) (suc (length (frames c (ordered writes))))
        (omega (arith, length-frames c (ordered writes))))

  pub serial_reply_task-frames : (replies : List A) → serial_reply_task c replies ≡ frames c replies
  unfolding serial_reply_task
  serial_reply_task-frames [] = refl
  serial_reply_task-frames (r ∷ replies) =
      ap (λ t. frame c r ++ t) (serial_reply_task-frames replies)
