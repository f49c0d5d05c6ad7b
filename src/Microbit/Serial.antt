-- ===== src/Microbit/Serial.antt =====
-- The firmware's serial tasks (main.rs, lines 81 to 131), on the bytes of an undisturbed line.
-- `serial_in.read` fills the slice that it is given, and waits for as many bytes.
pub mod Commands
pub mod Uart
mod Tests
use battery_tester.Prelude.{
  ℕ, zero, suc, ◌+◌, List, [], ◌∷◌, ◌++◌, Option, none, some, Checked, returns, panic, ◌>>=◌, ltb,
  if◌then◌else◌, length, take, drop,
}
use battery_tester.Wire.{Bytes, Codec, frame}

module _ {A : Type 0} (c : Codec A) where
  open c use {from_bytes, max_size}

  unfoldable pub unwrap : Option A → Checked A
  unwrap none = panic
  unwrap (some a) = returns a

  -- The commands that are sent on, and the bytes of a command that has not arrived in full. The
  -- slice of the buffer panics on a length above `COMMAND_MAX_SIZE`.
  unfoldable pub serial_in_task : ℕ → Bytes → Checked (List A × Bytes)
  unfolding unwrap
  serial_in_task zero line = returns ([], line)
  serial_in_task (suc fuel) [] = returns ([], [])
  serial_in_task (suc fuel) (msg_len ∷ line) =
      if ltb max_size msg_len
      then panic
      else (if ltb (length line) msg_len
          then returns ([], msg_len ∷ line)
          else (unwrap (from_bytes (take msg_len line)) >>= λ cmd.
              serial_in_task fuel (drop msg_len line) >>= λ r. returns (cmd ∷ r.0, r.1)))

  -- What the writes of length and message put on the line for some replies.
  unfoldable pub serial_reply_task : List A → Bytes
  unfolding frame
  serial_reply_task [] = []
  serial_reply_task (reply ∷ replies) = frame c reply ++ serial_reply_task replies
