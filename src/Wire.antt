-- ===== src/Wire.antt =====
-- How a message travels: `postcard` bytes behind a byte of their length
-- (battery_tester_common/src/lib.rs, lines 8 and 9; serial.rs and main.rs use it on both sides).
pub mod Stream
pub mod Pairs
pub mod Plain
use battery_tester.Prelude.{ℕ, ◌≤◌, ◌<◌, ◌≡◌, List, ◌∷◌, Option, some, length, u8}

abbrev pub Bytes : Type 0
Bytes = List ℕ

-- `postcard`, which the program does not implement, at one type of messages: `to_slice` into a
-- buffer of `POSTCARD_MAX_SIZE` bytes and `from_bytes`, with what the code relies on. The tests of
-- battery_tester_common check that the sizes fit a byte.
pub record Codec (A : Type 0) : Type 0 where
  pub to_slice : A → Bytes
  pub from_bytes : Bytes → Option A
  pub max_size : ℕ
  pub from_bytes-to_slice : (a : A) → from_bytes (to_slice a) ≡ some a
  pub length-to_slice : (a : A) → length (to_slice a) ≤ max_size
  pub max_size_byte : max_size < 256

-- A message on the line: its length as a byte, and its bytes. (`serial_write_general` and
-- `serial_reply_task` write it in two parts.)
unfoldable pub frame : {A : Type 0} → Codec A → A → Bytes
frame c a = u8 (length (c.to_slice a)) ∷ c.to_slice a
