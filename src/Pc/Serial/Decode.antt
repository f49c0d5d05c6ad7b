-- ===== src/Pc/Serial/Decode.antt =====
-- Taking replies out of the received bytes (battery_tester_pc/src/serial.rs, lines 175 to 230).
-- `from_bytes(..).unwrap()` panics on bytes that are no message.
use battery_tester.Prelude.{
  ℕ, zero, suc, ◌+◌, ◌-◌, List, [], ◌∷◌, ◌++◌, Option, none, some, Checked, returns, panic, ◌>>=◌,
  leb, if◌then◌else◌, length, get_elem?, take, drop, ◌==◌,
}
use battery_tester.Wire.{Bytes, Codec}

-- `incoming_buf.get(from..to)`.
unfoldable pub get_range : Bytes → ℕ → ℕ → Option Bytes
get_range buf from to =
    if leb from to
    then (if leb to (length buf) then some (take (to - from) (drop from buf)) else none)
    else none

-- `copy_within(idx.., 0)` and `truncate(new_len)`.
unfoldable pub keep_rest : Bytes → ℕ → Bytes
keep_rest buf idx =
    let new_len = length buf - idx in
    take new_len (if new_len == 0 then buf else drop idx buf ++ drop new_len buf)

module _ {A : Type 0} (c : Codec A) where
  open c use {from_bytes}

  -- The loop, from index `idx`: the messages sent, and where it stops, or that it panics on a message
  -- that is none, with those before it already sent. Each round moves `idx` on, so as many rounds as
  -- there are bytes, and one to see the end, are enough.
  unfoldable pub decode_loop : ℕ → Bytes → ℕ → List A × Checked ℕ
  unfolding get_range
  decode_loop zero buf idx = ([], returns idx)
  decode_loop (suc fuel) buf idx = elim (get_elem? buf idx) [
    | none ↦ ([], returns idx)
    | some msg_len ↦ elim (get_range buf (idx + 1) (msg_len + (idx + 1))) [
      | none ↦ ([], returns idx)
      | some raw_msg ↦ elim (from_bytes raw_msg) [
        | none ↦ ([], panic)
        | some reply ↦ let r = decode_loop fuel buf (msg_len + (idx + 1)) in (reply ∷ r.0, r.1)
      ]
    ]
  ]

  -- The messages sent, and the buffer that is left.
  unfoldable pub serial_decode : Bytes → List A × Checked Bytes
  unfolding decode_loop keep_rest
  serial_decode buf =
      let r = decode_loop (suc (length buf)) buf 0 in
      (r.0, r.1 >>= λ idx. returns (keep_rest buf idx))

  -- `rest` of the reads, behind one of them.
  abbrev pub then_reads :
      (Bytes → List A × Checked Bytes) → List A × Checked Bytes → List A × Checked Bytes
  then_reads rest (sent, panic) = (sent, panic)
  then_reads rest (sent, returns incoming_buf) =
      let later = rest incoming_buf in (sent ++ later.0, later.1)

  -- `serial_read_response` and `serial_decode`, for the bytes that each of the reads appends.
  unfoldable pub receive : List Bytes → Bytes → List A × Checked Bytes
  receive [] incoming_buf = ([], returns incoming_buf)
  receive (chunk ∷ chunks) incoming_buf =
      then_reads (λ rest. receive chunks rest) (serial_decode (incoming_buf ++ chunk))
