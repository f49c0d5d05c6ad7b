-- ===== src/Microbit/Serial/Uart.antt =====
-- The firmware's serial tasks with the answers of the UART (main.rs, lines 81 to 131), a round of the
-- loop each. `serial_in.read` fills the slice that it is given, or fails.
use battery_tester.Prelude.{
  ℕ, zero, suc, ◌≡◌, refl, ap, ◌∙◌, Bool-cases, inl, inr, List, [], ◌∷◌, ◌++◌, Checked, returns,
  panic, ◌>>=◌, ltb, if◌then◌else◌, length, take, drop, u8,
}
use battery_tester.Wire.{Bytes, Codec, frame}
use battery_tester.Wire.Stream.{frames}
use battery_tester.Microbit.Serial.{unwrap, serial_in_task}

-- What the two reads of a round answer; `waits` is a message that has not come in full. Without a
-- length there is no second read.
pub data InRound (E : Type 0) : Type 0 where
  no_len : E → InRound E
  no_msg : ℕ → E → InRound E
  whole : ℕ → Bytes → InRound E
  waits : ℕ → InRound E

-- What the two writes of a round answer, an error with the number of the bytes that went before.
pub data OutRound : Type 0 where
  len_error : ℕ → OutRound
  msg_error : ℕ → OutRound
  both : OutRound

module _ {A : Type 0} (c : Codec A) where
  open c use {to_slice, from_bytes, max_size, from_bytes-to_slice, length-to_slice}

  -- The slice `..msg_len` of a buffer of `COMMAND_MAX_SIZE` bytes.
  sliced : {B : Type 0} → ℕ → Checked B → Checked B
  sliced msg_len rest = if ltb max_size msg_len then panic else rest

  -- The commands that are sent on.
  unfoldable pub serial_in_rounds : {E : Type 0} → List (InRound E) → Checked (List A)
  unfolding sliced
  serial_in_rounds [] = returns []
  serial_in_rounds (no_len e ∷ rs) = serial_in_rounds rs
  serial_in_rounds (no_msg msg_len e ∷ rs) = sliced msg_len (serial_in_rounds rs)
  serial_in_rounds (waits msg_len ∷ rs) = sliced msg_len (returns [])
  serial_in_rounds (whole msg_len in_msg ∷ rs) =
      sliced msg_len (
        unwrap c (from_bytes in_msg) >>= λ cmd.
        serial_in_rounds rs >>= λ cmds. returns (cmd ∷ cmds))

  -- What a round of `serial_reply_task` puts on the line.
  reply_round : A → OutRound → Bytes
  reply_round reply (len_error n) = take n (u8 (length (to_slice reply)) ∷ [])
  reply_round reply (msg_error n) = u8 (length (to_slice reply)) ∷ take n (to_slice reply)
  reply_round reply both = u8 (length (to_slice reply)) ∷ to_slice reply

  unfoldable pub serial_reply_rounds : List (A × OutRound) → Bytes
  unfolding reply_round
  serial_reply_rounds [] = []
  serial_reply_rounds ((reply, r) ∷ rs) = reply_round reply r ++ serial_reply_rounds rs

  -- The rounds that an undisturbed line with these bytes gives.
  abbrev pub undisturbed : {E : Type 0} → ℕ → Bytes → List (InRound E)
  undisturbed zero line = []
  undisturbed (suc fuel) [] = []
  undisturbed (suc fuel) (msg_len ∷ line) =
      let rest = undisturbed fuel (drop msg_len line) in
      if ltb (length line) msg_len
      then waits msg_len ∷ []
      else whole msg_len (take msg_len line) ∷ rest

  -- A command before others, with or without the bytes that are left.
  one_more :
      (u : Checked A) (t : Checked (List A × Bytes))
      → (u >>= λ cmd. (t >>= λ x. returns x.0) >>= λ cmds. returns (cmd ∷ cmds)) ≡ (
          let all : Checked (List A × Bytes) = u >>= λ cmd. t >>= λ r. returns (cmd ∷ r.0, r.1) in
          all >>= λ x. returns x.0)
  one_more panic t = refl
  one_more (returns cmd) panic = refl
  one_more (returns cmd) (returns r) = refl

  -- On the bytes of an undisturbed line, the rounds send on the commands that `serial_in_task` does,
  -- and panic when it does.
  serial_in_rounds-undisturbed :
      (E : Type 0) (fuel : ℕ) (line : Bytes)
      → let rounds : List (InRound E) = undisturbed fuel line in
        serial_in_rounds rounds ≡ (serial_in_task c fuel line >>= λ x. returns x.0)
  unfolding serial_in_rounds serial_in_task sliced
  serial_in_rounds-undisturbed E zero line = refl
  serial_in_rounds-undisturbed E (suc fuel) [] = refl
  serial_in_rounds-undisturbed E (suc fuel) (msg_len ∷ line) =
      elim (Bool-cases (ltb (length line) msg_len)) [
        | inl short ↦ elim (Bool-cases (ltb max_size msg_len)) [
          | inl big ↦ rw (short, big) refl
          | inr fits ↦ rw (short, fits) refl
        ]
        | inr enough ↦ elim (Bool-cases (ltb max_size msg_len)) [
          | inl big ↦ rw (enough, big) refl
          | inr fits ↦
              rw (enough, fits)
                (ap
                    (λ t. unwrap c (from_bytes (take msg_len line)) >>= λ cmd.
                      t >>= λ cmds. returns (cmd ∷ cmds))
                    (serial_in_rounds-undisturbed E fuel (drop msg_len line))
                  ∙ one_more (unwrap c (from_bytes (take msg_len line)))
                      (serial_in_task c fuel (drop msg_len line)))
        ]
      ]

module _ {A : Type 0} (c : Codec A) where
  -- The replies that go out whole; of the others the length byte fails, with nothing of it gone.
  abbrev pub gone_out : List (A × OutRound) → List A
  gone_out [] = []
  gone_out ((reply, both) ∷ rs) = reply ∷ gone_out rs
  gone_out ((reply, _) ∷ rs) = gone_out rs

  abbrev pub Clean : List (A × OutRound) → Type 0
  Clean [] = Unit
  Clean ((reply, both) ∷ rs) = Clean rs
  Clean ((reply, len_error n) ∷ rs) = (n ≡ 0) × Clean rs
  Clean ((reply, msg_error n) ∷ rs) = ⊥

  -- A reply whose length cannot be written is left out of the stream of the others.
  serial_reply_rounds-frames :
      (rs : List (A × OutRound)) → Clean rs → serial_reply_rounds c rs ≡ frames c (gone_out rs)
  unfolding serial_reply_rounds frame
  serial_reply_rounds-frames [] h = refl
  serial_reply_rounds-frames ((reply, both) ∷ rs) h =
      ap (λ t. frame c reply ++ t) (serial_reply_rounds-frames rs h)
  serial_reply_rounds-frames ((reply, len_error n) ∷ rs) h =
      rw (h.0, serial_reply_rounds-frames rs h.1) refl
  serial_reply_rounds-frames ((reply, msg_error n) ∷ rs) h = absurd h
