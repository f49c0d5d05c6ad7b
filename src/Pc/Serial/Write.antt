-- ===== src/Pc/Serial/Write.antt =====
-- Writing a command to the line (battery_tester_pc/src/serial.rs, lines 148 to 173).
-- `write` of the serial stream takes a beginning of the slice that it is given: it answers with a
-- number of bytes or an error.
use battery_tester.Prelude.{
  ℕ, zero, suc, ◌+◌, ◌-◌, ◌≤◌, ◌≡◌, refl, ap, sym, ◌∙◌, inl, inr, Bool-cases, List, [], ◌∷◌, ◌++◌,
  Result, ok, err, length, take, drop, take-append-drop, min, u8, ◌==◌, if◌then◌else◌, ==→eq,
  not-==→ne, arith,
}
use battery_tester.Wire.{Bytes, Codec, frame}

-- Where the function stands after the answers given: it has returned `Ok`, or the error of a write,
-- or it waits for the answer to its next write.
pub data Written (E : Type 0) : Type 0 where
  finished writing : Written E
  failed : E → Written E

drop_end : (xs : Bytes) (n : ℕ) → length xs ≤ n → drop n xs ≡ []
drop_end [] zero h = refl
drop_end [] (suc n) h = refl
drop_end (x ∷ xs) zero h = absurd (omega arith)
drop_end (x ∷ xs) (suc n) h = drop_end xs n (omega arith)

drop_twice : (m n : ℕ) (xs : Bytes) → drop n (drop m xs) ≡ drop (m + n) xs
drop_twice zero n xs = ap (λ k. drop k xs) (omega arith)
drop_twice (suc m) n [] = drop_end [] n (omega arith) ∙ sym (drop_end [] (suc m + n) (omega arith))
drop_twice (suc m) n (x ∷ xs) =
    let e : suc (m + n) ≡ suc m + n = omega arith in drop_twice m n xs ∙ ap (λ k. drop k (x ∷ xs)) e

module _ {E : Type 0} where
  -- The loop, and the bytes that have gone to the line.
  unfoldable pub write_loop : Bytes → ℕ → ℕ → List (Result ℕ E) → Bytes × Written E
  write_loop outgoing total remaining [] = ([], if remaining == 0 then finished else writing)
  write_loop outgoing total remaining (err e ∷ answers) =
      ([], if remaining == 0 then finished else failed e)
  write_loop outgoing total remaining (ok n ∷ answers) =
      let taken = min n remaining in
      let rest = write_loop outgoing total (remaining - taken) answers in
      if remaining == 0
      then ([], finished)
      else (take taken (drop (total - remaining) outgoing) ++ rest.0, rest.1)

  -- `write_u8` and the loop.
  unfoldable pub serial_write_general :
      Bytes → Result (Unit {0}) E → List (Result ℕ E) → Bytes × Written E
  unfolding write_loop
  serial_write_general outgoing (err e) answers = ([], failed e)
  serial_write_general outgoing (ok _) answers =
      let total = u8 (length outgoing) in
      let rest = write_loop outgoing total total answers in (total ∷ rest.0, rest.1)

  unfoldable pub serial_write_command :
      {A : Type 0} → Codec A → A → Result (Unit {0}) E → List (Result ℕ E) → Bytes × Written E
  unfolding serial_write_general
  serial_write_command c ctrl_word first answers =
      serial_write_general (c.to_slice ctrl_word) first answers

  -- Every write takes at least one byte.
  abbrev pub Progress : List (Result ℕ E) → Type 0
  Progress [] = Unit
  Progress (err e ∷ answers) = ⊥
  Progress (ok n ∷ answers) = (1 ≤ n) × Progress answers

  write_loop_lem :
      (outgoing : Bytes) (total remaining : ℕ) (answers : List (Result ℕ E))
      → length outgoing ≡ total
      → remaining ≤ total
      → remaining ≤ length answers
      → Progress answers
      → write_loop outgoing total remaining answers ≡ (drop (total - remaining) outgoing, finished)
  unfolding write_loop
  write_loop_lem o t r [] l h k g =
      let none_left : r ≡ 0 = omega arith in rw (none_left, drop_end o (t - 0) (omega arith)) refl
  write_loop_lem o t r (err e ∷ answers) l h k g = absurd g
  write_loop_lem o t r (ok n ∷ answers) l h k g = elim (Bool-cases (r == 0)) [
    | inl e ↦ let none_left : r ≡ 0 = ==→eq r 0 e in rw (e, drop_end o (t - r) (omega arith)) refl
    | inr e ↦
        let some_left : 1 ≤ r = omega (arith, not-==→ne r 0 e) in
        let onward : t - (r - min n r) ≡ (t - r) + min n r = omega arith in
        rw
          (
            e,
            write_loop_lem o t (r - min n r) answers l (omega arith) (omega (arith, g.0)) g.1,
            onward,
            sym (drop_twice (t - r) (min n r) o),
            take-append-drop (min n r) (drop (t - r) o),
          )
          refl
  ]

  -- A command is written, whatever parts of it the single writes take: if the length byte goes out,
  -- no write fails and each takes at least one byte, then as many writes as there are bytes are
  -- enough, the function returns `Ok`, and exactly one frame has gone to the line.
  pub serial_write_command_lem :
      {A : Type 0} (c : Codec A) (ctrl_word : A) (answers : List (Result ℕ E))
      → Progress answers
      → length (c.to_slice ctrl_word) ≤ length answers
      → serial_write_command c ctrl_word (ok tt) answers ≡ (frame c ctrl_word, finished)
  unfolding serial_write_command frame
  serial_write_command_lem c a answers g k =
      let l = length (c.to_slice a) in
      let whole : u8 l ≡ l = omega (arith, c.length-to_slice a, c.max_size_byte) in
      let all : l - l ≡ 0 = omega arith in
      rw (whole, write_loop_lem (c.to_slice a) l l answers refl (omega arith) k g, all) refl
