-- ===== src/Pc/Serial/Stream.antt =====
-- `serial_decode` on streams of framed messages (battery_tester_pc/src/serial.rs, lines 183 to 230).
use battery_tester.Prelude.{
  ℕ, zero, suc, ◌+◌, ◌-◌, ◌<◌, ◌≡◌, refl, ap, sym, ◌∙◌, List, [], ◌∷◌, ◌++◌, append-nil,
  append_assoc, none, some, false, returns, length, get_elem?, drop, ◌==◌, length-append,
  take_of_append, drop_of_append, arith,
}
use battery_tester.Wire.{Bytes, Codec, frame}
use battery_tester.Wire.Stream.{frames, frame_lem, length-frames, Partial, split_anywhere}
use battery_tester.Pc.Serial.Decode.{get_range, decode_loop, keep_rest, serial_decode, receive}

get_elem?-append : (pre xs : Bytes) → get_elem? (pre ++ xs) (length pre) ≡ get_elem? xs 0
get_elem?-append [] xs = refl
get_elem?-append (x ∷ pre) xs = get_elem?-append pre xs

pub get_elem?-rest :
    (pre : Bytes) (l : ℕ) (xs : Bytes) → get_elem? (pre ++ l ∷ xs) (length pre) ≡ some l
get_elem?-rest pre l xs = get_elem?-append pre (l ∷ xs)

drop-past : (pre : Bytes) (l : ℕ) (xs : Bytes) → drop (suc (length pre)) (pre ++ l ∷ xs) ≡ xs
drop-past [] l xs = refl
drop-past (p ∷ pre) l xs = drop-past pre l xs

-- The bytes of a message are all there.
pub get_range_whole :
    (pre body more : Bytes) (l : ℕ)
    → get_range (pre ++ l ∷ (body ++ more)) (length pre + 1) (length body + (length pre + 1))
      ≡ some body
unfolding get_range
get_range_whole pre body more l =
    let n = length-append pre (l ∷ (body ++ more)) in
    let m = length-append body more in
    let e : length pre + 1 ≡ suc (length pre) = omega arith in
    rw
      (
        ap (λ k. drop k (pre ++ l ∷ (body ++ more))) e,
        drop-past pre l (body ++ more),
        take_of_append (length body + (length pre + 1) - (length pre + 1)) body more (omega arith),
      )
      (ground (arith, n, m))

-- The bytes of a message are not all there.
get_range_partial :
    (pre body : Bytes) (l : ℕ)
    → length body < l
    → get_range (pre ++ l ∷ body) (length pre + 1) (l + (length pre + 1)) ≡ none
unfolding get_range
get_range_partial pre body l h = let n = length-append pre (l ∷ body) in ground (arith, n)

suc-not-== : (n : ℕ) → (suc n == 0) ≡ false
suc-not-== n = ground arith

module _ {A : Type 0} (c : Codec A) where
  open c use {to_slice, from_bytes, from_bytes-to_slice}

  -- One round takes one message.
  decode_step :
      (a : A) (fuel idx l : ℕ) (buf raw : Bytes)
      → get_elem? buf idx ≡ some l
      → get_range buf (idx + 1) (l + (idx + 1)) ≡ some raw
      → from_bytes raw ≡ some a
      → decode_loop c (suc fuel) buf idx
        ≡ (let r = decode_loop c fuel buf (l + (idx + 1)) in (a ∷ r.0, r.1))
  unfolding decode_loop
  decode_step a fuel idx l buf raw p q d = rw (decode_loop, p, q, d)

  pub decode_round :
      (a : A) (fuel : ℕ) (pre more : Bytes)
      → decode_loop c (suc fuel) (pre ++ (frame c a ++ more)) (length pre) ≡ (
          let r = decode_loop c fuel ((pre ++ frame c a) ++ more) (length (pre ++ frame c a)) in
          (a ∷ r.0, r.1))
  decode_round a fuel pre more =
      let l = length (to_slice a) in
      let n : l + (length pre + 1) ≡ length (pre ++ (l ∷ to_slice a)) =
        omega (arith, length-append pre (l ∷ to_slice a)) in
      rw (append_assoc pre (frame c a) more, frame_lem c a, sym n)
        (decode_step a fuel (length pre) l (pre ++ l ∷ (to_slice a ++ more)) (to_slice a)
          (get_elem?-rest pre l (to_slice a ++ more)) (get_range_whole pre (to_slice a) more l)
          (from_bytes-to_slice a))

  decode_end :
      (fuel : ℕ) (pre rest : Bytes)
      → Partial rest
      → decode_loop c (suc fuel) (pre ++ rest) (length pre) ≡ ([], returns (length pre))
  unfolding decode_loop
  decode_end fuel pre [] h = rw (decode_loop, get_elem?-append pre [])
  decode_end fuel pre (l ∷ body) h =
      rw (decode_loop, get_elem?-rest pre l body, get_range_partial pre body l h)

  decode_frames :
      (ms : List A) (fuel : ℕ) (pre rest : Bytes)
      → Partial rest
      → length ms < fuel
      → decode_loop c fuel (pre ++ (frames c ms ++ rest)) (length pre)
        ≡ (ms, returns (length (pre ++ frames c ms)))
  decode_frames ms zero pre rest h n = absurd (omega arith)
  decode_frames [] (suc fuel) pre rest h n = rw (append-nil pre) (decode_end fuel pre rest h)
  decode_frames (m ∷ ms) (suc fuel) pre rest h n = rw (
    append_assoc (frame c m) (frames c ms) rest,
    decode_round m fuel pre (frames c ms ++ rest),
    decode_frames ms fuel (pre ++ frame c m) rest h (omega arith),
    append_assoc pre (frame c m) (frames c ms),
  )

  keep_rest_lem : (xs rest : Bytes) → keep_rest (xs ++ rest) (length xs) ≡ rest
  unfolding keep_rest
  keep_rest_lem xs [] =
      let n : length (xs ++ []) - length xs ≡ 0 = omega (arith, length-append xs []) in rw n refl
  keep_rest_lem xs (r ∷ rest) =
      let n : length (xs ++ r ∷ rest) - length xs ≡ suc (length rest) =
        omega (arith, length-append xs (r ∷ rest)) in
      rw (
        n,
        suc-not-== (length rest),
        drop_of_append (length xs) xs (r ∷ rest) refl,
        take_of_append (suc (length rest)) (r ∷ rest) (drop (suc (length rest)) (xs ++ r ∷ rest))
            refl,
      )

  -- A buffer that begins with whole messages: they are sent in order, none of them makes the task
  -- panic, and the beginning of the next message moves to the front of the buffer.
  pub serial_decode-frames :
      (ms : List A) (rest : Bytes)
      → Partial rest
      → serial_decode c (frames c ms ++ rest) ≡ (ms, returns rest)
  unfolding serial_decode
  serial_decode-frames ms rest h = rw (
    decode_frames ms (suc (length (frames c ms ++ rest))) [] rest h
        (omega (arith, length-frames c ms, length-append (frames c ms) rest)),
    keep_rest_lem (frames c ms) rest,
  )

-- All the bytes of the reads.
abbrev pub joined : List Bytes → Bytes
joined [] = []
joined (chunk ∷ chunks) = chunk ++ joined chunks

module _ {A : Type 0} (c : Codec A) where
  no_frames : (ms : List A) (xs : Bytes) → Partial xs → xs ≡ frames c ms → (xs ≡ []) × (ms ≡ [])
  no_frames [] xs h e = (e, refl)
  no_frames (m ∷ ms) [] h e = absurd (omega (arith, length-frames c (m ∷ ms), ap length e))
  no_frames (m ∷ ms) (l ∷ body) h e =
      let e' : l ∷ body ≡ length (c.to_slice m) ∷ (c.to_slice m ++ frames c ms) =
        e ∙ ap (λ t. t ++ frames c ms) (frame_lem c m) in
      let p : l ≡ length (c.to_slice m) = cc in
      absurd (omega (arith, ap length e', length-append (c.to_slice m) (frames c ms)))

  receive-joined :
      (chunks : List Bytes) (ms : List A) (buf : Bytes)
      → Partial buf
      → buf ++ joined chunks ≡ frames c ms
      → receive c chunks buf ≡ (ms, returns [])
  unfolding receive
  receive-joined [] ms buf h e =
      let q = no_frames ms buf h (sym (append-nil buf) ∙ e) in rw (q.0, q.1) refl
  receive-joined (chunk ∷ chunks) ms buf h e =
      let cut =
        split_anywhere c ms (buf ++ chunk) (joined chunks)
          (append_assoc buf chunk (joined chunks) ∙ e) in
      rw (
        cut.before,
        serial_decode-frames c cut.done cut.rest cut.incomplete,
        receive-joined chunks cut.todo cut.rest cut.incomplete cut.after,
        cut.whole,
      )

  -- However the line cuts the bytes of some messages into reads, in the middle of messages as well:
  -- the server gets these messages, each once and in order, does not panic, and keeps no bytes.
  pub receive_lem :
      (chunks : List Bytes) (ms : List A)
      → joined chunks ≡ frames c ms
      → receive c chunks [] ≡ (ms, returns [])
  receive_lem chunks ms e = receive-joined chunks ms [] tt e
