-- ===== src/Pc/Serial/Com/Damaged.antt =====
-- Bytes that are no reply (battery_tester_pc/src/serial.rs, lines 56 to 62 and 183 to 206).
use battery_tester.Prelude.{
  ℕ, zero, suc, ◌<◌, ◌≡◌, refl, ap, List, [], ◌∷◌, ◌++◌, map, Option, none, true, ok, panic,
  append_assoc, length, length-append, arith,
}
use battery_tester.Common.{BiCommand, BiReply}
use battery_tester.Wire.{Bytes, Codec, frame}
use battery_tester.Wire.Stream.{frames, length-frames}
use battery_tester.Pc.Text.{Text}
use battery_tester.Pc.Messages.{ComCmd, Event}
use battery_tester.Pc.Serial.Decode.{decode_loop, serial_decode}
use battery_tester.Pc.Serial.Stream.{get_elem?-rest, get_range_whole, decode_round}
use battery_tester.Pc.Serial.Com.{Answers, read, Line, panicked, send, sends, decoded, round}

module _ {A : Type 0} (c : Codec A) (raw more : Bytes) (bad : c.from_bytes raw ≡ none) where
  -- The bytes of a message that is none, behind its length.
  abbrev rest : Bytes
  rest = length raw ∷ (raw ++ more)

  decode_bad :
      (ms : List A) (fuel : ℕ) (pre : Bytes)
      → length ms < fuel
      → decode_loop c fuel (pre ++ (frames c ms ++ rest)) (length pre) ≡ (ms, panic)
  unfolding decode_loop
  decode_bad ms zero pre n = absurd (omega arith)
  decode_bad [] (suc fuel) pre n = rw (
    decode_loop,
    get_elem?-rest pre (length raw) (raw ++ more),
    get_range_whole pre raw more (length raw),
    bad,
  )
  decode_bad (m ∷ ms) (suc fuel) pre n = rw (
    append_assoc (frame c m) (frames c ms) rest,
    decode_round c m fuel pre (frames c ms ++ rest),
    decode_bad ms fuel (pre ++ frame c m) (omega arith),
  )

  serial_decode-bad : (ms : List A) → serial_decode c (frames c ms ++ rest) ≡ (ms, panic)
  unfolding serial_decode
  serial_decode-bad ms =
      rw
        (decode_bad ms (suc (length (frames c ms ++ rest))) []
          (omega (arith, length-frames c ms, length-append (frames c ms) rest)))
        refl

all_sent : (s : Line) (es : List Event) → (sends true s [] es).1 ≡ map send es
unfolding sends
all_sent s [] = refl
all_sent s (e ∷ es) = refl

-- A connected server, while the control task listens, reads bytes that make up, behind those that it has
-- kept, some whole replies and then a message that is none, whatever comes behind that: it sends the
-- replies on, each once and in order, and then panics.
pub round-damaged :
    (commands : Codec BiCommand) (replies : Codec BiReply) (debug : Option ComCmd → Text) (s : Line)
    (a : Answers) (chunk raw more : Bytes) (ms : List BiReply)
    → replies.from_bytes raw ≡ none
    → s.incoming_buf ++ chunk ≡ frames replies ms ++ length raw ∷ (raw ++ more)
    → a.listening ≡ true
    → round commands replies debug s a (read (ok chunk))
      ≡ (panicked, map send (map Event.com_reply ms))
unfolding round decoded
round-damaged commands replies debug s a chunk raw more ms bad e on =
    rw (e, serial_decode-bad replies raw more bad ms, on)
      (ap (λ outs. (panicked, outs)) (all_sent s (map Event.com_reply ms)))
