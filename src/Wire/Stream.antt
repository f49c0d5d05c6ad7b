-- ===== src/Wire/Stream.antt =====
-- Streams of framed messages, cut anywhere.
use battery_tester.Prelude.{
  suc, ◌≤◌, ◌<◌, ◌≡◌, refl, ap, sym, ◌∙◌, ◌⊎◌, inl, inr, List, [], ◌∷◌, ◌++◌, append_assoc,
  list_laws, length, length-append, arith,
}
use battery_tester.Wire.{Bytes, Codec, frame}

module _ {A : Type 0} (c : Codec A) where
  open c use {to_slice, max_size, length-to_slice, max_size_byte}

  abbrev pub frames : List A → Bytes
  frames [] = []
  frames (a ∷ as') = frame c a ++ frames as'

  -- The length byte is the length.
  pub frame_lem : (a : A) → frame c a ≡ length (to_slice a) ∷ to_slice a
  unfolding frame
  frame_lem a = ap (λ t. t ∷ to_slice a) (omega (arith, length-to_slice a, max_size_byte))

  pub frames-append : (xs ys : List A) → frames (xs ++ ys) ≡ frames xs ++ frames ys
  frames-append [] ys = refl
  frames-append (x ∷ xs) ys = simp (frames-append xs ys, list_laws)

  pub length-frames : (as' : List A) → length as' ≤ length (frames as')
  length-frames [] = omega arith
  length-frames (a ∷ as') =
      rw frame_lem (omega (arith, length-frames as', length-append {0} (to_slice a) (frames as')))

-- The beginning of a message, with its end still to come.
abbrev pub Partial : Bytes → Type 0
Partial [] = Unit
Partial (l ∷ body) = length body < l

-- What a cut through a stream of messages leaves on its two sides.
pub record Cut {A : Type 0} (c : Codec A) (xs ys : Bytes) (ms : List A) : Type 0 where
  pub done : List A
  pub todo : List A
  pub rest : Bytes
  pub whole : ms ≡ done ++ todo
  pub before : xs ≡ frames c done ++ rest
  pub incomplete : Partial rest
  pub after : rest ++ ys ≡ frames c todo

-- A list that is cut in two ways: one of the first parts continues the other.
append_cases {ℓ} :
    {A : Type ℓ} (xs ys us vs : List A)
    → xs ++ ys ≡ us ++ vs
    → ((z : List A) × (us ≡ xs ++ z) × (ys ≡ z ++ vs) × (length xs < length us))
      ⊎ ((z : List A) × (xs ≡ us ++ z) × (vs ≡ z ++ ys))
append_cases xs ys [] vs e = inr (xs, refl, sym e)
append_cases [] ys (u ∷ us) vs e = inl (u ∷ us, refl, e, omega arith)
append_cases (x ∷ xs) ys (u ∷ us) vs e = elim (append_cases xs ys us vs (cc)) [
  | inl (z, p, q, n) ↦ inl (z, cc, q, omega arith)
  | inr (z, p, q) ↦ inr (z, cc, q)
]

short_of_frame :
    {A : Type 0} (c : Codec A) (a : A) (xs z : Bytes)
    → frame c a ≡ xs ++ z
    → length xs < length (frame c a)
    → Partial xs
short_of_frame c a [] z e h = tt
short_of_frame c a (x ∷ xs) z e h =
    let e' : length (c.to_slice a) ∷ c.to_slice a ≡ x ∷ (xs ++ z) = sym (frame_lem c a) ∙ e in
    let l : length (c.to_slice a) ≡ x = cc in
    let n : length (frame c a) ≡ suc (length (c.to_slice a)) = ap length (frame_lem c a) in
    omega arith

pub split_anywhere :
    {A : Type 0} (c : Codec A) (ms : List A) (xs ys : Bytes)
    → xs ++ ys ≡ frames c ms
    → Cut c xs ys ms
split_anywhere c [] [] ys e = record {
  done = [];
  todo = [];
  rest = [];
  whole = refl;
  before = refl;
  incomplete = tt;
  after = e;
}
split_anywhere c [] (x ∷ xs) ys e = cc
split_anywhere c (m ∷ ms) xs ys e = elim (append_cases xs ys (frame c m) (frames c ms) e) [
  | inl (z, p, q, n) ↦ record {
    done = [];
    todo = m ∷ ms;
    rest = xs;
    whole = refl;
    before = refl;
    incomplete = short_of_frame c m xs z p n;
    after = e;
  }
  | inr (z, p, q) ↦
      let more = split_anywhere c ms z ys (sym q) in
      record {
        done = m ∷ more.done;
        todo = more.todo;
        rest = more.rest;
        whole = ap (λ t. m ∷ t) more.whole;
        before =
            p
            ∙ ap (λ t. frame c m ++ t) more.before
            ∙ sym (append_assoc (frame c m) (frames c more.done) more.rest);
        incomplete = more.incomplete;
        after = more.after;
      }
]
