-- ===== src/Microbit/Wait/Debounce.antt =====
-- What has to happen before a wait for the battery ends (main.rs, lines 354 to 438).
use battery_tester.Prelude.{
  ◌≡◌, ◌≢◌, ◌⊎◌, inl, inr, refl, ap, List, [], ◌∷◌, ◌++◌, Option, none, some, arith,
}
use battery_tester.Microbit.Signal.{
  Signal, tick, bat_rising, bat_high, bat_low, Poll, waits, returned, unawaited,
}
use battery_tester.Microbit.Wait.{Contact, apart, touching, wait_bat_reconnect, wait_bat_present}

abbrev pub Wait : Type 0
Wait = Contact → Signal → Poll Contact (Unit {0})

-- Where a poll leaves a wait; `none` once it has returned. A signal that it does not wait for passes
-- unnoticed.
abbrev pub goes_to : Contact → Poll Contact (Unit {0}) → Option Contact
goes_to c (waits d rs) = some d
goes_to c (returned u rs) = none
goes_to c unawaited = some c

-- Where a wait stands after signals.
unfoldable pub settle : Wait → Contact → List Signal → Option Contact
settle wait c [] = some c
settle wait c (x ∷ xs) = elim (goes_to c (wait c x)) [ none ↦ none | some d ↦ settle wait d xs ]

-- No contact was lost.
abbrev pub NoLow : List Signal → Type 0
NoLow [] = Unit
NoLow (x ∷ xs) = (x ≢ bat_low) × NoLow xs

-- The signals hold a contact of the given kind that has not been lost since.
pub data Held (contact : Signal) (xs : List Signal) : Type 0 where
  held :
      (before since : List Signal) → xs ≡ before ++ contact ∷ since → NoLow since → Held contact xs

-- What a debounced wait does with one signal.
pub record IsDebounced (wait : Wait) (contact : Signal) : Type 0 where
  pub when_apart :
      (x : Signal)
      → (goes_to apart (wait apart x) ≡ some apart)
        ⊎ ((x ≡ contact) × (goes_to apart (wait apart x) ≡ some touching))
  pub when_touching :
      (x : Signal)
      → ((x ≢ bat_low) × (goes_to touching (wait touching x) ≡ some touching))
        ⊎ (goes_to touching (wait touching x) ≡ some apart)
        ⊎ ((x ≡ tick) × (goes_to touching (wait touching x) ≡ none))

reconnect-IsDebounced : IsDebounced wait_bat_reconnect bat_rising
unfolding wait_bat_reconnect
reconnect-IsDebounced = record { when_apart = λ x. ground arith; when_touching = λ x. ground arith }

present-IsDebounced : IsDebounced wait_bat_present bat_high
unfolding wait_bat_present
present-IsDebounced = record { when_apart = λ x. ground arith; when_touching = λ x. ground arith }

module _ (wait : Wait) (contact : Signal) (laws : IsDebounced wait contact) where
  later_contact : (x : Signal) (xs : List Signal) → Held contact xs → Held contact (x ∷ xs)
  later_contact x xs (held before since e h) = held (x ∷ before) since (ap (λ t. x ∷ t) e) h

  -- A wait that is touching has been so all along, with no loss, or since a contact.
  settle_touching :
      (c : Contact) (xs : List Signal)
      → settle wait c xs ≡ some touching
      → ((c ≡ touching) × NoLow xs) ⊎ Held contact xs
  unfolding settle
  settle_touching c [] e = inl (ground arith, tt)
  settle_touching apart (x ∷ xs) e = elim (laws.when_apart x) [
    | inl stays ↦ elim (settle_touching apart xs (rw (stays, settle) at e)) [
      | inl h ↦ absurd (ground arith)
      | inr h ↦ inr (later_contact x xs h)
    ]
    | inr touched ↦ elim (settle_touching touching xs (rw (touched.1, settle) at e)) [
      | inl h ↦ inr (held [] xs (ap (λ t. t ∷ xs) touched.0) h.1)
      | inr h ↦ inr (later_contact x xs h)
    ]
  ]
  settle_touching touching (x ∷ xs) e = elim (laws.when_touching x) [
    | inl stays ↦ elim (settle_touching touching xs (rw (stays.1, settle) at e)) [
      | inl h ↦ inl (refl, (stays.0, h.1))
      | inr h ↦ inr (later_contact x xs h)
    ]
    | inr (inl lost) ↦ elim (settle_touching apart xs (rw (lost, settle) at e)) [
      | inl h ↦ absurd (ground arith)
      | inr h ↦ inr (later_contact x xs h)
    ]
    | inr (inr done) ↦ absurd (ground arith)
  ]

  ends_debounced :
      (c : Contact) (xs : List Signal) (x : Signal)
      → settle wait apart xs ≡ some c
      → goes_to c (wait c x) ≡ none
      → (x ≡ tick) × Held contact xs
  ends_debounced apart xs x e done = elim (laws.when_apart x) [
    | inl stays ↦ absurd (ground arith)
    | inr touched ↦ absurd (ground arith)
  ]
  ends_debounced touching xs x e done = elim (laws.when_touching x) [
    | inl stays ↦ absurd (ground arith)
    | inr (inl lost) ↦ absurd (ground arith)
    | inr (inr ticked) ↦ elim (settle_touching apart xs e) [
      | inl h ↦ absurd (ground arith)
      | inr h ↦ (ticked.0, h)
    ]
  ]

-- `wait_bat_reconnect`, begun at its start, returns only on the debounce ticker, and only if a
-- rising edge of the battery input came before with no low level after it; a battery that was
-- connected all along never ends it.
pub wait_bat_reconnect_debounced :
    (c : Contact) (xs : List Signal) (x : Signal)
    → settle wait_bat_reconnect apart xs ≡ some c
    → goes_to c (wait_bat_reconnect c x) ≡ none
    → (x ≡ tick) × Held bat_rising xs
wait_bat_reconnect_debounced = ends_debounced wait_bat_reconnect bat_rising reconnect-IsDebounced

-- `wait_bat_present`, begun at its start, returns only on the debounce ticker, and only if a high
-- level of the battery input was seen before with no low level after it.
pub wait_bat_present_debounced :
    (c : Contact) (xs : List Signal) (x : Signal)
    → settle wait_bat_present apart xs ≡ some c
    → goes_to c (wait_bat_present c x) ≡ none
    → (x ≡ tick) × Held bat_high xs
wait_bat_present_debounced = ends_debounced wait_bat_present bat_high present-IsDebounced
