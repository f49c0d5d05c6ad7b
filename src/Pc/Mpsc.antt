-- ===== src/Pc/Mpsc.antt =====
-- The channels between the tasks of the server: `tokio::sync::mpsc` as a parameter, of which the code
-- relies on this: a channel is a queue of bounded length, a sender waits while it is full, and `send`
-- fails once the receiver is gone.
use battery_tester.Prelude.{
  ℕ, ◌≤◌, ◌<◌, ◌≡◌, refl, Bool, true, false, List, [], ◌∷◌, ◌++◌, Option, none, some, length, ap,
  suc, arith,
}
use mathlib.Core.Path.{subst}

pub record Queues : Type 1 where
  pub Chan : Type 0 → Type 0
  pub channel : (A : Type 0) → ℕ → Chan A
  -- `none` is a sender that has to wait, and a receiver for which there is nothing.
  pub send : (A : Type 0) → Chan A → A → Option (Chan A)
  pub recv : (A : Type 0) → Chan A → Option (A × Chan A)

-- What a send and a receive do, told from the contents of a channel and its bound.
abbrev pub Sent :
    (q : Queues) (A : Type 0)
    → (q.Chan A → List A)
    → (q.Chan A → ℕ)
    → q.Chan A
    → A
    → Option (q.Chan A)
    → Type 0
Sent q A contents bound c a none = bound c ≤ length (contents c)
Sent q A contents bound c a (some c') =
    (contents c' ≡ contents c ++ a ∷ []) × (bound c' ≡ bound c) × (length (contents c) < bound c)

abbrev pub Received :
    (q : Queues) (A : Type 0)
    → (q.Chan A → List A)
    → (q.Chan A → ℕ)
    → q.Chan A
    → Option (A × q.Chan A)
    → Type 0
Received q A contents bound c none = contents c ≡ []
Received q A contents bound c (some (a, c')) = (contents c ≡ a ∷ contents c') × (bound c' ≡ bound c)

pub record Mpsc : Type 1 where
  pub queues : Queues
  pub contents : (A : Type 0) → queues.Chan A → List A
  pub bound : (A : Type 0) → queues.Chan A → ℕ
  pub contents-channel : (A : Type 0) (n : ℕ) → contents A (queues.channel A n) ≡ []
  pub bound-channel : (A : Type 0) (n : ℕ) → bound A (queues.channel A n) ≡ n
  pub send_lem :
      (A : Type 0) (c : queues.Chan A) (a : A)
      → Sent queues A (contents A) (bound A) c a (queues.send A c a)
  pub recv_lem :
      (A : Type 0) (c : queues.Chan A)
      → Received queues A (contents A) (bound A) c (queues.recv A c)

-- What `send(..).await` comes to: the sender waits, or it gets an error, or the value is in the channel.
pub data Offer (Q : Type 0) : Type 0 where
  waits refused : Offer Q
  put : Q → Offer Q

abbrev room : {Q : Type 0} → Option Q → Offer Q
room none = waits
room (some q) = put q

-- `listening` says whether the receiver is still there.
unfoldable pub offer : (q : Queues) (A : Type 0) → Bool → q.Chan A → A → Offer (q.Chan A)
offer q A true c a = room (q.send A c a)
offer q A false c a = refused

module _ (m : Mpsc) (A : Type 0) where
  -- What has happened when a value is in the channel.
  abbrev Put : Bool → m.queues.Chan A → A → m.queues.Chan A → Type 0
  Put l c a k =
      (m.contents A k ≡ m.contents A c ++ a ∷ [])
      × (m.bound A k ≡ m.bound A c)
      × (length (m.contents A c) < m.bound A c)
      × (l ≡ true)

  room_put :
      (c : m.queues.Chan A) (a : A) (o : Option (m.queues.Chan A)) (k : m.queues.Chan A)
      → Sent m.queues A (m.contents A) (m.bound A) c a o
      → room o ≡ put k
      → Put true c a k
  room_put c a none k s h = absurd (cc)
  room_put c a (some c') k s h =
      let e : c' ≡ k = cc in subst (λ x. Put true c a x) e (s.0, s.1, s.2, refl)

  pub offer_put :
      (l : Bool) (c : m.queues.Chan A) (a : A) (k : m.queues.Chan A)
      → offer m.queues A l c a ≡ put k
      → (m.contents A k ≡ m.contents A c ++ a ∷ [])
        × (m.bound A k ≡ m.bound A c)
        × (length (m.contents A c) < m.bound A c)
        × (l ≡ true)
  unfolding offer
  offer_put true c a k h = room_put c a (m.queues.send A c a) k (m.send_lem A c a) h
  offer_put false c a k h = absurd (cc)

  room_waits :
      (c : m.queues.Chan A) (a : A) (o : Option (m.queues.Chan A))
      → Sent m.queues A (m.contents A) (m.bound A) c a o
      → room o ≡ waits
      → m.bound A c ≤ length (m.contents A c)
  room_waits c a none s h = s
  room_waits c a (some c') s h = absurd (cc)

  -- A sender waits only for a receiver that is there, and while the channel is full.
  pub offer_waits :
      (l : Bool) (c : m.queues.Chan A) (a : A)
      → offer m.queues A l c a ≡ waits
      → (m.bound A c ≤ length (m.contents A c)) × (l ≡ true)
  unfolding offer
  offer_waits true c a h = (room_waits c a (m.queues.send A c a) (m.send_lem A c a) h, refl)
  offer_waits false c a h = absurd (cc)

  something :
      (c : m.queues.Chan A) (o : Option (A × m.queues.Chan A))
      → Received m.queues A (m.contents A) (m.bound A) c o
      → 0 < length (m.contents A c)
      → (a : A) × ((c' : m.queues.Chan A) × (o ≡ some (a, c')))
  something c none r h = absurd (omega (arith, ap (length {A = A}) r))
  something c (some (a, c')) r h = (a, (c', refl))

  -- There is something to take from a channel that is not empty.
  pub recv_some :
      (c : m.queues.Chan A)
      → 0 < length (m.contents A c)
      → (a : A) × ((c' : m.queues.Chan A) × (m.queues.recv A c ≡ some (a, c')))
  recv_some c h = something c (m.queues.recv A c) (m.recv_lem A c) h

  room_not_refused : (o : Option (m.queues.Chan A)) → room o ≡ refused → ⊥
  room_not_refused none h = absurd (cc)
  room_not_refused (some c) h = absurd (cc)

  -- A sender gets an error only when the receiver is gone.
  pub offer_refused :
      (l : Bool) (c : m.queues.Chan A) (a : A) → offer m.queues A l c a ≡ refused → l ≡ false
  unfolding offer
  offer_refused true c a h = absurd (room_not_refused (m.queues.send A c a) h)
  offer_refused false c a h = refl

  -- What is taken leaves the channel.
  pub recv_taken :
      (c : m.queues.Chan A) (a : A) (c' : m.queues.Chan A)
      → m.queues.recv A c ≡ some (a, c')
      → length (m.contents A c) ≡ suc (length (m.contents A c'))
  recv_taken c a c' e =
      ap (length {A = A})
        (subst (Received m.queues A (m.contents A) (m.bound A) c) e (m.recv_lem A c)).0
