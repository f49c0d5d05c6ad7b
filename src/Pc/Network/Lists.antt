-- ===== src/Pc/Network/Lists.antt =====
-- What a send adds to the lists that tie the server's tasks together (server.rs and serial.rs).
use battery_tester.Prelude.{
  ℕ, ◌≡◌, refl, ap, ◌∙◌, Bool, List, [], ◌∷◌, ◌++◌, length, length-append, append_assoc, arith,
}
use battery_tester.Pc.Messages.{Event}
use battery_tester.Pc.Mpsc.{Mpsc, put, offer, offer_put}
use battery_tester.Pc.Serial.Com.{Output, print, send, wrote}
use battery_tester.Pc.Network.Consistent.{from_serial, sends, Fits}

-- What a `send` moves from one list to the other.
pub shift : {A : Type 0} (xs ys : List A) (a : A) → (xs ++ a ∷ []) ++ ys ≡ xs ++ a ∷ ys
shift xs ys a = append_assoc xs (a ∷ []) ys

pub from_serial-append :
    (xs ys : List Event) → from_serial (xs ++ ys) ≡ from_serial xs ++ from_serial ys
unfolding from_serial
from_serial-append [] ys = refl
from_serial-append (Event.comm_dc ∷ xs) ys = ap (λ t. Event.comm_dc ∷ t) (from_serial-append xs ys)
from_serial-append (Event.com_reply r ∷ xs) ys =
    ap (λ t. Event.com_reply r ∷ t) (from_serial-append xs ys)
from_serial-append (Event.batt_id b ∷ xs) ys = from_serial-append xs ys
from_serial-append (Event.set_serial_device n ∷ xs) ys = from_serial-append xs ys
from_serial-append (Event.set_cutoff c ∷ xs) ys = from_serial-append xs ys
from_serial-append (Event.start_test ∷ xs) ys = from_serial-append xs ys
from_serial-append (Event.cancel_test ∷ xs) ys = from_serial-append xs ys
from_serial-append (Event.shutdown ∷ xs) ys = from_serial-append xs ys
from_serial-append (Event.file_error ∷ xs) ys = from_serial-append xs ys
from_serial-append (Event.clear_fault ∷ xs) ys = from_serial-append xs ys
from_serial-append (Event.under_current_response a ∷ xs) ys = from_serial-append xs ys

pub sends-append : (xs ys : List Output) → sends (xs ++ ys) ≡ sends xs ++ sends ys
unfolding sends
sends-append [] ys = refl
sends-append (send e ∷ xs) ys = ap (λ t. e ∷ t) (sends-append xs ys)
sends-append (print p ∷ xs) ys = sends-append xs ys
sends-append (wrote port bytes ∷ xs) ys = sends-append xs ys

module _ (m : Mpsc) where
  -- A channel that has taken a value still fits.
  pub Fits-put :
      (A : Type 0) (k : ℕ) (l : Bool) (c c' : m.queues.Chan A) (a : A)
      → Fits m A k c
      → offer m.queues A l c a ≡ put c'
      → Fits m A k c'
  Fits-put A k l c c' a h e =
      let (added, bound, room, alive) = offer_put m A l c a c' e in
      (
        bound ∙ h.0,
        omega (arith, ap (length {A = A}) added, length-append {0} (m.contents A c) (a ∷ [])),
      )
