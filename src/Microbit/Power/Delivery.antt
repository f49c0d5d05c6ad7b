-- ===== src/Microbit/Power/Delivery.antt =====
-- The power task over many signals, and while it is in a fault (main.rs, lines 134 to 248).
use battery_tester.Prelude.{
  ℕ, ◌≡◌, refl, List, [], ◌∷◌, ◌++◌, Option, none, some, Checked, returns, ◌>>=◌, suc, replicate,
  ◌+◌, zero, ap, arith,
}
use native.Mathlib.Nat.{zero-add, suc-add}
use battery_tester.Common.{BiReply, ClearFault, Fault, fault_reply}
use battery_tester.Microbit.Signal.{
  Signal, command, tick, btn_fell, btn_high, Poll, waits, returned, unawaited,
}
use battery_tester.Microbit.Wait.{Button, up, down, wait_fault_clear}
use battery_tester.Microbit.Pwm.{PwmCtrl}
use battery_tester.Microbit.Acquire.{Platform, World}
use battery_tester.Microbit.Power.{faulted, Board, then_await, power_task}

-- Signals met one after another; those that are not waited for pass unnoticed.
abbrev pub go_on :
    {B : Type 0}
    → B
    → (B → Checked (B × List BiReply))
    → Option (B × List BiReply)
    → Checked (B × List BiReply)
go_on b rest none = rest b
go_on b rest (some (b', rs)) = rest b' >>= λ r. returns (r.0, rs ++ r.1)

unfoldable pub run :
    (p : Platform) → Board p → List (World × Signal) → Checked (Board p × List BiReply)
run p b [] = returns (b, [])
run p b ((w, signal) ∷ es) = power_task p w b signal >>= go_on b (λ b'. run p b' es)

-- What a poll comes to, if it does not return; a signal that is not awaited changes nothing.
abbrev goes_to_with : Button → Poll Button (Unit {0}) → Option (Button × List BiReply)
goes_to_with s (waits t rs) = some (t, rs)
goes_to_with s (returned u rs) = none
goes_to_with s unawaited = some (s, [])

-- Neither a command to clear the fault nor a ticker, which clears it while the button is down.
abbrev IsQuiet : Signal → Type 0
IsQuiet (command cmd) = cmd.clear_fault ≡ ClearFault.no
IsQuiet tick = ⊥
IsQuiet _ = Unit

abbrev AllQuiet : List (World × Signal) → Type 0
AllQuiet [] = Unit
AllQuiet ((w, signal) ∷ es) = IsQuiet signal × AllQuiet es

-- How many of the signals are commands.
abbrev heard : Signal → ℕ
heard (command cmd) = 1
heard _ = 0

abbrev pub commands : List (World × Signal) → ℕ
commands [] = 0
commands ((w, signal) ∷ es) = heard signal + commands es

-- A quiet signal leaves `wait_fault_clear` waiting, with the fault for each command.
quiet_wait :
    (f : Fault) (s : Button) (x : Signal)
    → IsQuiet x
    → (s' : Button) × (goes_to_with s (wait_fault_clear f s x)
        ≡ some (s', replicate (heard x) (fault_reply f)))
unfolding wait_fault_clear
quiet_wait f up (command cmd) h = (up, rw h refl)
quiet_wait f down (command cmd) h = (down, rw h refl)
quiet_wait f up btn_fell h = (down, refl)
quiet_wait f down btn_high h = (up, refl)
quiet_wait f s tick h = absurd h
quiet_wait f up _ h = (up, refl)
quiet_wait f down _ h = (down, refl)

replicate-add {ℓ} :
    {A : Type ℓ} (m n : ℕ) (a : A) → replicate (m + n) a ≡ replicate m a ++ replicate n a
replicate-add zero n a = rw zero-add
replicate-add (suc m) n a = rw suc-add (ap (λ t. a ∷ t) (replicate-add m n a))

abbrev pub in_fault : (p : Platform) → PwmCtrl → p.twim.Bus → Fault → Button → Board p
in_fault p ctrl bus f s = record { ctrl = ctrl; bus = bus; phase = faulted f s }

module _ (p : Platform) (ctrl : PwmCtrl) (bus : p.twim.Bus) (f : Fault) where
  -- A poll that keeps waiting hands its state to the rest of the run.
  await_goes_on :
      (s t : Button) (rs qs : List BiReply) (rest : Board p → Checked (Board p × List BiReply))
      (end : Board p) (poll : Poll Button (Unit {0}))
      → goes_to_with s poll ≡ some (t, rs)
      → rest (in_fault p ctrl bus f t) ≡ returns (end, qs)
      → (then_await p (in_fault p ctrl bus f s) f poll >>= go_on (in_fault p ctrl bus f s) rest)
        ≡ returns (end, rs ++ qs)
  unfolding then_await
  await_goes_on s t rs qs rest end (waits s' rs') went ran =
      let to : s' ≡ t = ground arith in
      let sent : rs' ≡ rs = ground arith in rw (to, sent, ran) refl
  await_goes_on s t rs qs rest end (returned u rs') went ran = absurd (ground arith)
  await_goes_on s t rs qs rest end unawaited went ran =
      let to : s ≡ t = ground arith in
      let sent : [] ≡ rs = ground arith in rw (to, ← sent, ran) refl

  -- From a fault, over any signals among which nothing clears it: the board keeps its output and its
  -- bus, the fault stays the same one, and every command is answered by exactly that fault.
  pub faulted_persists :
      (es : List (World × Signal)) (s : Button)
      → AllQuiet es
      → (s' : Button) × (run p (in_fault p ctrl bus f s) es
          ≡ returns (in_fault p ctrl bus f s', replicate (commands es) (fault_reply f)))
  unfolding run power_task
  faulted_persists [] s h = (s, refl)
  faulted_persists ((w, x) ∷ es) s h =
      let (t, went) = quiet_wait f s x h.0 in
      let (s', ran) = faulted_persists es t h.1 in
      (
        s',
        rw replicate-add
            (await_goes_on s t _ _ (λ b'. run p b' es) _ (wait_fault_clear f s x) went ran),
      )
