-- ===== src/Microbit/Wait/Tests.antt =====
-- The waits for a battery at concrete signals.
use battery_tester.Prelude.{◌≡◌, refl, [], ◌∷◌}
use battery_tester.Microbit.Signal.{bat_rising, bat_high, bat_low, tick}
use battery_tester.Microbit.Wait.{touching, wait_bat_reconnect, wait_bat_present}
use battery_tester.Microbit.Wait.Debounce.{
  Held, settle, wait_bat_reconnect_debounced, wait_bat_present_debounced,
}

wait_bat_reconnect_debounced_example :
    (tick ≡ tick) × Held bat_rising (tick ∷ bat_rising ∷ bat_low ∷ bat_rising ∷ [])
unfolding settle wait_bat_reconnect
wait_bat_reconnect_debounced_example =
    wait_bat_reconnect_debounced touching (tick ∷ bat_rising ∷ bat_low ∷ bat_rising ∷ []) tick refl
      refl

wait_bat_present_debounced_example : (tick ≡ tick) × Held bat_high (tick ∷ bat_high ∷ [])
unfolding settle wait_bat_present
wait_bat_present_debounced_example =
    wait_bat_present_debounced touching (tick ∷ bat_high ∷ []) tick refl refl
