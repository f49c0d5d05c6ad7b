-- ===== src/Microbit/Pwm.antt =====
-- The heater's servo output and its watchdog (battery_tester_microbit/src/pwm.rs).
-- The peripheral `SimplePwm` is the list of the calls made to it, the latest first.
-- `Instant::now()` is an argument in ticks; `as_millis` is `Duration::as_millis`.
-- `error!` and `info!` only log and are left out.
pub mod Current
pub mod Output
pub mod Watchdog
mod Tests
use battery_tester.Prelude.{
  ℕ, ◌+◌, ◌-◌, ◌*◌, ◌/◌, List, [], ◌∷◌, Option, some, Checked, returns, panic, ◌>>=◌, Result, err,
  Build, add_u16, sub_u16, ltb, if◌then◌else◌, u16, Ord,
}
use battery_tester.Common.{AllowUndercurrent, FaultKind, MilliAmp, MilliVolt, milliamp_ord}

pub data HeaterCmd : Type 0 where
  off on : HeaterCmd

pub data Ordering : Type 0 where
  less equal greater : Ordering

unfoldable pub cmp : HeaterCmd → HeaterCmd → Ordering
cmp HeaterCmd.off HeaterCmd.on = less
cmp HeaterCmd.on HeaterCmd.off = greater
cmp _ _ = equal

unfoldable pub partial_cmp : HeaterCmd → HeaterCmd → Option Ordering
unfolding cmp
partial_cmp a b = some (cmp a b)

-- The calls that pwm.rs makes to `SimplePwm`.
pub data PwmCall : Type 0 where
  disable set_prescaler_div16 enable : PwmCall
  set_max_duty : ℕ → PwmCall
  set_duty : ℕ → ℕ → PwmCall

abbrev pub SimplePwm : Type 0
SimplePwm = List PwmCall

-- The floating-point constants come out whole: 1/50 s over 1/1000000 s, and 3/40 of that.
abbrev pub pwm_max_duty : ℕ
pwm_max_duty = 20000

abbrev pub pwm_zero_output : ℕ
pwm_zero_output = 1500

abbrev pub pwm_max_output : ℕ
pwm_max_output = pwm_max_duty / 10

-- The additions and subtractions of `pwm_output_trim` are u16; `set_pwm` calls it at two constants.
unfoldable pub pwm_output_trim : Build → ℕ → Checked ℕ
unfolding add_u16 sub_u16
pwm_output_trim build setpoint =
    add_u16 build setpoint 16 >>= λ trimmed. sub_u16 build pwm_max_duty trimmed

abbrev pub duty_of : HeaterCmd → ℕ
duty_of HeaterCmd.off = pwm_zero_output
duty_of HeaterCmd.on = pwm_max_output

unfoldable pub set_pwm : Build → SimplePwm → HeaterCmd → Checked SimplePwm
unfolding pwm_output_trim
set_pwm build pwm cmd = do
  duty ← pwm_output_trim build (duty_of cmd)
  returns (set_duty 0 duty ∷ pwm)

unfoldable pub init_pwm_out : Build → SimplePwm → Checked SimplePwm
unfolding set_pwm
init_pwm_out build pwm = do
  pwm ←
      set_pwm build (set_max_duty pwm_max_duty ∷ set_prescaler_div16 ∷ disable ∷ pwm) HeaterCmd.off
  returns (enable ∷ pwm)

-- `clamp`, on u16.
abbrev clamp : ℕ → ℕ → ℕ → ℕ
clamp x lo hi = if ltb x lo then lo else if ltb hi x then hi else x

-- The product of a u8 and 5 does not reach 2^16.
unfoldable pub percent_to_micros : ℕ → ℕ
percent_to_micros pwm_on_percent =
    let multiplyer : ℕ = (pwm_max_output - pwm_zero_output) / 100 in
    clamp (u16 (pwm_on_percent * multiplyer)) pwm_zero_output pwm_max_output

pub record PwmCtrl : Type 0 where
  pub cmd : HeaterCmd
  pub pwm : SimplePwm
  pub change_time : ℕ

unfoldable pub new : Build → SimplePwm → ℕ → Checked PwmCtrl
unfolding init_pwm_out
new build pwm now = do
  pwm ← init_pwm_out build pwm
  returns (record { cmd = HeaterCmd.off; pwm = pwm; change_time = now })

-- The time of the last change: only a change of the command moves it.
change_time_of : HeaterCmd → HeaterCmd → ℕ → ℕ → ℕ
change_time_of HeaterCmd.off HeaterCmd.on now old = now
change_time_of HeaterCmd.on HeaterCmd.off now old = now
change_time_of _ _ now old = old

unfoldable pub set_cmd : Build → PwmCtrl → HeaterCmd → ℕ → Checked PwmCtrl
unfolding set_pwm change_time_of
set_cmd build c new_cmd now = do
  pwm ← set_pwm build c.pwm new_cmd
  returns (record {
    cmd = new_cmd;
    pwm = pwm;
    change_time = change_time_of c.cmd new_cmd now c.change_time;
  })

pub data Range : Type 0 where
  hi lo ok : Range

unfoldable pub in_range_inclusive {ℓ} : {V : Type ℓ} ⦃o : Ord V⦄ → V → V → V → Range
in_range_inclusive ⦃o⦄ max min x =
    if o.lt max x then Range.hi else if o.lt x min then Range.lo else Range.ok

unfoldable pub expected_current : MilliVolt → MilliAmp
expected_current vbat = let r : ℕ = 12000 / 8400 in record { raw = vbat.raw / r }

unfoldable pub current_in_range : Build → MilliVolt → MilliAmp → Checked Range
unfolding add_u16 sub_u16 expected_current in_range_inclusive
current_in_range build vbat ibat = do
  let nom = expected_current vbat
  max ← add_u16 build nom.raw 200
  min ← sub_u16 build nom.raw 200
  returns (in_range_inclusive (record { raw = max }) (record { raw = min }) ibat)

-- The inner matches of `watchdog`.
abbrev judge_on : Range → AllowUndercurrent → Result (Unit {0}) FaultKind
judge_on Range.hi _ = err FaultKind.overcurrent
judge_on Range.lo AllowUndercurrent.no = err FaultKind.undercurrent
judge_on Range.lo AllowUndercurrent.yes = Result.ok tt
judge_on Range.ok _ = Result.ok tt

abbrev judge :
    Build
    → HeaterCmd
    → MilliVolt
    → MilliAmp
    → AllowUndercurrent
    → Checked (Result (Unit {0}) FaultKind)
judge build HeaterCmd.off millivolts milliamps allow =
    returns (if ltb 100 milliamps.raw then err FaultKind.overcurrent else Result.ok tt)
judge build HeaterCmd.on millivolts milliamps allow = do
  range ← current_in_range build millivolts milliamps
  returns (judge_on range allow)

-- `Instant::now() - self.change_time` panics if the clock ran backwards.
unfoldable pub watchdog :
    Build
    → (ℕ → ℕ)
    → PwmCtrl
    → MilliVolt
    → MilliAmp
    → AllowUndercurrent
    → ℕ
    → Checked (Result (Unit {0}) FaultKind)
unfolding current_in_range
watchdog build as_millis c millivolts milliamps allow now =
    let wait_ms : ℕ = 20 + 5 in
    if ltb now c.change_time
    then panic
    else (if ltb wait_ms (as_millis (now - c.change_time))
        then judge build c.cmd millivolts milliamps allow
        else returns (Result.ok tt))
