-- ===== src/Microbit/Pwm/Output.antt =====
-- What reaches the servo output (pwm.rs, lines 11 to 38 and 148 to 188).
use battery_tester.Prelude.{
  ℕ, ◌+◌, ◌≤◌, ◌<◌, ◌≡◌, ◌≢◌, ◌⊎◌, inl, inr, ◌-◌, refl, [], ◌∷◌, Option, none, some, returns, Build,
  debug, release, arith,
}
use battery_tester.Microbit.Pwm.{
  HeaterCmd, off, on, PwmCall, set_duty, SimplePwm, pwm_output_trim, pwm_max_duty, change_time_of,
  set_pwm, PwmCtrl, new, set_cmd, percent_to_micros,
}

-- The duty that stands in the peripheral for a command: its pulse and the trim of 16 us, counted
-- from the end of the period.
abbrev pub trimmed : HeaterCmd → ℕ
trimmed off = 18484
trimmed on = 17984

pub set_pwm_lem :
    (build : Build) (pwm : SimplePwm) (cmd : HeaterCmd)
    → set_pwm build pwm cmd ≡ returns (set_duty 0 (trimmed cmd) ∷ pwm)
unfolding set_pwm
set_pwm_lem debug pwm off = refl
set_pwm_lem debug pwm on = refl
set_pwm_lem release pwm off = refl
set_pwm_lem release pwm on = refl

-- The trim of a setpoint up to 19984 us: no overflow in either build, and duty, setpoint and trim
-- make up the period.
pub pwm_output_trim_lem :
    (build : Build) (setpoint : ℕ)
    → setpoint ≤ 19984
    → (duty : ℕ) × (pwm_output_trim build setpoint ≡ returns duty)
      × (duty + setpoint + 16 ≡ pwm_max_duty)
unfolding pwm_output_trim
pwm_output_trim_lem debug setpoint h = (19984 - setpoint, ground arith, omega arith)
pwm_output_trim_lem release setpoint h = (19984 - setpoint, ground arith, omega arith)

change_time_cases :
    (old cmd : HeaterCmd) (now t : ℕ)
    → ((old ≡ cmd) × (change_time_of old cmd now t ≡ t))
      ⊎ ((old ≢ cmd) × (change_time_of old cmd now t ≡ now))
unfolding change_time_of
change_time_cases off off now t = inl (refl, refl)
change_time_cases on on now t = inl (refl, refl)
change_time_cases off on now t = inr (ground arith, refl)
change_time_cases on off now t = inr (ground arith, refl)

-- `set_cmd` never panics. It writes the new command's duty as one call, remembers the command, and
-- moves the time of the last change exactly when the command differs from the one before.
pub set_cmd_lem :
    (build : Build) (c : PwmCtrl) (cmd : HeaterCmd) (now : ℕ)
    → (c' : PwmCtrl) × (set_cmd build c cmd now ≡ returns c')
      × (c'.cmd ≡ cmd)
      × (c'.pwm ≡ set_duty 0 (trimmed cmd) ∷ c.pwm)
      × (((c.cmd ≡ cmd) × (c'.change_time ≡ c.change_time))
          ⊎ ((c.cmd ≢ cmd) × (c'.change_time ≡ now)))
unfolding set_cmd
set_cmd_lem build c cmd now = (
  record {
    cmd = cmd;
    pwm = set_duty 0 (trimmed cmd) ∷ c.pwm;
    change_time = change_time_of c.cmd cmd now c.change_time;
  },
  rw set_pwm_lem,
  refl,
  refl,
  change_time_cases c.cmd cmd now c.change_time,
)

-- Whatever percentage (a u8) is asked for, `percent_to_micros` gives the pulse of zero output.
pub percent_to_micros_constant : (p : ℕ) → p < 256 → percent_to_micros p ≡ 1500
unfolding percent_to_micros
percent_to_micros_constant p h = ground arith

-- What `set_cmd` leaves.
unfoldable pub commanded : PwmCtrl → HeaterCmd → ℕ → PwmCtrl
unfolding change_time_of
commanded c cmd now = record {
  cmd = cmd;
  pwm = set_duty 0 (trimmed cmd) ∷ c.pwm;
  change_time = change_time_of c.cmd cmd now c.change_time;
}

pub set_cmd-commanded :
    (build : Build) (c : PwmCtrl) (cmd : HeaterCmd) (now : ℕ)
    → set_cmd build c cmd now ≡ returns (commanded c cmd now)
unfolding set_cmd commanded
set_cmd-commanded build c cmd now = rw set_pwm_lem

pub commanded_by :
    (c : PwmCtrl) (cmd : HeaterCmd) (now t : ℕ)
    → c.change_time ≤ t
    → now ≤ t
    → (commanded c cmd now).change_time ≤ t
unfolding commanded change_time_of
commanded_by c cmd now t h k = ground arith

-- The duty that the peripheral holds: the last one written.
abbrev pub duty_now : SimplePwm → Option ℕ
duty_now [] = none
duty_now (PwmCall.set_duty channel duty ∷ pwm) = some duty
duty_now (PwmCall.disable ∷ pwm) = duty_now pwm
duty_now (PwmCall.enable ∷ pwm) = duty_now pwm
duty_now (PwmCall.set_prescaler_div16 ∷ pwm) = duty_now pwm
duty_now (PwmCall.set_max_duty n ∷ pwm) = duty_now pwm

-- The peripheral holds the duty of the command that the controller remembers.
abbrev pub Drives : PwmCtrl → Type 0
Drives c = duty_now c.pwm ≡ some (trimmed c.cmd)

pub commanded-Drives : (c : PwmCtrl) (cmd : HeaterCmd) (now : ℕ) → Drives (commanded c cmd now)
unfolding commanded
commanded-Drives c cmd now = refl

-- A new controller has initialised the peripheral to the duty of `off`, and says so, from this instant on.
pub new-Drives :
    (build : Build) (pwm : SimplePwm) (now : ℕ)
    → (c : PwmCtrl) × (new build pwm now ≡ returns c)
      × (c.cmd ≡ off)
      × (c.change_time ≡ now)
      × Drives c
unfolding new
new-Drives build pwm now = (
  record {
    cmd = off;
    pwm =
        PwmCall.enable
        ∷ set_duty 0 18484
        ∷ PwmCall.set_max_duty 20000
        ∷ PwmCall.set_prescaler_div16
        ∷ PwmCall.disable
        ∷ pwm;
    change_time = now;
  },
  rw set_pwm_lem,
  refl,
  refl,
  refl,
)
