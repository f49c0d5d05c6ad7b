-- ===== src/Microbit/Power.antt =====
-- The power task of main.rs (lines 133 to 248 and 440 to 450) as a machine over signals.
-- A state is what the task's local variables and its place in the code amount to between two
-- signals; set-up of the sensor runs within the step that leads to it.
pub mod Safety
pub mod Replies
pub mod Delivery
pub mod Running
pub mod Runs
pub mod Off
pub mod Timeout
mod Tests
use battery_tester.Prelude.{
  ℕ, ◌+◌, List, [], ◌∷◌, Option, none, some, Checked, returns, panic, ◌>>=◌, Result, ok, err,
}
use battery_tester.Common.{
  AllowUndercurrent, BiCommand, BiReply, Fault, FaultKind, LoadState, Measurement, Reset, ok_reply,
}
use battery_tester.Microbit.Signal.{
  Signal, command, tick, com_timeout, Poll, waits, returned, unawaited,
}
use battery_tester.Microbit.Wait.{
  Contact, apart, Button, up, wait_bat_reconnect, wait_bat_present, wait_fault_clear,
}
use battery_tester.Microbit.Daq.{DaqDataQueue, default_queue}
use battery_tester.Microbit.Pwm.{HeaterCmd, PwmCtrl, set_cmd}
use battery_tester.Microbit.Acquire.{Platform, World, daq, init_i2c}

-- The variables of the inner loop of `power_ctrl_loop`.
pub record Control : Type 0 where
  pub measurement : Option Measurement
  pub allow_undercurrent : AllowUndercurrent
  pub daq_queue : DaqDataQueue

-- Where `power_ctrl_loop` stands: in its inner loop, or waiting for the battery after a reset.
pub data Loop : Type 0 where
  acquiring : Control → Loop
  reconnecting : Contact → Loop

-- Where `power_task` stands.
pub data Phase : Type 0 where
  boot : Contact → Phase
  init_fault : Fault → Button → Phase
  control : Loop → Phase
  faulted : Fault → Button → Phase
  awaiting : Contact → Phase

abbrev pub fresh : ℕ → Control
fresh now = record {
  measurement = none;
  allow_undercurrent = AllowUndercurrent.no;
  daq_queue = default_queue now;
}

abbrev pub heater_of : LoadState → HeaterCmd
heater_of LoadState.off = HeaterCmd.off
heater_of LoadState.on = HeaterCmd.on

module _ (p : Platform) where
  open p use {build, as_millis, twim.{Bus}}

  -- What a step of `power_ctrl_loop` leaves: the output, the bus and where the loop stands.
  abbrev pub LoopPoll : Type 0
  LoopPoll = PwmCtrl × Bus × Poll Loop FaultKind

  -- The arm of `select3` for a command, after the reply.
  after_reply : World → Control → BiCommand → Bus → PwmCtrl → Reset → Checked LoopPoll
  after_reply w c cmd bus ctrl Reset.yes = do
    ctrl' ← set_cmd build ctrl HeaterCmd.off (w.now 1)
    returns (ctrl', bus, waits (reconnecting apart) (ok_reply c.measurement ∷ []))
  after_reply w c cmd bus ctrl Reset.no = returns (
    ctrl,
    bus,
    waits (acquiring (record c { measurement = none; allow_undercurrent = cmd.allow_undercurrent }))
        (ok_reply c.measurement ∷ []),
  )

  on_command : World → Control → BiCommand → Bus → PwmCtrl → Checked LoopPoll
  unfolding after_reply
  on_command w c cmd bus ctrl = do
    ctrl' ← set_cmd build ctrl (heater_of cmd.load) (w.now 0)
    after_reply w c cmd bus ctrl' cmd.reset

  -- The arm for the acquisition interval, given what `daq` returned.
  after_daq :
      Control → PwmCtrl → Result (Option Measurement) FaultKind × DaqDataQueue × Bus → LoopPoll
  after_daq c ctrl (err fk, q, bus) = (ctrl, bus, returned fk [])
  after_daq c ctrl (ok (some m), q, bus) =
      (ctrl, bus, waits (acquiring (record c { measurement = some m; daq_queue = q })) [])
  after_daq c ctrl (ok none, q, bus) =
      (ctrl, bus, waits (acquiring (record c { daq_queue = q })) [])

  -- The outer loop goes round when the battery is back.
  after_reconnect : World → PwmCtrl → Bus → Poll Contact (Unit {0}) → LoopPoll
  after_reconnect w ctrl bus (waits s rs) = (ctrl, bus, waits (reconnecting s) rs)
  after_reconnect w ctrl bus (returned _ rs) = (ctrl, bus, waits (acquiring (fresh (w.now 0))) rs)
  after_reconnect w ctrl bus unawaited = (ctrl, bus, unawaited)

  unfoldable pub power_ctrl_loop : World → PwmCtrl → Bus → Loop → Signal → Checked LoopPoll
  unfolding on_command after_daq after_reconnect
  power_ctrl_loop w ctrl bus (acquiring c) tick = do
    r ← daq p w ctrl c.daq_queue c.allow_undercurrent bus
    returns (after_daq c ctrl r)
  power_ctrl_loop w ctrl bus (acquiring c) (command cmd) = on_command w c cmd bus ctrl
  power_ctrl_loop w ctrl bus (acquiring c) com_timeout = do
    ctrl' ← set_cmd build ctrl HeaterCmd.off (w.now 0)
    returns (ctrl', bus, waits (acquiring c) [])
  power_ctrl_loop w ctrl bus (acquiring c) _ = returns (ctrl, bus, unawaited)
  power_ctrl_loop w ctrl bus (reconnecting s) signal =
      returns (after_reconnect w ctrl bus (wait_bat_reconnect s signal))

  pub record Board : Type 0 where
    pub ctrl : PwmCtrl
    pub bus : Bus
    pub phase : Phase

  -- `none` stands for a signal that is not waited for.
  abbrev pub Outcome : Type 0
  Outcome = Checked (Option (Board × List BiReply))

  -- `i2c_init_loop`: set the sensor up, and on a fault wait for that to be cleared.
  after_init : World → PwmCtrl → List BiReply → Result (Unit {0}) Fault × Bus → Outcome
  after_init w ctrl rs (ok _, bus) =
      returns (
        some (record { ctrl = ctrl; bus = bus; phase = control (acquiring (fresh (w.now 1))) }, rs))
  after_init w ctrl rs (err fault, bus) =
      returns (some (record { ctrl = ctrl; bus = bus; phase = init_fault fault up }, rs))

  i2c_init_loop : World → PwmCtrl → List BiReply → Bus → Outcome
  unfolding after_init
  i2c_init_loop w ctrl rs bus = after_init w ctrl rs (init_i2c p (w.now 0) bus)

  -- A wait that ends in the set-up loop.
  then_init {ℓ} : {S : Type ℓ} → World → Board → (S → Phase) → Poll S (Unit {0}) → Outcome
  unfolding i2c_init_loop
  then_init w b at (waits s rs) = returns (some (record b { phase = at s }, rs))
  then_init w b at (returned _ rs) = i2c_init_loop w b.ctrl rs b.bus
  then_init w b at unawaited = returns none

  then_await : Board → Fault → Poll Button (Unit {0}) → Outcome
  then_await b fault (waits s rs) = returns (some (record b { phase = faulted fault s }, rs))
  then_await b fault (returned _ rs) = returns (some (record b { phase = awaiting apart }, rs))
  then_await b fault unawaited = returns none

  -- After `power_ctrl_loop` returned a fault: heater off, and wait for the fault to be cleared.
  after_loop : World → LoopPoll → Outcome
  after_loop w (ctrl, bus, waits l rs) =
      returns (some (record { ctrl = ctrl; bus = bus; phase = control l }, rs))
  after_loop w (ctrl, bus, returned fkind rs) = do
    ctrl' ← set_cmd build ctrl HeaterCmd.off (w.now 2)
    let fault : Fault = record { kind = fkind; time = as_millis (w.now 3) }
    returns (some (record { ctrl = ctrl'; bus = bus; phase = faulted fault up }, rs))
  after_loop w (ctrl, bus, unawaited) = returns none

  dispatch : Phase → World → Board → Signal → Outcome
  unfolding then_init then_await after_loop
  dispatch (boot s) w b signal = then_init w b boot (wait_bat_reconnect s signal)
  dispatch (init_fault fault s) w b signal =
      then_init w b (init_fault fault) (wait_fault_clear fault s signal)
  dispatch (control l) w b signal = power_ctrl_loop w b.ctrl b.bus l signal >>= after_loop w
  dispatch (faulted fault s) w b signal = then_await b fault (wait_fault_clear fault s signal)
  dispatch (awaiting s) w b signal = then_init w b awaiting (wait_bat_present s signal)

  unfoldable pub power_task : World → Board → Signal → Outcome
  unfolding dispatch
  power_task w b signal = dispatch b.phase w b signal

  -- How the task starts, with an output that `main` has initialised.
  unfoldable pub start : PwmCtrl → Bus → Board
  start ctrl bus = record { ctrl = ctrl; bus = bus; phase = boot apart }
