-- ===== src/Wire/Plain.antt =====
-- Codecs for the two messages of the line (battery_tester_common/src/lib.rs), for tests: a fixed
-- number of numbers each. They stand in for `postcard`.
use battery_tester.Prelude.{
  ℕ, zero, suc, ◌≡◌, refl, ◌≤◌, List, [], ◌∷◌, Option, none, some, Result, ok, err, length,
  get_elem?, arith,
}
use battery_tester.Common.{
  AllowUndercurrent, BiCommand, BiReply, ClearFault, Fault, FaultKind, I2cError, LoadState,
  Measurement, Reset, TiwmError,
}
use battery_tester.Wire.{Bytes, Codec}

abbrev of_load : LoadState → ℕ
of_load LoadState.off = 0
of_load LoadState.on = 1

abbrev to_load : ℕ → LoadState
to_load zero = LoadState.off
to_load (suc n) = LoadState.on

abbrev of_reset : Reset → ℕ
of_reset Reset.no = 0
of_reset Reset.yes = 1

abbrev to_reset : ℕ → Reset
to_reset zero = Reset.no
to_reset (suc n) = Reset.yes

abbrev of_clear : ClearFault → ℕ
of_clear ClearFault.no = 0
of_clear ClearFault.yes = 1

abbrev to_clear : ℕ → ClearFault
to_clear zero = ClearFault.no
to_clear (suc n) = ClearFault.yes

abbrev of_allow : AllowUndercurrent → ℕ
of_allow AllowUndercurrent.no = 0
of_allow AllowUndercurrent.yes = 1

abbrev to_allow : ℕ → AllowUndercurrent
to_allow zero = AllowUndercurrent.no
to_allow (suc n) = AllowUndercurrent.yes

abbrev of_command : BiCommand → Bytes
of_command c =
    of_load c.load ∷ of_reset c.reset ∷ of_clear c.clear_fault ∷ of_allow c.allow_undercurrent ∷ []

abbrev to_command : Bytes → Option BiCommand
to_command (l ∷ r ∷ c ∷ a ∷ []) = some (record {
  load = to_load l;
  reset = to_reset r;
  clear_fault = to_clear c;
  allow_undercurrent = to_allow a;
})
to_command _ = none

pub to_load-of_load : (l : LoadState) → to_load (of_load l) ≡ l
to_load-of_load LoadState.off = refl
to_load-of_load LoadState.on = refl

pub to_reset-of_reset : (r : Reset) → to_reset (of_reset r) ≡ r
to_reset-of_reset Reset.no = refl
to_reset-of_reset Reset.yes = refl

pub to_clear-of_clear : (c : ClearFault) → to_clear (of_clear c) ≡ c
to_clear-of_clear ClearFault.no = refl
to_clear-of_clear ClearFault.yes = refl

pub to_allow-of_allow : (a : AllowUndercurrent) → to_allow (of_allow a) ≡ a
to_allow-of_allow AllowUndercurrent.no = refl
to_allow-of_allow AllowUndercurrent.yes = refl

abbrev pub plain_commands : Codec BiCommand
plain_commands = record {
  to_slice = of_command;
  from_bytes = to_command;
  max_size = 4;
  from_bytes-to_slice = λ c. rw (
    to_load-of_load c.load,
    to_reset-of_reset c.reset,
    to_clear-of_clear c.clear_fault,
    to_allow-of_allow c.allow_undercurrent,
  );
  length-to_slice = λ c. omega arith;
  max_size_byte = omega arith;
}

abbrev of_tiwm : TiwmError → ℕ
of_tiwm TiwmError.tx_buffer_too_long = 0
of_tiwm TiwmError.rx_buffer_too_long = 1
of_tiwm TiwmError.transmit = 2
of_tiwm TiwmError.receive = 3
of_tiwm TiwmError.ram_buffer_too_small = 4
of_tiwm TiwmError.address_nack = 5
of_tiwm TiwmError.data_nack = 6
of_tiwm TiwmError.overrun = 7
of_tiwm TiwmError.timeout = 8
of_tiwm TiwmError.unknown = 9

abbrev tiwm_errors : List TiwmError
tiwm_errors =
    TiwmError.tx_buffer_too_long ∷ TiwmError.rx_buffer_too_long ∷ TiwmError.transmit
    ∷ TiwmError.receive ∷ TiwmError.ram_buffer_too_small ∷ TiwmError.address_nack
    ∷ TiwmError.data_nack ∷ TiwmError.overrun ∷ TiwmError.timeout ∷ []

abbrev or_else {ℓ} : {A : Type ℓ} → A → Option A → A
or_else a none = a
or_else a (some b) = b

abbrev to_tiwm : ℕ → TiwmError
to_tiwm n = or_else TiwmError.unknown (get_elem? tiwm_errors n)

to_tiwm-of_tiwm : (e : TiwmError) → to_tiwm (of_tiwm e) ≡ e
to_tiwm-of_tiwm TiwmError.tx_buffer_too_long = refl
to_tiwm-of_tiwm TiwmError.rx_buffer_too_long = refl
to_tiwm-of_tiwm TiwmError.transmit = refl
to_tiwm-of_tiwm TiwmError.receive = refl
to_tiwm-of_tiwm TiwmError.ram_buffer_too_small = refl
to_tiwm-of_tiwm TiwmError.address_nack = refl
to_tiwm-of_tiwm TiwmError.data_nack = refl
to_tiwm-of_tiwm TiwmError.overrun = refl
to_tiwm-of_tiwm TiwmError.timeout = refl
to_tiwm-of_tiwm TiwmError.unknown = refl

-- The kind of a fault is two numbers: which one it is, and the error of the bus.
abbrev of_kind : FaultKind → ℕ × ℕ
of_kind (FaultKind.i2c (I2cError.ina_vin_current e)) = (0, of_tiwm e)
of_kind (FaultKind.i2c (I2cError.ina_vin_voltage e)) = (1, of_tiwm e)
of_kind (FaultKind.i2c (I2cError.ina_vin_config e)) = (2, of_tiwm e)
of_kind (FaultKind.i2c (I2cError.ina_vin_id e)) = (3, of_tiwm e)
of_kind FaultKind.undercurrent = (4, 0)
of_kind FaultKind.no_battery = (5, 0)
of_kind FaultKind.overcurrent = (6, 0)

abbrev kinds : TiwmError → List FaultKind
kinds e =
    FaultKind.i2c (I2cError.ina_vin_current e)
    ∷ FaultKind.i2c (I2cError.ina_vin_voltage e)
    ∷ FaultKind.i2c (I2cError.ina_vin_config e)
    ∷ FaultKind.i2c (I2cError.ina_vin_id e)
    ∷ FaultKind.undercurrent
    ∷ FaultKind.no_battery
    ∷ []

abbrev to_kind : ℕ → ℕ → FaultKind
to_kind n e = or_else FaultKind.overcurrent (get_elem? (kinds (to_tiwm e)) n)

to_kind-of_kind : (k : FaultKind) → to_kind (of_kind k).0 (of_kind k).1 ≡ k
to_kind-of_kind (FaultKind.i2c (I2cError.ina_vin_current e)) = rw (to_tiwm-of_tiwm e)
to_kind-of_kind (FaultKind.i2c (I2cError.ina_vin_voltage e)) = rw (to_tiwm-of_tiwm e)
to_kind-of_kind (FaultKind.i2c (I2cError.ina_vin_config e)) = rw (to_tiwm-of_tiwm e)
to_kind-of_kind (FaultKind.i2c (I2cError.ina_vin_id e)) = rw (to_tiwm-of_tiwm e)
to_kind-of_kind FaultKind.undercurrent = refl
to_kind-of_kind FaultKind.no_battery = refl
to_kind-of_kind FaultKind.overcurrent = refl

abbrev of_fault : Result (Unit {0}) Fault → Bytes
of_fault (ok u) = 0 ∷ 0 ∷ 0 ∷ 0 ∷ []
of_fault (err f) = 1 ∷ (of_kind f.kind).0 ∷ (of_kind f.kind).1 ∷ f.time ∷ []

abbrev of_reply : Option Measurement → Result (Unit {0}) Fault → Bytes
of_reply none f = 0 ∷ 0 ∷ 0 ∷ 0 ∷ 0 ∷ of_fault f
of_reply (some m) f = 1 ∷ m.vbat.raw ∷ m.ibat.raw ∷ m.dt ∷ m.duration ∷ of_fault f

abbrev to_measurement : ℕ → ℕ → ℕ → ℕ → ℕ → Option Measurement
to_measurement zero v i dt duration = none
to_measurement (suc n) v i dt duration =
    some (record {
      vbat = record { raw = v };
      ibat = record { raw = i };
      dt = dt;
      duration = duration;
    })

abbrev to_fault : ℕ → ℕ → ℕ → ℕ → Result (Unit {0}) Fault
to_fault zero k e time = ok tt
to_fault (suc n) k e time = err (record { kind = to_kind k e; time = time })

abbrev to_reply : Bytes → Option BiReply
to_reply (n ∷ v ∷ i ∷ dt ∷ duration ∷ f ∷ k ∷ e ∷ time ∷ []) =
    some (record { measurement = to_measurement n v i dt duration; fault = to_fault f k e time })
to_reply _ = none

pub to_reply-of_reply :
    (m : Option Measurement) (f : Result (Unit {0}) Fault)
    → to_reply (of_reply m f) ≡ some (record { measurement = m; fault = f })
to_reply-of_reply none (ok u) = refl
to_reply-of_reply none (err f) = rw (to_kind-of_kind f.kind)
to_reply-of_reply (some m) (ok u) = refl
to_reply-of_reply (some m) (err f) = rw (to_kind-of_kind f.kind)

pub length-of_reply :
    (m : Option Measurement) (f : Result (Unit {0}) Fault) → length (of_reply m f) ≤ 9
length-of_reply none (ok u) = omega arith
length-of_reply none (err f) = omega arith
length-of_reply (some m) (ok u) = omega arith
length-of_reply (some m) (err f) = omega arith

abbrev pub plain_replies : Codec BiReply
plain_replies = record {
  to_slice = λ r. of_reply r.measurement r.fault;
  from_bytes = to_reply;
  max_size = 9;
  from_bytes-to_slice = λ r. to_reply-of_reply r.measurement r.fault;
  length-to_slice = λ r. length-of_reply r.measurement r.fault;
  max_size_byte = omega arith;
}
