-- ===== src/Microbit/Ina260/Fields.antt =====
-- The fields of the configuration word that `as_be_bytes` packs (ina260/mod.rs, lines 294 to 297).
use battery_tester.Prelude.{◌*◌, ◌/◌, ◌%◌, ◌<◌, ◌≡◌, refl, Bool, true, ◌&&◌, ◌==◌, ltb, arith}
use battery_tester.Microbit.Ina260.Registers.{
  Averaging, averaging_bits, BvConvTime, bv_bits, ScConvTime, sc_bits, OperMode, oper_bits,
}
use battery_tester.Microbit.Ina260.Config.{Ina260Config, from_be_bytes, as_be_bytes}

-- A test of every configuration, by evaluation.
every_om : (OperMode → Bool) → Bool
every_om p =
    p OperMode.shutdown
    && p OperMode.sct
    && p OperMode.bvt
    && p OperMode.scbvt
    && p OperMode.scc
    && p OperMode.bvc
    && p OperMode.scbvc

every_om_sound : (p : OperMode → Bool) → every_om p ≡ true → (m : OperMode) → p m ≡ true
unfolding every_om
every_om_sound p h OperMode.shutdown = ground arith
every_om_sound p h _ = ground arith

every_am : (Averaging → Bool) → Bool
every_am p =
    p Averaging.avg1
    && p Averaging.avg4
    && p Averaging.avg16
    && p Averaging.avg64
    && p Averaging.avg128
    && p Averaging.avg256
    && p Averaging.avg512
    && p Averaging.avg1024

every_am_sound : (p : Averaging → Bool) → every_am p ≡ true → (m : Averaging) → p m ≡ true
unfolding every_am
every_am_sound p h Averaging.avg1 = ground arith
every_am_sound p h _ = ground arith

every_sc : (ScConvTime → Bool) → Bool
every_sc p =
    p ScConvTime.us140
    && p ScConvTime.us204
    && p ScConvTime.us332
    && p ScConvTime.us588
    && p ScConvTime.ms1_1
    && p ScConvTime.ms2_116
    && p ScConvTime.ms4_156
    && p ScConvTime.ms8_244

every_sc_sound : (p : ScConvTime → Bool) → every_sc p ≡ true → (m : ScConvTime) → p m ≡ true
unfolding every_sc
every_sc_sound p h ScConvTime.us140 = ground arith
every_sc_sound p h _ = ground arith

every_bv : (BvConvTime → Bool) → Bool
every_bv p =
    p BvConvTime.us140
    && p BvConvTime.us204
    && p BvConvTime.us332
    && p BvConvTime.us588
    && p BvConvTime.ms1_1
    && p BvConvTime.ms2_116
    && p BvConvTime.ms4_156
    && p BvConvTime.ms8_244

every_bv_sound : (p : BvConvTime → Bool) → every_bv p ≡ true → (m : BvConvTime) → p m ≡ true
unfolding every_bv
every_bv_sound p h BvConvTime.us140 = ground arith
every_bv_sound p h _ = ground arith

-- Whether the word that the two bytes spell holds each field's bit pattern at the field's place.
reads_back : OperMode → Averaging → ScConvTime → BvConvTime → Bool
reads_back om am scct bvct =
    let bytes = as_be_bytes (record { om = om; am = am; scct = scct; bvct = bvct }) in
    let word = from_be_bytes bytes in
    word % 8 == oper_bits om
    && word / 8 % 8 * 8 == sc_bits scct
    && word / 64 % 8 * 64 == bv_bits bvct
    && word / 512 * 512 == averaging_bits am
    && ltb bytes.0 256
    && ltb bytes.1 256

all_read_back :
    every_om (λ om. every_am (λ am. every_sc (λ sc. every_bv (λ bv. reads_back om am sc bv))))
    ≡ true
unfolding reads_back as_be_bytes every_om every_am every_sc every_bv
all_read_back = refl

all_read_back_at :
    (om : OperMode) (am : Averaging) (sc : ScConvTime) (bv : BvConvTime)
    → reads_back om am sc bv ≡ true
all_read_back_at om am sc bv =
    every_bv_sound (reads_back om am sc)
      (every_sc_sound (λ s. every_bv (λ b. reads_back om am s b))
        (every_am_sound (λ a. every_sc (λ s. every_bv (λ b. reads_back om a s b)))
          (every_om_sound (λ o. every_am (λ a. every_sc (λ s. every_bv (λ b. reads_back o a s b))))
            all_read_back om)
          am)
        sc)
      bv

-- For every configuration: the two bytes sent are bytes, and the 16-bit word that they spell, most
-- significant byte first, holds the operating mode in bits 0 to 2, the shunt conversion time in
-- bits 3 to 5, the bus conversion time in bits 6 to 8 and the averaging mode above, each exactly as
-- its enum spells it, so that no field disturbs another.
pub as_be_bytes_fields :
    (c : Ina260Config)
    → let word = from_be_bytes (as_be_bytes c) in
      (word % 8 ≡ oper_bits c.om)
      × (word / 8 % 8 * 8 ≡ sc_bits c.scct)
      × (word / 64 % 8 * 64 ≡ bv_bits c.bvct)
      × (word / 512 * 512 ≡ averaging_bits c.am)
      × ((as_be_bytes c).0 < 256)
      × ((as_be_bytes c).1 < 256)
unfolding reads_back
as_be_bytes_fields c = ground (arith, all_read_back_at c.om c.am c.scct c.bvct)

oper_bits-injective : (a b : OperMode) → oper_bits a ≡ oper_bits b → a ≡ b
unfolding oper_bits
oper_bits-injective a b h = ground arith

averaging_bits-injective : (a b : Averaging) → averaging_bits a ≡ averaging_bits b → a ≡ b
unfolding averaging_bits
averaging_bits-injective a b h = ground arith

sc_bits-injective : (a b : ScConvTime) → sc_bits a ≡ sc_bits b → a ≡ b
unfolding sc_bits
sc_bits-injective a b h = ground arith

bv_bits-injective : (a b : BvConvTime) → bv_bits a ≡ bv_bits b → a ≡ b
unfolding bv_bits
bv_bits-injective a b h = ground arith

-- Two configurations that are sent as the same two bytes are the same in every field.
pub as_be_bytes-injective : (c d : Ina260Config) → as_be_bytes c ≡ as_be_bytes d → c ≡ d
as_be_bytes-injective c d h = ground (
  arith,
  fields,
  as_be_bytes_fields d,
  oper_bits-injective c.om d.om,
  averaging_bits-injective c.am d.am,
  sc_bits-injective c.scct d.scct,
  bv_bits-injective c.bvct d.bvct,
)
  where
    fields :
        let word = from_be_bytes (as_be_bytes d) in
        (word % 8 ≡ oper_bits c.om)
        × (word / 8 % 8 * 8 ≡ sc_bits c.scct)
        × (word / 64 % 8 * 64 ≡ bv_bits c.bvct)
        × (word / 512 * 512 ≡ averaging_bits c.am)
        × ((as_be_bytes d).0 < 256)
        × ((as_be_bytes d).1 < 256)
    fields = rw (← h) (as_be_bytes_fields c)
