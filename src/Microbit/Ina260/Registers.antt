-- ===== src/Microbit/Ina260/Registers.antt =====
-- The register addresses and the bit patterns of the INA260.
use battery_tester.Prelude.{ℕ}

pub data Register : Type 0 where
  config current voltage power mask_enable alert_limit manufacturer_id die_id : Register

-- `Register::addr`, and `From<Register> for u8`.
unfoldable pub addr : Register → ℕ
addr config = 0x00
addr current = 0x01
addr voltage = 0x02
addr power = 0x03
addr mask_enable = 0x06
addr alert_limit = 0x07
addr manufacturer_id = 0xfe
addr die_id = 0xff

pub data Averaging : Type 0 where
  avg1 avg4 avg16 avg64 avg128 avg256 avg512 avg1024 : Averaging

unfoldable pub averaging_bits : Averaging → ℕ
averaging_bits avg1 = 0b0000_0000_0000_0000
averaging_bits avg4 = 0b0000_0010_0000_0000
averaging_bits avg16 = 0b0000_0100_0000_0000
averaging_bits avg64 = 0b0000_0110_0000_0000
averaging_bits avg128 = 0b0000_1000_0000_0000
averaging_bits avg256 = 0b0000_1010_0000_0000
averaging_bits avg512 = 0b0000_1100_0000_0000
averaging_bits avg1024 = 0b0000_1110_0000_0000

pub data BvConvTime : Type 0 where
  us140 us204 us332 us588 ms1_1 ms2_116 ms4_156 ms8_244 : BvConvTime

unfoldable pub bv_bits : BvConvTime → ℕ
bv_bits BvConvTime.us140 = 0b0000_0000_0000_0000
bv_bits BvConvTime.us204 = 0b0000_0000_0100_0000
bv_bits BvConvTime.us332 = 0b0000_0000_1000_0000
bv_bits BvConvTime.us588 = 0b0000_0000_1100_0000
bv_bits BvConvTime.ms1_1 = 0b0000_0001_0000_0000
bv_bits BvConvTime.ms2_116 = 0b0000_0001_0100_0000
bv_bits BvConvTime.ms4_156 = 0b0000_0001_1000_0000
bv_bits BvConvTime.ms8_244 = 0b0000_0001_1100_0000

pub data ScConvTime : Type 0 where
  us140 us204 us332 us588 ms1_1 ms2_116 ms4_156 ms8_244 : ScConvTime

unfoldable pub sc_bits : ScConvTime → ℕ
sc_bits ScConvTime.us140 = 0b0000_0000_0000_0000
sc_bits ScConvTime.us204 = 0b0000_0000_0000_1000
sc_bits ScConvTime.us332 = 0b0000_0000_0001_0000
sc_bits ScConvTime.us588 = 0b0000_0000_0001_1000
sc_bits ScConvTime.ms1_1 = 0b0000_0000_0010_0000
sc_bits ScConvTime.ms2_116 = 0b0000_0000_0010_1000
sc_bits ScConvTime.ms4_156 = 0b0000_0000_0011_0000
sc_bits ScConvTime.ms8_244 = 0b0000_0000_0011_1000

pub data OperMode : Type 0 where
  shutdown sct bvt scbvt scc bvc scbvc : OperMode

unfoldable pub oper_bits : OperMode → ℕ
oper_bits shutdown = 0b0000_0000_0000_0000
oper_bits sct = 0b0000_0000_0000_0001
oper_bits bvt = 0b0000_0000_0000_0010
oper_bits scbvt = 0b0000_0000_0000_0011
oper_bits scc = 0b0000_0000_0000_0101
oper_bits bvc = 0b0000_0000_0000_0110
oper_bits scbvc = 0b0000_0000_0000_0111

pub data MaskEnable : Type 0 where
  ocl ucl bol bul pol cnvr aff cvrf ovf apol len : MaskEnable

unfoldable pub mask_bits : MaskEnable → ℕ
mask_bits ocl = 0b1000_0000_0000_0000
mask_bits ucl = 0b0100_0000_0000_0000
mask_bits bol = 0b0010_0000_0000_0000
mask_bits bul = 0b0001_0000_0000_0000
mask_bits pol = 0b0000_1000_0000_0000
mask_bits cnvr = 0b0000_0100_0000_0000
mask_bits aff = 0b0000_0000_0001_0000
mask_bits cvrf = 0b0000_0000_0000_1000
mask_bits ovf = 0b0000_0000_0000_0100
mask_bits apol = 0b0000_0000_0000_0010
mask_bits len = 0b0000_0000_0000_0001
