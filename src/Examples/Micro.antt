-- ===== src/Examples/Micro.antt =====
-- A `Floats` for concrete runs: degrees and volts counted in millionths.
use flight_safety_system.Base.{ℕ, ◌%◌, ◌^◌, ◌<◌, arith}
use flight_safety_system.Floats.{Floats}

pub remainder_lt : (x : ℕ) → x % 2 ^ 32 < 2 ^ 32
remainder_lt x = omega arith

abbrev pub micro : Floats
micro = record {
  Double = ℕ;
  Single = Unit {0};
  nan = 2 ^ 31;
  zero_double = 0;
  flt_to_int = tt;
  widen = λ _. 0;
  div = λ x _. x;
  mul = λ x _. x;
  mul_single = λ x _. x;
  to_int32 = λ x. x % 2 ^ 32;
  double_of_int32 = λ p. p;
  double_of_uint32 = λ p. p;
  single_of_int32 = λ _. tt;
  to_int32-lt = remainder_lt;
}
