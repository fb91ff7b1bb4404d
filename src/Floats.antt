-- ===== src/Floats.antt =====
-- The floating-point arithmetic that src/transport-messages.cpp does on `double` and `float`,
-- taken as a parameter: its types, the constant, and the conversions to and from 32 bits.
use flight_safety_system.Base.{ℕ, ◌^◌, ◌<◌}

-- An integer of 32 bits, signed or not, is its bit pattern. A conversion of a value that has no
-- such integer (NaN is one) is left open by C++: `to_int32` gives some pattern.
pub record Floats : Type 1 where
  pub Double : Type 0
  pub Single : Type 0
  pub nan : Double
  pub zero_double : Double
  pub flt_to_int : Single
  pub widen : Single → Double
  pub div : Double → Double → Double
  pub mul : Double → Double → Double
  pub mul_single : Single → Single → Single
  pub to_int32 : Double → ℕ
  pub double_of_int32 : ℕ → Double
  pub double_of_uint32 : ℕ → Double
  pub single_of_int32 : ℕ → Single
  pub to_int32-lt : (x : Double) → to_int32 x < 2 ^ 32

module _ (F : Floats) where
  -- `(int32_t) (x / flt_to_int)`.
  unfoldable pub to_fixed : F.Double → ℕ
  to_fixed x = F.to_int32 (F.div x (F.widen F.flt_to_int))

  -- `((double)lat) * flt_to_int`.
  unfoldable pub from_fixed : ℕ → F.Double
  from_fixed p = F.mul (F.double_of_int32 p) (F.widen F.flt_to_int)

  -- `((double)voltage_n) * flt_to_int`, of an unsigned integer.
  unfoldable pub from_fixed_unsigned : ℕ → F.Double
  from_fixed_unsigned p = F.mul (F.double_of_uint32 p) (F.widen F.flt_to_int)

  -- `lat * flt_to_int`: an integer times a `float` is a `float`.
  unfoldable pub from_fixed_single : ℕ → F.Double
  from_fixed_single p = F.widen (F.mul_single (F.single_of_int32 p) F.flt_to_int)

  pub to_fixed-lt : (x : F.Double) → to_fixed x < 2 ^ 32
  unfolding to_fixed
  to_fixed-lt x = F.to_int32-lt (F.div x (F.widen F.flt_to_int))
