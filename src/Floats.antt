-- ===== src/Floats.antt =====
-- What the program uses of `double` and of the C library's functions on it: an argument of all
-- that computes with them. Nothing is assumed of the operations.
pub mod Whole
use bot_cock_pit.Prelude.{ℕ, Bool, Option}
use bot_cock_pit.Int.{ℤ}
use bot_cock_pit.Text.{Text}

pub record Floats : Type 1 where
  pub Double : Type 0
  pub lit : ℕ → ℕ → Double  -- the decimal literal n / d
  pub neg : Double → Double
  pub add : Double → Double → Double
  pub sub : Double → Double → Double
  pub mul : Double → Double → Double
  pub div : Double → Double → Double
  pub lt : Double → Double → Bool  -- `a < b`
  pub le : Double → Double → Bool  -- `a <= b`
  pub pi : Double
  pub abs : Double → Double
  pub sqrt : Double → Double
  pub sin : Double → Double
  pub cos : Double → Double
  pub atan2 : Double → Double → Double
  pub hypot : Double → Double → Double
  pub of_int : ℤ → Double
  pub floor : Double → ℤ  -- `static_cast<int>(std::floor(a))`
  pub ceil : Double → ℤ  -- `static_cast<int>(std::ceil(a))`
  pub strtod : Text → Option Double  -- `none` where the end pointer is the start
  pub to_u16 : Double → ℕ  -- `static_cast<uint16_t>(a)`
  pub print : Double → Text  -- `ostream << a`
  pub to_string : Double → Text  -- `std::to_string(a)`
