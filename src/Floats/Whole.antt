-- ===== src/Floats/Whole.antt =====
-- Whole numbers for the `double`s, for concrete runs.
use bot_cock_pit.Prelude.{◌+◌, ◌-◌, ◌*◌, ◌/◌, ◌%◌, ◌^◌, ℕ, some, ltb, leb}
use bot_cock_pit.Int.{pos, pos_part}
use bot_cock_pit.Text.Decimal.{to_string, read_from}
use bot_cock_pit.Floats.{Floats}

abbrev pub whole : Floats
whole = record {
  Double = ℕ;
  lit = λ n d. n / d;
  neg = λ a. 0 - a;
  add = ◌+◌;
  sub = ◌-◌;
  mul = ◌*◌;
  div = ◌/◌;
  lt = ltb;
  le = leb;
  pi = 3;
  abs = λ a. a;
  sqrt = λ a. a;
  sin = λ a. 0;
  cos = λ a. 1;
  atan2 = λ a b. 0;
  hypot = ◌+◌;
  of_int = pos_part;
  floor = pos;
  ceil = pos;
  strtod = λ s. some (read_from 0 s).0;
  to_u16 = λ a. a % 2 ^ 16;
  print = to_string;
  to_string = to_string;
}
