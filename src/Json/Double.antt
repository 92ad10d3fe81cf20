-- ===== src/Json/Double.antt =====
-- get_double of the bridge (bridge/src/json_util.cpp), over `double` as a parameter.
use bot_cock_pit.Prelude.{◌||◌, [], ◌∷◌, Option, none, some, ◌==◌, if◌then◌else◌}
use bot_cock_pit.Text.{Text}
use bot_cock_pit.Text.Decimal.{is_digit}
use bot_cock_pit.Floats.{Floats}
use bot_cock_pit.Json.{find_key_value, skip_sign}

module _ (F : Floats) where
  abbrev pub double_at : Text → Option F.Double
  double_at [] = none
  double_at (c ∷ s) = if is_digit c || c == b'.' then F.strtod (c ∷ s) else none

  unfoldable pub get_double : Text → Text → Option F.Double
  get_double obj key = elim (find_key_value obj key) [
    | none ↦ none
    | some v ↦ double_at (skip_sign v)
  ]
