-- ===== src/Json/Tests.antt =====
-- The bridge's JSON helpers at a text with a quote and a line's end.
use bot_cock_pit.Prelude.{◌≡◌, refl, [], ◌∷◌, ◌++◌, some, arith, inl, inr, All}
use bot_cock_pit.Text.{Text, codes, find_after}
use bot_cock_pit.Json.{string_body, escape, get_int, find_key_value, skip_ws}
use bot_cock_pit.Text.Decimal.{read_from}
use bot_cock_pit.Json.Escape.{string_body-escape, IsPlain}

abbrev line : Text
line = b'"' ∷ 10 ∷ b'a' ∷ []

line-All : All IsPlain line
line-All = (inl (omega arith), (inr (inr (inl refl)), (inl (omega arith), tt)))

string_body-escape_example : string_body (escape line ++ b'"' ∷ codes ",") ≡ some line
string_body-escape_example = string_body-escape line (codes ",") line-All

-- A minus sign is lost.
minus_lost : get_int (codes "{\"seq\":-5}") (codes "seq") ≡ some 5
unfolding get_int find_key_value find_after skip_ws read_from
minus_lost = refl
