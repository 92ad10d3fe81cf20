-- ===== src/Json.antt =====
-- The bridge's JSON helpers (bridge/src/json_util.cpp). A position in a text is the text from
-- there on, so a search returns what stands behind its hit.
pub mod Escape
pub mod Double
mod Tests
use bot_cock_pit.Prelude.{
  ℕ, zero, suc, ◌+◌, ◌-◌, ◌^◌, ◌/◌, ◌%◌, Bool, true, false, ◌||◌, ◌&&◌, [], ◌∷◌, ◌++◌, Option, none,
  some, leb, ltb, ◌==◌, if◌then◌else◌, length, min,
}
use mathlib.Core.Option
use bot_cock_pit.Text.{Text, codes, strip_prefix, find_after, quoted}
use bot_cock_pit.Text.Decimal.{is_digit, read_from}

-- `std::isspace` of the C locale.
abbrev pub is_space : ℕ → Bool
is_space c = c == b' ' || leb 9 c && leb c 13

unfoldable pub skip_ws : Text → Text
skip_ws [] = []
skip_ws (c ∷ s) = if is_space c then skip_ws s else c ∷ s

-- What stands behind the colon of `needle`, if a colon follows it; the text is not empty.
abbrev pub value_behind : Text → Option (Option Text)
value_behind [] = none
value_behind (c ∷ s) =
    if c == b':' then some (elim (skip_ws s) [ [] ↦ none | d ∷ t ↦ some (d ∷ t) ]) else none

-- The loop of `find_key_value`: a needle with no colon behind it is passed over.
unfoldable pub search_key : ℕ → Text → Text → Option Text
search_key zero needle obj = none
search_key (suc fuel) needle obj = elim (find_after needle obj) [
  | none ↦ none
  | some rest ↦ elim (value_behind (skip_ws rest)) [
    | some value ↦ value
    | none ↦ search_key fuel needle rest
  ]
]

-- Each round shortens the text by a needle, so its length is fuel enough.
unfoldable pub find_key_value : Text → Text → Option Text
unfolding search_key
find_key_value obj key = search_key (suc (length obj)) (quoted key) obj

abbrev pub unescape : ℕ → ℕ
unescape e = if e == b'n' then 10 else if e == b't' then 9 else if e == b'r' then 13 else e

-- The body of a string literal, up to its closing quote.
unfoldable pub string_body : Text → Option Text
string_body [] = none
string_body (c ∷ []) = if c == b'\\' then none else if c == b'"' then some [] else none
string_body (c ∷ e ∷ s) =
    let escaped = Option.map (◌∷◌ (unescape e)) (string_body s) in
    let plain = Option.map (◌∷◌ c) (string_body (e ∷ s)) in
    if c == b'\\' then escaped else if c == b'"' then some [] else plain

unfoldable pub parse_json_string_at : Text → Option Text
parse_json_string_at [] = none
parse_json_string_at (c ∷ s) = if c == b'"' then string_body s else none

abbrev hex_digit : ℕ → ℕ
hex_digit n = if ltb n 10 then b'0' + n else b'a' + (n - 10)

-- `snprintf("\\u%04x", c)` for a byte below 0x20.
abbrev pub unicode_escape : ℕ → Text
unicode_escape c = b'\\' ∷ b'u' ∷ b'0' ∷ b'0' ∷ hex_digit (c / 16) ∷ hex_digit (c % 16) ∷ []

unfoldable pub escape_char : ℕ → Text
escape_char c =
    if c == b'"'
    then b'\\' ∷ b'"' ∷ []
    else if c == b'\\'
    then b'\\' ∷ b'\\' ∷ []
    else if c == 10
    then b'\\' ∷ b'n' ∷ []
    else if c == 13
    then b'\\' ∷ b'r' ∷ []
    else if c == 9
    then b'\\' ∷ b't' ∷ []
    else if ltb c 32
    then unicode_escape c
    else c ∷ []

unfoldable pub escape : Text → Text
escape [] = []
escape (c ∷ s) = escape_char c ++ escape s

unfoldable pub has_key : Text → Text → Bool
has_key obj key = elim (find_key_value obj key) [ none ↦ false | some v ↦ true ]

unfoldable pub get_string : Text → Text → Option Text
get_string obj key = elim (find_key_value obj key) [ none ↦ none | some v ↦ parse_json_string_at v ]

abbrev pub llong_max : ℕ
llong_max = 2 ^ 63 - 1

-- `strtoll` on a text that begins with a digit: it stops at the largest `long long`.
abbrev pub strtoll : Text → ℕ
strtoll s = min (read_from 0 s).0 llong_max

-- A sign is stepped over before `strtoll` reads, so the number is never negative.
abbrev pub int_at : Text → Option ℕ
int_at [] = none
int_at (c ∷ s) = if is_digit c then some (strtoll (c ∷ s)) else none

abbrev pub skip_sign : Text → Text
skip_sign [] = []
skip_sign (c ∷ s) = if c == b'-' || c == b'+' then s else c ∷ s

unfoldable pub get_int : Text → Text → Option ℕ
get_int obj key = elim (find_key_value obj key) [ none ↦ none | some v ↦ int_at (skip_sign v) ]

abbrev pub bool_at : Text → Option Bool
bool_at v = elim (strip_prefix (codes "true") v) [
  | some r ↦ some true
  | none ↦ elim (strip_prefix (codes "false") v) [ some r ↦ some false | none ↦ none ]
]

unfoldable pub get_bool : Text → Text → Option Bool
get_bool obj key = elim (find_key_value obj key) [ none ↦ none | some v ↦ bool_at v ]
