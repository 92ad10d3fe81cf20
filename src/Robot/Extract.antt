-- ===== src/Robot/Extract.antt =====
-- The robot's own field extractors (sim/src/fake_robot.cpp). Unlike the bridge's, they take the
-- first colon behind the first occurrence of the key, wherever it stands.
use bot_cock_pit.Prelude.{
  ℕ, Bool, true, false, ◌||◌, [], ◌∷◌, Option, none, some, ◌==◌, if◌then◌else◌,
}
use bot_cock_pit.Text.{Text, codes, strip_prefix, find_after, quoted}
use bot_cock_pit.Floats.{Floats}

unfoldable pub esc : Text → Text
esc [] = []
esc (c ∷ s) = if c == b'"' || c == b'\\' then b'\\' ∷ c ∷ esc s else c ∷ esc s

unfoldable pub skip_blanks : Text → Text
skip_blanks [] = []
skip_blanks (c ∷ s) = if c == b' ' || c == 9 then skip_blanks s else c ∷ s

-- The text behind the key, a colon and blanks.
unfoldable pub field_value : Text → Text → Option Text
unfolding skip_blanks
field_value obj key = elim (find_after (quoted key) obj) [
  | none ↦ none
  | some behind ↦ elim (find_after (b':' ∷ []) behind) [
    | none ↦ none
    | some value ↦ some (skip_blanks value)
  ]
]

-- A literal with no closing quote is taken up to the end of the text.
unfoldable pub literal_body : Text → Text
literal_body [] = []
literal_body (c ∷ []) = if c == b'"' then [] else c ∷ []
literal_body (c ∷ d ∷ s) =
    let escaped = d ∷ literal_body s in
    let plain = c ∷ literal_body (d ∷ s) in
    if c == b'"' then [] else if c == b'\\' then escaped else plain

abbrev pub literal_at : Text → Option Text
literal_at [] = none
literal_at (c ∷ s) = if c == b'"' then some (literal_body s) else none

unfoldable pub extract_string : Text → Text → Option Text
unfolding field_value literal_body
extract_string obj key = elim (field_value obj key) [ none ↦ none | some v ↦ literal_at v ]

abbrev pub bool_at : Text → Option Bool
bool_at v = elim (strip_prefix (codes "true") v) [
  | some r ↦ some true
  | none ↦ elim (strip_prefix (codes "false") v) [ some r ↦ some false | none ↦ none ]
]

unfoldable pub extract_bool : Text → Text → Option Bool
unfolding field_value
extract_bool obj key = elim (field_value obj key) [ none ↦ none | some v ↦ bool_at v ]

module _ (F : Floats) where
  -- `strtod` returns 0 where it reads no number, and that is what `out` then holds.
  abbrev pub assigned : Option F.Double → Bool × F.Double
  assigned none = (false, F.lit 0 1)
  assigned (some v) = (true, v)

  abbrev pub number_at : Text → F.Double → Bool × F.Double
  number_at [] out = (false, out)
  number_at (c ∷ s) out = assigned (F.strtod (c ∷ s))

  -- The result, and what `out` holds afterwards.
  unfoldable pub extract_number : Text → Text → F.Double → Bool × F.Double
  unfolding field_value
  extract_number obj key out = elim (field_value obj key) [
    | none ↦ (false, out)
    | some v ↦ number_at v out
  ]

  abbrev pub seq_of : Bool × F.Double → ℕ
  seq_of (found, v) = if found then F.to_u16 v else 0

  unfoldable pub extract_seq : Text → ℕ
  unfolding extract_number
  extract_seq obj = seq_of (extract_number obj (codes "seq") (F.lit 0 1))
