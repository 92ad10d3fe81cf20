-- ===== src/Text.antt =====
-- `std::string` as a list of bytes: comparison, search and decimal printing.
pub mod Search
pub mod Missing
pub mod Decimal
use Prim.Native.Char.{code}
use Prim.Native.String.{String}
use bot_cock_pit.Prelude.{
  ℕ, ◌≡◌, refl, ap, ◌↔◌, Bool, true, false, ◌&&◌, List, [], ◌∷◌, ◌++◌, Option, none, some, arith,
  ◌==◌, if◌then◌else◌, map,
}

abbrev pub Text : Type 0
Text = List ℕ

-- A string literal of the source; all of them are ASCII.
abbrev pub codes : String → Text
codes String.[] = []
codes (String.◌∷◌ c s) = code c ∷ codes s

-- `a == b` on strings.
unfoldable pub text_eq : Text → Text → Bool
text_eq [] [] = true
text_eq (a ∷ s) (b ∷ t) = a == b && text_eq s t
text_eq _ _ = false

pub text_eq→≡ : (s t : Text) → text_eq s t ≡ true → s ≡ t
unfolding text_eq
text_eq→≡ [] [] h = refl
text_eq→≡ (a ∷ s) (b ∷ t) h = ground (arith, text_eq→≡ s t)
text_eq→≡ [] (b ∷ t) h = cc
text_eq→≡ (a ∷ s) [] h = cc

pub text_eq_refl : (s : Text) → text_eq s s ≡ true
unfolding text_eq
text_eq_refl [] = refl
text_eq_refl (a ∷ s) = ground (arith, text_eq_refl s)

abbrev pub is_empty : Text → Bool
is_empty [] = true
is_empty (c ∷ s) = false

-- `prefix` taken off the front.
unfoldable pub strip_prefix : Text → Text → Option Text
strip_prefix [] s = some s
strip_prefix (a ∷ p) [] = none
strip_prefix (a ∷ p) (b ∷ s) = if a == b then strip_prefix p s else none

-- `s.find(needle)`: what stands behind the first occurrence.
unfoldable pub find_after : Text → Text → Option Text
unfolding strip_prefix
find_after needle [] = strip_prefix needle []
find_after needle (c ∷ s) = elim (strip_prefix needle (c ∷ s)) [
  | some rest ↦ some rest
  | none ↦ find_after needle s
]

abbrev pub contains : Text → Text → Bool
contains needle s = elim (find_after needle s) [ some rest ↦ true | none ↦ false ]

-- `"` + key + `"`.
abbrev pub quoted : Text → Text
quoted key = b'"' ∷ (key ++ b'"' ∷ [])
