-- ===== src/Ui/Remote/Pairs.antt =====
-- Texts for Qt's variants, for concrete runs.
use bot_cock_pit.Prelude.{ℕ, true, false, not, List, [], ◌∷◌, if◌then◌else◌, ltb, ◌==◌, length}
use bot_cock_pit.Int.{pos}
use bot_cock_pit.Text.{Text, codes, text_eq, is_empty}
use bot_cock_pit.Ui.Remote.{Variants}

-- A map is the list of its keys and values.
abbrev get : List (Text × Text) → Text → Text
get [] key = []
get ((k, v) ∷ m) key = let rest = get m key in if text_eq k key then v else rest

-- The one map that stands inside another.
abbrev inside : List (Text × Text)
inside = (codes "status", codes "ACTIVE") ∷ (codes "path_flat", codes "[]") ∷ []

abbrev pub pairs : Variants
pairs = record {
  Map = List (Text × Text);
  Value = Text;
  Double = ℕ;
  contains = λ m key. not (is_empty (get m key));
  value = get;
  to_text = λ v. v;
  to_bool = λ v. text_eq v (codes "true");
  to_double = λ v. 90;
  to_long = λ v. pos 0;
  to_int = λ v. pos 0;
  is_valid = λ v. not (is_empty v);
  is_null = λ v. false;
  zero = 0;
  not_a_number = 1000;
  is_finite = λ a. ltb a 1000;
  is_map = λ v. text_eq v (codes "{}");
  to_map = λ v. if text_eq v (codes "{}") then inside else [];
  is_list = λ v. text_eq v (codes "[]");
  to_list = λ v. if text_eq v (codes "[]") then codes "5" ∷ codes "6" ∷ [] else [];
  differ = λ a b. not (a == b);
  fuzzy_equal = λ a b. not (ltb a b);
  same_lists = λ xs ys. true;
  same_doubles = λ xs ys. length xs == length ys;
}
