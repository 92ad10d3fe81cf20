-- ===== src/Json/Escape.antt =====
-- Escaping and parsing of string literals (bridge/src/json_util.cpp).
use bot_cock_pit.Prelude.{
  ℕ, ◌≤◌, ◌≡◌, refl, ◌⊎◌, ◌≢◌, inl, inr, ◌∙◌, ◌==◌, if◌then◌else◌, [], ◌∷◌, ◌++◌, some,
  append_assoc, arith, All,
}
use mathlib.Core.Option
use bot_cock_pit.Text.{Text}
use bot_cock_pit.Json.{unescape, string_body, escape, escape_char}

-- A byte whose escape sequence the parser knows.
abbrev pub IsPlain : ℕ → Type 0
IsPlain c = (32 ≤ c) ⊎ (c ≡ 9) ⊎ (c ≡ 10) ⊎ (c ≡ 13)

-- The byte behind the backslash.
abbrev letter : ℕ → ℕ
letter c = if c == 10 then b'n' else if c == 13 then b'r' else if c == 9 then b't' else c

escape_char-cases :
    (c : ℕ)
    → IsPlain c
    → ((escape_char c ≡ b'\\' ∷ letter c ∷ []) × (unescape (letter c) ≡ c))
      ⊎ ((escape_char c ≡ c ∷ []) × (c ≢ b'\\') × (c ≢ b'"'))
unfolding escape_char
escape_char-cases c h = ground arith

string_body-letter :
    (e : ℕ) (s : Text) → string_body (b'\\' ∷ e ∷ s) ≡ Option.map (◌∷◌ (unescape e)) (string_body s)
unfolding string_body
string_body-letter e s = refl

string_body-plain :
    (c : ℕ) (s : Text)
    → c ≢ b'\\'
    → c ≢ b'"'
    → string_body (c ∷ s) ≡ Option.map (◌∷◌ c) (string_body s)
unfolding string_body
string_body-plain c [] h k = ground arith
string_body-plain c (e ∷ s) h k = ground arith

string_body-escape_char :
    (c : ℕ) (s : Text)
    → IsPlain c
    → string_body (escape_char c ++ s) ≡ Option.map (◌∷◌ c) (string_body s)
string_body-escape_char c s h = elim (escape_char-cases c h) [
  | inl (e, same) ↦ rw e (string_body-letter (letter c) s ∙ rw same)
  | inr (e, h, k) ↦ rw e (string_body-plain c s h k)
]

string_body-quote : (rest : Text) → string_body (b'"' ∷ rest) ≡ some []
unfolding string_body
string_body-quote [] = refl
string_body-quote (c ∷ s) = refl

-- What escape wrote, the parser reads back up to the closing quote, if every byte is at least
-- 32, a tab, a line feed or a carriage return.
pub string_body-escape :
    (s rest : Text) → All IsPlain s → string_body (escape s ++ b'"' ∷ rest) ≡ some s
unfolding escape
string_body-escape [] rest h = string_body-quote rest
string_body-escape (c ∷ s) rest h = rw (
  append_assoc,
  string_body-escape_char c (escape s ++ b'"' ∷ rest) h.0,
  string_body-escape s rest h.1,
)
