-- ===== src/Bridge/Server/Inject.antt =====
-- The state that is sent to a console (bridge/src/tcp_server.cpp, inject_runtime_fields).
use bot_cock_pit.Prelude.{
  ℕ, suc, length, Option, ◌≡◌, refl, sym, ap, subst, ◌∙◌, true, false, not, ◌&&◌, [], ◌∷◌, ◌++◌,
  some, none, arith, if-intro, if◌then◌else◌, All, append_assoc, Bool-cases, Option-cases, inl, inr,
  ==_iff,
}
use bot_cock_pit.Text.{Text, codes, contains, find_after, strip_prefix, is_empty, quoted}
use bot_cock_pit.Text.Search.{find_after-append}
use bot_cock_pit.Text.Missing.{find_after-stop, find_after-prefix}
use bot_cock_pit.Json.{
  escape, get_string, find_key_value, search_key, skip_ws, parse_json_string_at, value_behind,
}
use bot_cock_pit.Json.Escape.{IsPlain, string_body-escape}
use bot_cock_pit.Bridge.Runtime.{inject_runtime_fields, ends_with, pop_back, starts_object}

abbrev key : Text
key = quoted (codes "conn")

-- A text without the key.
record IsClear (s : Text) : Type 0 where
  clear : find_after key s ≡ none

-- A text behind which the key is found.
record IsFront (s : Text) : Type 0 where
  found : (t : Text) → find_after key (s ++ (key ++ t)) ≡ some t

pop_back-ends_with : (x : ℕ) (s : Text) → ends_with x s ≡ true → pop_back s ++ x ∷ [] ≡ s
unfolding ends_with pop_back
pop_back-ends_with x [] h = cc h
pop_back-ends_with x (d ∷ []) h = ap (λ c. c ∷ []) (sym ((==_iff d x).0 h))
pop_back-ends_with x (d ∷ e ∷ s) h = ap (◌∷◌ d) (pop_back-ends_with x (e ∷ s) h)

pop_back-IsClear : (x : ℕ) (s : Text) → ends_with x s ≡ true → IsClear s → IsClear (pop_back s)
pop_back-IsClear x s h c = record {
  clear =
      find_after-prefix b'"' _ (pop_back s) (x ∷ [])
        (ap (find_after key) (pop_back-ends_with x s h) ∙ c.clear);
}

-- The key has neither a comma nor a brace.
comma-IsFront : (s : Text) → IsClear s → IsFront (s ++ b',' ∷ [])
comma-IsFront s c = record {
  found = λ t.
      ap (find_after key) (append_assoc s (b',' ∷ []) (key ++ t))
      ∙ find_after-stop b'"' _ s t b',' (omega arith)
          (
            omega arith,
            (omega arith, (omega arith, (omega arith, (omega arith, (omega arith, tt))))),
          )
          c.clear;
}

brace-IsFront : (s : Text) → IsClear s → IsFront (s ++ b'{' ∷ [])
brace-IsFront s c = record {
  found = λ t.
      ap (find_after key) (append_assoc s (b'{' ∷ []) (key ++ t))
      ∙ find_after-stop b'"' _ s t b'{' (omega arith)
          (
            omega arith,
            (omega arith, (omega arith, (omega arith, (omega arith, (omega arith, tt))))),
          )
          c.clear;
}

ending-IsFront : (s : Text) → IsClear s → (ends_with b',' s ≡ true) → IsFront s
ending-IsFront s c h =
    subst IsFront (pop_back-ends_with b',' s h)
      (comma-IsFront (pop_back s) (pop_back-IsClear b',' s h c))

opening-IsFront : (s : Text) → IsClear s → (ends_with b'{' s ≡ true) → IsFront s
opening-IsFront s c h =
    subst IsFront (pop_back-ends_with b'{' s h)
      (brace-IsFront (pop_back s) (pop_back-IsClear b'{' s h c))

empty-IsFront : (s : Text) → is_empty s ≡ true → IsFront s
empty-IsFront [] h = record { found = find_after-append key }
empty-IsFront (c ∷ s) h = cc h

-- What stands in front of the fields that are added.
head-IsFront :
    (s : Text)
    → IsClear s
    → IsFront (
        if not (is_empty s) && (not (ends_with b',' s) && not (ends_with b'{' s))
        then s ++ codes ","
        else s)
head-IsFront s c =
    if-intro IsFront (not (is_empty s) && (not (ends_with b',' s) && not (ends_with b'{' s)))
      (λ _. comma-IsFront s c)
      (λ off. elim (Bool-cases (ends_with b',' s)) [
        | inl e ↦ ending-IsFront s c e
        | inr e ↦ elim (Bool-cases (ends_with b'{' s)) [
          | inl k ↦ opening-IsFront s c k
          | inr k ↦ empty-IsFront s (ground (arith, off, e, k))
        ]
      ])

body-IsClear : (s : Text) → IsClear s → IsClear (if starts_object s then s else codes "{}")
unfolding find_after strip_prefix
body-IsClear s c = if-intro IsClear (starts_object s) (λ _. c) (λ _. record { clear = refl })

bare-IsClear : (s : Text) → IsClear s → IsClear (if ends_with b'}' s then pop_back s else s)
bare-IsClear s c = if-intro IsClear (ends_with b'}' s) (λ e. pop_back-IsClear b'}' s e c) (λ _. c)

contains-IsClear : (s : Text) → contains key s ≡ false → IsClear s
contains-IsClear s h = elim (Option-cases (find_after key s)) [
  | inl e ↦ record { clear = e }
  | inr (r, e) ↦ absurd (ground (arith, e, h))
]

search_key-found :
    (fuel : ℕ) (needle obj rest : Text)
    → find_after needle obj ≡ some rest
    → search_key (suc fuel) needle obj ≡ elim (value_behind (skip_ws rest)) as (λ _. Option Text) [
      | some value ↦ value
      | none ↦ search_key fuel needle rest
    ]
unfolding search_key
search_key-found fuel needle obj rest e = rw (e, search_key) refl

abbrev string_at : Option Text → Option Text
string_at o = elim o [ none ↦ none | some v ↦ parse_json_string_at v ]

-- The value of a key that is found with a colon and a quote behind it.
get_string-front :
    (s v rest : Text)
    → IsFront s
    → All IsPlain v
    → get_string (s ++ (key ++ (codes ":\"" ++ (escape v ++ b'"' ∷ rest)))) (codes "conn") ≡ some v
unfolding get_string find_key_value parse_json_string_at skip_ws
get_string-front s v rest f h =
    let t = codes ":\"" ++ (escape v ++ b'"' ∷ rest) in
    ap string_at (search_key-found (length (s ++ (key ++ t))) key (s ++ (key ++ t)) t (f.found t))
    ∙ string_body-escape v rest h

-- From a state without the text "conn" in quotes, inject_runtime_fields makes one in which the
-- bridge's own JSON reader finds the key conn with the value given, if every byte of the value
-- is at least 32, a tab, a line feed or a carriage return.
pub get_string-inject_runtime_fields :
    (state_json conn_value : Text)
    → contains (codes "\"conn\"") state_json ≡ false
    → All IsPlain conn_value
    → get_string (inject_runtime_fields state_json conn_value) (codes "conn") ≡ some conn_value
unfolding inject_runtime_fields
get_string-inject_runtime_fields state_json conn_value h plain =
    let body = if starts_object state_json then state_json else codes "{}" in
    let bare = if ends_with b'}' body then pop_back body else body in
    let clear = bare-IsClear body (body-IsClear state_json (contains-IsClear state_json h)) in
    if-intro (λ (t : Text). get_string t (codes "conn") ≡ some conn_value)
      (not (is_empty state_json) && contains (codes "\"conn\"") state_json)
      (λ on. absurd (ground (arith, on, h)))
      (λ _. get_string-front _ conn_value _ (head-IsFront bare clear) plain)
