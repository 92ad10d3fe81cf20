-- ===== src/Bridge/Node/Envelope.antt =====
-- The two sides of `botcockpit/cmd` and `botcockpit/cmd_result`: what the bridge
-- (bridge/src/bridge_node.cpp, publish_cmd_envelope and on_cmd_result) and the robot
-- (sim/src/fake_robot.cpp, extract_string and publish_cmd_result) make of each other's texts.
use bot_cock_pit.Prelude.{
  ℕ, ◌≡◌, refl, sym, ap, ◌∙◌, ◌≢◌, ◌≤◌, ◌<◌, ◌^◌, true, false, [], ◌∷◌, ◌++◌, Option, some, none,
  arith, All, if◌then◌else◌, flat, min,
}
use bot_cock_pit.Text.{Text, codes, find_after, quoted, is_empty}
use bot_cock_pit.Text.Search.{find_after-skip-All}
use bot_cock_pit.Text.Decimal.{
  to_string, to_string-All, read_from-to_string, read_from, is_digit, to_string-cons,
}
use bot_cock_pit.Json.{
  escape, escape_char, get_int, find_key_value, skip_ws, skip_sign, int_at, llong_max, is_space,
}
use bot_cock_pit.Robot.Extract.{extract_string, field_value, literal_body, skip_blanks}
use bot_cock_pit.Robot.Message.{cmd_result_json}
use bot_cock_pit.Robot.{CmdResult}
use bot_cock_pit.Bridge.Node.{envelope}

-- A byte that neither side escapes.
abbrev pub IsBare : ℕ → Type 0
IsBare c = (32 ≤ c) × (c ≢ b'"') × (c ≢ b'\\')

escape_char-IsBare : (c : ℕ) → IsBare c → escape_char c ≡ c ∷ []
unfolding escape_char
escape_char-IsBare c h = ground arith

escape-IsBare : (s : Text) → All IsBare s → escape s ≡ s
unfolding escape
escape-IsBare [] h = refl
escape-IsBare (c ∷ s) h = rw (escape_char-IsBare c h.0, escape-IsBare s h.1) refl

literal_body-cons : (c : ℕ) (s : Text) → IsBare c → literal_body (c ∷ s) ≡ c ∷ literal_body s
unfolding literal_body
literal_body-cons c [] h = ground arith
literal_body-cons c (d ∷ s) h = ground arith

literal_body-append : (s rest : Text) → All IsBare s → literal_body (s ++ b'"' ∷ rest) ≡ s
unfolding literal_body
literal_body-append [] [] h = refl
literal_body-append [] (c ∷ rest) h = refl
literal_body-append (c ∷ s) rest h =
    literal_body-cons c _ h.0 ∙ ap (◌∷◌ c) (literal_body-append s rest h.1)

-- What stands behind the command of an envelope.
abbrev behind_name : Text → Text
behind_name payload =
    flat (
      codes ",\"payload\":" ∷ (if is_empty payload then codes "null" else payload) ∷ codes "}" ∷ [])

abbrev behind_key : Text → Text → Text
behind_key name payload = codes ":\"" ++ (name ++ b'"' ∷ behind_name payload)

find_after-envelope :
    (cmd_name : Text) (seq : ℕ) (payload : Text)
    → find_after (quoted (codes "cmd")) (envelope cmd_name seq payload)
      ≡ some (behind_key (escape cmd_name) payload)
unfolding envelope find_after
find_after-envelope cmd_name seq payload =
    find_after-skip-All b'"' (codes "cmd\"") (to_string seq) _ (to_string-All b'"' seq refl)

field_value-envelope :
    (cmd_name : Text) (seq : ℕ) (payload : Text)
    → field_value (envelope cmd_name seq payload) (codes "cmd")
      ≡ some (b'"' ∷ (escape cmd_name ++ b'"' ∷ behind_name payload))
unfolding field_value find_after skip_blanks
field_value-envelope cmd_name seq payload =
    rw (find_after-envelope cmd_name seq payload, field_value) refl

-- The command that the robot finds in an envelope is the one that the bridge put in, whatever
-- the number and the payload are, if no byte of it needs an escape.
pub extract_string-envelope :
    (cmd_name : Text) (seq : ℕ) (payload : Text)
    → All IsBare cmd_name
    → extract_string (envelope cmd_name seq payload) (codes "cmd") ≡ some cmd_name
unfolding extract_string
extract_string-envelope cmd_name seq payload h =
    rw (field_value-envelope cmd_name seq payload, extract_string)
      (rw (escape-IsBare cmd_name h)
        (ap some (literal_body-append cmd_name (behind_name payload) h)))

stop : (n : ℕ) (rest : Text) → (read_from n (b',' ∷ rest)).0 ≡ n
unfolding read_from
stop n rest = refl

int_at-digit :
    (d n : ℕ) (s : Text)
    → is_digit d ≡ true
    → (read_from 0 (d ∷ s)).0 ≡ n
    → n < 2 ^ 63
    → int_at (skip_sign (d ∷ s)) ≡ some n
int_at-digit d n s h e k =
    let same : skip_sign (d ∷ s) ≡ d ∷ s = ground (arith, h) in
    let bound : min n llong_max ≡ n = omega (arith, k) in rw (same, h, e) (ap some bound)

is_digit-is_space : (d : ℕ) → is_digit d ≡ true → is_space d ≡ false
is_digit-is_space d h = ground (arith, h)

skip_ws-digit : (d : ℕ) (s : Text) → is_digit d ≡ true → skip_ws (d ∷ s) ≡ d ∷ s
unfolding skip_ws
skip_ws-digit d s h = rw (is_digit-is_space d h) refl

-- What `find_key_value` and `get_int` make of the text behind a colon.
abbrev value_of : Text → Option Text
value_of v = elim v [ [] ↦ none | d ∷ t ↦ some (d ∷ t) ]

abbrev value_int : Option (Option Text) → Option ℕ
value_int none = none
value_int (some v) = elim v [ none ↦ none | some t ↦ int_at (skip_sign t) ]

get_int-digit :
    (d : ℕ) (s : Text)
    → is_digit d ≡ true
    → get_int (codes "{\"seq\":" ++ d ∷ s) (codes "seq") ≡ int_at (skip_sign (d ∷ s))
unfolding get_int find_key_value find_after skip_ws
get_int-digit d s h = ap (λ (v : Text). value_int (some (value_of v))) (skip_ws-digit d s h)

get_int-numeral :
    (n : ℕ) (rest : Text)
    → n < 2 ^ 63
    → get_int (codes "{\"seq\":" ++ (to_string n ++ b',' ∷ rest)) (codes "seq") ≡ some n
get_int-numeral n rest h =
    let (d, t, k, e) = to_string-cons n in
    let value : (read_from 0 (d ∷ (t ++ b',' ∷ rest))).0 ≡ n =
      ap (λ (s : Text). (read_from 0 (s ++ b',' ∷ rest)).0) (sym e)
      ∙ ap (λ (p : ℕ × Text). p.0) (read_from-to_string n (b',' ∷ rest))
      ∙ stop n rest in
    ap (λ (s : Text). get_int (codes "{\"seq\":" ++ (s ++ b',' ∷ rest)) (codes "seq")) e
    ∙ get_int-digit d (t ++ b',' ∷ rest) k
    ∙ int_at-digit d n (t ++ b',' ∷ rest) k value h

-- The number that the bridge finds in a reply of the robot is the one that the robot put in, if
-- it has 16 bits.
pub get_int-cmd_result_json :
    (r : CmdResult) → r.seq < 2 ^ 16 → get_int (cmd_result_json r) (codes "seq") ≡ some r.seq
unfolding cmd_result_json
get_int-cmd_result_json r h = get_int-numeral r.seq _ (omega (arith, h))
