-- ===== src/System/Answers.antt =====
-- What the node makes of the robot's answers (bridge/src/bridge_node.cpp, on_robot_state and
-- on_cmd_result), and the robot of a number (sim/src/fake_robot.cpp, extract_seq).
use bot_cock_pit.Prelude.{
  ℕ, ◌^◌, ◌<◌, ◌≡◌, refl, sym, ap, ◌∙◌, true, List, [], ◌∷◌, ◌++◌, Option, some, none, arith,
}
use mathlib.Core.Option
use bot_cock_pit.Text.{Text, find_after}
use bot_cock_pit.Text.Decimal.{to_string, to_string-cons, is_digit}
use bot_cock_pit.Floats.{Floats}
use bot_cock_pit.Robot.{Output, state_json, cmd_result, CmdResult}
use bot_cock_pit.Robot.Extract.{extract_seq, field_value, skip_blanks, number_at, assigned, seq_of}
use bot_cock_pit.Robot.Message.{cmd_result_json}
use bot_cock_pit.Robot.Replies.{answered}
use bot_cock_pit.Bridge.Node.{Bridge, envelope, on_robot_state}
use bot_cock_pit.Bridge.Node.Envelope.{get_int-cmd_result_json}
use bot_cock_pit.Bridge.Node.Pending.{IsWaiting, IsAnswered, on_cmd_result-IsAnswered}
use bot_cock_pit.System.Work.{deliver}

-- `strtod` and the conversion to 16 bits read a number of 16 bits in front of a comma.
pub record ReadsSeq (F : Floats) : Type 0 where
  pub reads :
      (n : ℕ) (rest : Text)
      → n < 2 ^ 16
      → Option.map F.to_u16 (F.strtod (to_string n ++ b',' ∷ rest)) ≡ some n

skip_blanks-digit : (d : ℕ) (s : Text) → is_digit d ≡ true → skip_blanks (d ∷ s) ≡ d ∷ s
unfolding skip_blanks
skip_blanks-digit d s h = ground (arith, h)

module _ (F : Floats) where
  u16_of :
      (o : Option F.Double) (n : ℕ) → Option.map F.to_u16 o ≡ some n → seq_of F (assigned F o) ≡ n
  u16_of none n h = ground (arith, h)
  u16_of (some v) n h = ground (arith, h)

  abbrev seq_at : Text → ℕ
  seq_at v = seq_of F (number_at F v (F.lit 0 1))

  seq_at-numeral :
      (n : ℕ) (rest : Text)
      → ReadsSeq F
      → n < 2 ^ 16
      → seq_at (skip_blanks (to_string n ++ b',' ∷ rest)) ≡ n
  seq_at-numeral n rest r h =
      let (d, t, k, e) = to_string-cons n in
      let s = t ++ b',' ∷ rest in
      let same : skip_blanks (to_string n ++ b',' ∷ rest) ≡ d ∷ s =
        ap (λ (v : Text). skip_blanks (v ++ b',' ∷ rest)) e ∙ skip_blanks-digit d s k in
      ap seq_at same
      ∙ u16_of (F.strtod (d ∷ s)) n (
          ap (λ (v : Text). Option.map F.to_u16 (F.strtod (v ++ b',' ∷ rest))) (sym e)
          ∙ r.reads n rest h)

  pub extract_seq-envelope :
      (cmd_name payload : Text) (n : ℕ)
      → ReadsSeq F
      → n < 2 ^ 16
      → extract_seq F (envelope cmd_name n payload) ≡ n
  unfolding extract_seq field_value find_after envelope
  extract_seq-envelope cmd_name payload n r h = seq_at-numeral n _ r h

-- The results among the outputs.
abbrev pub results : List Output → List CmdResult
results [] = []
results (state_json t ∷ os) = results os
results (cmd_result c ∷ os) = c ∷ results os

-- States do not disturb what waits.
deliver-IsWaiting :
    (now seq : ℕ) (os : List Output) (b : Bridge)
    → answered os ≡ []
    → IsWaiting seq b
    → IsWaiting seq (deliver now os b)
unfolding deliver on_robot_state
deliver-IsWaiting now seq [] b e w = w
deliver-IsWaiting now seq (state_json t ∷ os) b e w =
    let v = deliver-IsWaiting now seq os b e w in
    record { calm = v.calm; no_stop = v.no_stop; entry = v.entry }
deliver-IsWaiting now seq (cmd_result c ∷ os) b e w = cc

results-none : (os : List Output) → answered os ≡ [] → results os ≡ []
results-none [] e = refl
results-none (state_json t ∷ os) e = results-none os e
results-none (cmd_result c ∷ os) e = cc

-- Outputs with one result, that of the command.
pub record IsReply (now seq : ℕ) (os : List Output) (b : Bridge) (c : CmdResult) : Type 0 where
  pub only : results os ≡ c ∷ []
  pub own : c.seq ≡ seq
  pub told : IsAnswered seq (cmd_result_json c) (deliver now os b)

pub deliver-IsReply :
    (now seq : ℕ) (os : List Output) (b : Bridge)
    → seq < 2 ^ 16
    → answered os ≡ seq ∷ []
    → IsWaiting seq b
    → (c : CmdResult) × IsReply now seq os b c
unfolding deliver on_robot_state
deliver-IsReply now seq [] b h e w = cc
deliver-IsReply now seq (state_json t ∷ os) b h e w =
    let (c, v) = deliver-IsReply now seq os b h e w in
    (
      c,
      record {
        only = v.only;
        own = v.own;
        told = record { calm = v.told.calm; entry = v.told.entry };
      },
    )
deliver-IsReply now seq (cmd_result c ∷ os) b h e w =
    let own : c.seq ≡ seq = ground (arith, e) in
    let none_else : answered os ≡ [] = ground (arith, e) in
    (
      c,
      record {
        only = ap (◌∷◌ c) (results-none os none_else);
        own = own;
        told =
            on_cmd_result-IsAnswered seq c.seq (cmd_result_json c) (deliver now os b)
              (deliver-IsWaiting now seq os b none_else w)
              (get_int-cmd_result_json c (omega (arith, h, own))) (omega (arith, h, own));
      },
    )
