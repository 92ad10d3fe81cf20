-- ===== src/Ui/Remote/Tests.antt =====
-- The console at a first state of the robot, with texts for Qt's variants.
use bot_cock_pit.Prelude.{◌≡◌, refl, true, List, [], ◌∷◌, take}
use bot_cock_pit.Text.{Text, codes, text_eq}
use bot_cock_pit.Ui.Remote.{
  initial, conn_changed, battery_changed, has_robot_state_changed, track_err_changed,
  nav_status_changed,
}
use bot_cock_pit.Ui.Remote.Pairs.{pairs}
use bot_cock_pit.Ui.Remote.Nav.{parse_xy}
use bot_cock_pit.Ui.Remote.Apply.{apply_state, robot_state}
use bot_cock_pit.Ui.Remote.Slots.{Call, log, state, failure, reset, run, ack_text}
use bot_cock_pit.Ui.Remote.Quiet.{lasting}
use bot_cock_pit.Ui.Remote.Log.{logged, run-logged}
use bot_cock_pit.Ui.Remote.Kept.{IsKept, flatten, run-IsKept}
use bot_cock_pit.Ui.Remote.Announced.{IsAnnounced, emitted_since, apply_state-IsAnnounced}

abbrev news : List (Text × Text)
news =
    (codes "conn", codes "ONLINE") ∷ (codes "battery", codes "90") ∷ (codes "nav", codes "{}") ∷ []

news_told :
    (apply_state pairs news (initial pairs)).signals
    ≡ conn_changed ∷ battery_changed ∷ has_robot_state_changed ∷ track_err_changed
      ∷ nav_status_changed ∷ []
unfolding apply_state initial robot_state parse_xy text_eq
news_told = refl

news_path : (apply_state pairs news (initial pairs)).nav_path ≡ (90, 90) ∷ []
unfolding apply_state initial robot_state parse_xy text_eq
news_path = refl

accepted :
    ack_text pairs true ((codes "cmd", codes "CMD_MODE") ∷ (codes "seq", codes "7") ∷ [])
    ≡ codes "CMD_MODE OK | seq=7"
unfolding text_eq
accepted = refl

-- A log line, a state with a path, and a reset.
abbrev calls : List (Call pairs)
calls = log (codes "10:00:00") (codes "hi") ∷ state news ∷ failure (codes "gone") ∷ reset ∷ []

apply_state-IsAnnounced_example :
    IsAnnounced
      (initial pairs)
      (apply_state pairs news (initial pairs))
      (emitted_since (initial pairs) (apply_state pairs news (initial pairs)))
apply_state-IsAnnounced_example = apply_state-IsAnnounced pairs news (initial pairs)

run-logged_example : (run calls (initial pairs)).log_lines ≡ take 80 (logged calls [])
unfolding initial
run-logged_example = run-logged calls (initial pairs) [] refl

first-IsKept : IsKept pairs (lasting (initial pairs))
unfolding initial flatten
first-IsKept = record {
  named = refl;
  path = record { same = refl; finite = tt };
  trail = record { same = refl; finite = tt };
}

run-IsKept_example : IsKept pairs (lasting (run calls (initial pairs)))
run-IsKept_example = run-IsKept calls (initial pairs) first-IsKept
