-- ===== src/Ui/Connection/Sound.antt =====
-- What holds of the connection at all times (ui/botcockpit/src/connectioncontroller.cpp).
use bot_cock_pit.Prelude.{ℕ, ◌≡◌, ◌≤◌, true, false, none, some, Option}
use bot_cock_pit.Text.{Text}
use bot_cock_pit.Ui.Connection.{Connection}

-- The delay of the timer, or the least one when it is not active.
abbrev pub delay_of : Option ℕ → ℕ
delay_of none = 1000
delay_of (some ms) = ms

-- The console shows a connection only with a session behind it, waits one to ten seconds before it
-- tries again, and never tries again after the user has disconnected.
pub record IsSound (c : Connection) : Type 0 where
  pub session : c.connected ≡ true → c.hello_ok_session ≡ true
  pub settled : c.connected ≡ true → c.connecting ≡ false
  pub backoff_low : 1 ≤ c.backoff_s
  pub backoff_high : c.backoff_s ≤ 10
  pub delay_low : 1000 ≤ delay_of c.timer
  pub delay_high : delay_of c.timer ≤ 10000
  pub manual : c.manual_disconnect ≡ true → c.timer ≡ none
