-- ===== src/Ui/Remote/Quiet.antt =====
-- What the setters of the console's robot state leave alone (ui/botcockpit/src/robotstate.cpp).
use bot_cock_pit.Prelude.{◌≡◌, refl, ◌∙◌, Bool, true, false, List, if◌then◌else◌, ◌==◌}
use bot_cock_pit.Int.{ℤ}
use bot_cock_pit.Text.{Text, text_eq}
use bot_cock_pit.Ui.Remote.{Variants, Remote}
use bot_cock_pit.Ui.Remote.Slots.{
  Call, auto_reconnect, connecting, connected, attempts, rtt, log, hello_info, ack, state, failure,
  endpoint, reset, call, set_host, set_port, set_proto, set_server,
}

-- The log and what is kept of nav.
abbrev pub Lasting : Variants → Type 0
Lasting V =
    List Text
    × Text
    × List (V.Double × V.Double)
    × List V.Double
    × List (V.Double × V.Double)
    × List V.Double

abbrev pub lasting : {V : Variants} → Remote V → Lasting V
lasting r = (r.log_lines, r.nav_status, r.nav_path, r.nav_path_flat, r.nav_trail, r.nav_trail_flat)

module _ {V : Variants} where
  if-lasting :
      (b : Bool) (t u r : Remote V)
      → lasting t ≡ lasting r
      → lasting u ≡ lasting r
      → lasting (if b then t else u) ≡ lasting r
  if-lasting true t u r h k = h
  if-lasting false t u r h k = k

  host-lasting : (host : Text) (r : Remote V) → lasting (set_host host r) ≡ lasting r
  host-lasting host r = if-lasting (text_eq r.host host) _ _ r refl refl

  port-lasting : (port : ℤ) (r : Remote V) → lasting (set_port port r) ≡ lasting r
  port-lasting port r = if-lasting _ _ r r refl refl

  proto-lasting : (proto : Text) (r : Remote V) → lasting (set_proto proto r) ≡ lasting r
  proto-lasting proto r = if-lasting (text_eq r.proto proto) _ _ r refl refl

  server-lasting : (server : Text) (r : Remote V) → lasting (set_server server r) ≡ lasting r
  server-lasting server r = if-lasting (text_eq r.server server) _ _ r refl refl

  abbrev pub is_quiet : Call V → Bool
  is_quiet (log time line) = false
  is_quiet (state m) = false
  is_quiet reset = false
  is_quiet _ = true

  pub call-lasting :
      (c : Call V) (r : Remote V) → is_quiet c ≡ true → lasting (call c r) ≡ lasting r
  unfolding call
  call-lasting (auto_reconnect v) r h = if-lasting _ _ r r refl refl
  call-lasting (connecting v) r h = if-lasting _ _ r r refl refl
  call-lasting (connected v) r h = if-lasting _ _ r r refl refl
  call-lasting (attempts n) r h = if-lasting (r.reconnect_attempts == n) _ _ r refl refl
  call-lasting (rtt ms) r h = if-lasting _ _ r r refl refl
  call-lasting (log time line) r h = cc
  call-lasting (hello_info proto server) r h =
      server-lasting server (set_proto proto r) ∙ proto-lasting proto r
  call-lasting (ack m) r h = refl
  call-lasting (state m) r h = cc
  call-lasting (failure e) r h = if-lasting (text_eq r.error_string e) _ _ r refl refl
  call-lasting (endpoint host port) r h = port-lasting port (set_host host r) ∙ host-lasting host r
  call-lasting reset r h = cc
