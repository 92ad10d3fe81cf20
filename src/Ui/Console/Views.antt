-- ===== src/Ui/Console/Views.antt =====
-- A console as its decisions see it, and each slot of
-- ui/botcockpit/src/connectioncontroller.cpp as they see it.
use bot_cock_pit.Prelude.{
  ◌+◌, ◌≡◌, refl, ap, ◌∙◌, Bool, true, false, not, ◌||◌, ◌∷◌, map, none, some, if◌then◌else◌,
  Bool-cases, inl, inr, min, ◌*◌,
}
use bot_cock_pit.Int.{ℤ}
use bot_cock_pit.Text.{Text, codes}
use bot_cock_pit.Ui.Connection
use bot_cock_pit.Ui.Connection.{Connection, Signal}
use bot_cock_pit.Ui.Remote.{Variants}
use bot_cock_pit.Ui.Remote.Apply.{bool_in}
use bot_cock_pit.Ui.Remote.Control.{Control, control}
use bot_cock_pit.Ui.Remote.Slots.{append_log}
use bot_cock_pit.Ui.Console.Chains.{
  noted_off, closed, opened, called, turned_away, counted, retried, greeted,
}
use bot_cock_pit.Ui.Console.{
  Phrases, Order, start_worker, stop_worker, Console, connect_to_server, disconnect_from_server,
  send, schedule_reconnect, on_reconnect_timer, on_connected, on_disconnected, on_hello_ack,
  refused, welcomed, why_lost, lost, cannot_schedule, emit, on_error,
}

abbrev pub signal_of : {V : Variants} → Order V → Signal
signal_of (start_worker host port) = Connection.start_worker host port
signal_of stop_worker = Connection.stop_worker
signal_of _ = Connection.worker_command

abbrev pub view_as : {V : Variants} → Console V → Control → Connection
view_as c k = record {
  manual_disconnect = c.manual_disconnect;
  backoff_s = c.backoff_s;
  last_host = c.last_host;
  last_port = c.last_port;
  reconnect_pending = c.reconnect_pending;
  timer = c.timer;
  hello_ok_session = c.hello_ok_session;
  connected = k.connected;
  connecting = k.connecting;
  auto_reconnect = k.auto_reconnect;
  reconnect_attempts = k.attempts;
  signals = map signal_of c.orders;
}

-- A console as its decisions see it.
abbrev pub view : {V : Variants} → Console V → Connection
view c = view_as c (control c.state)

view-unless :
    {V : Variants} (b : Bool) (x y : Console V) {u w : Connection}
    → view x ≡ u
    → view y ≡ w
    → view (if not b then x else y) ≡ (if b then w else u)
view-unless true x y p q = q
view-unless false x y p q = p

view-if :
    {V : Variants} (b : Bool) (x y : Console V) {u w : Connection}
    → view x ≡ u
    → view y ≡ w
    → view (if b then x else y) ≡ (if b then u else w)
view-if true x y p q = p
view-if false x y p q = q

module _ {V : Variants} (words : Phrases V) (time : Text) where
  pub view-disconnect_from_server :
      (c : Console V)
      → view (disconnect_from_server words time c) ≡ Connection.disconnect_from_server (view c)
  unfolding disconnect_from_server Connection.disconnect_from_server
  view-disconnect_from_server c =
      ap (view_as (disconnect_from_server words time c)) (counted c.state time _ 0)

  pub view-on_error :
      (m : Text) (c : Console V) → view (on_error words time m c) ≡ Connection.on_error (view c)
  unfolding on_error Connection.on_error
  view-on_error m c = ap (view_as (on_error words time m c)) (noted_off c.state time _ m)

  pub view-on_connected :
      (c : Console V) → view (on_connected words time c) ≡ Connection.on_connected (view c)
  unfolding on_connected Connection.on_connected
  view-on_connected c = ap (view_as (on_connected words time c)) (opened c.state time _)

  pub view-connect_to_server :
      (host : Text) (port : ℤ) (c : Console V)
      → view (connect_to_server words time host port c)
        ≡ Connection.connect_to_server host port (view c)
  unfolding connect_to_server Connection.connect_to_server control
  view-connect_to_server host port c = view-if (c.state.connected || c.state.connecting) _ _ refl (
      ap
        (view_as (record c {
          manual_disconnect = false;
          backoff_s = 1;
          timer = none;
          last_host = host;
          last_port = port;
          orders = start_worker host port ∷ c.orders;
        }))
        (called c.state time _ host port))

  pub view-send :
      (line : Text) (o : Order V) (c : Console V)
      → signal_of o ≡ Connection.worker_command
      → view (send words time line o c) ≡ Connection.command (view c)
  unfolding Connection.command control append_log
  view-send line o c e =
      view-unless c.state.connected c
        (emit words time o (record c { state = append_log time line c.state })) refl
        (ap (λ (s : Signal). record (view c) { signals = s ∷ map signal_of c.orders }) e)

  pub view-schedule_reconnect :
      (why : Text) (c : Console V)
      → view (schedule_reconnect words time why c) ≡ Connection.schedule_reconnect (view c)
  unfolding schedule_reconnect Connection.schedule_reconnect control
  view-schedule_reconnect why c = view-if (cannot_schedule words time c) _ _ refl (
      ap
        (view_as (record c {
          reconnect_pending = true;
          backoff_s = min (c.backoff_s * 2) 10;
          timer = some (c.backoff_s * 1000);
        }))
        (counted c.state time _ (c.state.reconnect_attempts + 1)))

  pub view-on_reconnect_timer :
      (c : Console V)
      → view (on_reconnect_timer words time c) ≡ Connection.on_reconnect_timer (view c)
  unfolding on_reconnect_timer Connection.on_reconnect_timer control
  view-on_reconnect_timer c = view-if (c.manual_disconnect || c.state.connected) _ _ refl (
      ap
        (view_as (record c {
          reconnect_pending = false;
          timer = none;
          hello_ok_session = false;
          orders = start_worker c.last_host c.last_port ∷ c.orders;
        }))
        (retried c.state time))

  pub view-on_disconnected :
      (c : Console V) → view (on_disconnected words time c) ≡ Connection.on_disconnected (view c)
  unfolding on_disconnected Connection.on_disconnected
  view-on_disconnected c =
      view-schedule_reconnect (why_lost words time c) (lost words time c)
      ∙ ap (λ k. Connection.schedule_reconnect (view_as (record c { hello_ok_session = false }) k))
          (closed c.state time _)

  pub view-welcomed :
      (info : V.Map) (c : Console V)
      → view (welcomed words time info c) ≡ Connection.on_hello_ack true (view c)
  unfolding Connection.on_hello_ack
  view-welcomed info c = ap (view_as (welcomed words time info c)) (greeted c.state time _ _ _)

  pub view-refused :
      (info : V.Map) (c : Console V)
      → view (schedule_reconnect words time (codes "hello rejected") (refused words time info c))
        ≡ Connection.on_hello_ack false (view c)
  unfolding Connection.on_hello_ack
  view-refused info c =
      let off = record c {
        hello_ok_session = false;
        manual_disconnect = false;
        orders = stop_worker ∷ c.orders;
      } in
      view-schedule_reconnect (codes "hello rejected") (refused words time info c)
      ∙ ap (λ k. Connection.schedule_reconnect (view_as off k)) (turned_away c.state time _ _)

  pub view-on_hello_ack :
      (info : V.Map) (c : Console V)
      → view (on_hello_ack words time info c)
        ≡ Connection.on_hello_ack (bool_in V info (codes "ok")) (view c)
  unfolding on_hello_ack
  view-on_hello_ack info c = elim (Bool-cases (bool_in V info (codes "ok"))) [
    | inl e ↦ rw e (view-welcomed info c)
    | inr e ↦ rw e (view-refused info c)
  ]
