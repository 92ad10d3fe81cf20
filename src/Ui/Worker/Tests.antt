-- ===== src/Ui/Worker/Tests.antt =====
-- A connected worker, with texts for JSON.
use bot_cock_pit.Prelude.{
  ℕ, ◌≡◌, refl, ap, Bool, true, false, List, [], ◌∷◌, Option, none, some, arith, if◌then◌else◌,
}
use mathlib.Core.Option
use bot_cock_pit.Text.{Text, codes, text_eq, text_eq_refl}
use bot_cock_pit.Ui.Worker.{Qt, Worker, connected}
use bot_cock_pit.Ui.Worker.Texts.{texts}
use bot_cock_pit.Ui.Worker.Receive.{on_cmd_ack, Event, run}
use bot_cock_pit.Ui.Worker.Sound.{IsNumbered, run-IsNumbered}
use bot_cock_pit.Ui.Worker.Sends.{Command, send, IsObject, IsPassedOn, on_cmd_ack-send}

abbrev fresh : Worker texts
fresh = record {
  socket = connected;
  hb_running = true;
  timeout_running = true;
  decoder = [];
  next_seq = 65535;
  hb_send_ts = [];
  pending_cmd_name = [];
  last_rx_ms = 7000;
  hello_sent = true;
  hello_ok = true;
  wire = [];
  signals = [];
}

fresh-IsNumbered : IsNumbered fresh
fresh-IsNumbered = record {
  seq_low = omega arith;
  seq_high = omega arith;
  hb_stopped = λ e. absurd (ground (arith, e));
  timeout_stopped = λ e. absurd (ground (arith, e));
}

-- A heartbeat whose number is the last, a stop, and a silence.
abbrev drill : List (ℕ × Event texts)
drill =
    (7500, Event.heartbeat_tick)
    ∷ (7600, Event.estop (codes "operator"))
    ∷ (20000, Event.timeout_tick)
    ∷ []

run-IsNumbered_example : IsNumbered (run drill fresh)
run-IsNumbered_example = run-IsNumbered drill fresh fresh-IsNumbered

-- Objects as lists of fields, the newest first.
abbrev Fields : Type 0
Fields = List (Text × Text)

field_at : Fields → Text → Option Text
field_at [] k = none
field_at ((j, v) ∷ o) k = let rest = field_at o k in if text_eq j k then some v else rest

abbrev is_some : Option Text → Bool
is_some none = false
is_some (some v) = true

abbrev field_objects : Qt
field_objects = record texts {
  Object = Fields;
  parse = λ bytes. [];
  contains = λ o k. is_some (field_at o k);
  value = λ o k. Option.get_or (field_at o k) [];
  insert = λ o k v. (k, v) ∷ o;
}

field_at_same : (o : Fields) (k v : Text) → field_at ((k, v) ∷ o) k ≡ some v
unfolding field_at
field_at_same o k v = rw (text_eq_refl k) refl

field_at_other :
    (o : Fields) (k j v : Text) → text_eq k j ≡ false → field_at ((k, v) ∷ o) j ≡ field_at o j
unfolding field_at
field_at_other o k j v h = rw h refl

field_objects-IsObject : IsObject field_objects
field_objects-IsObject = record {
  value_same = λ o k v. ap (λ f. Option.get_or f []) (field_at_same o k v);
  value_other = λ o k j v h. ap (λ f. Option.get_or f []) (field_at_other o k j v h);
  contains_other = λ o k j v h. ap is_some (field_at_other o k j v h);
}

abbrev on_fields : Worker field_objects
on_fields = record {
  socket = connected;
  hb_running = true;
  timeout_running = true;
  decoder = [];
  next_seq = 65535;
  hb_send_ts = [];
  pending_cmd_name = [];
  last_rx_ms = 7000;
  hello_sent = true;
  hello_ok = true;
  wire = [];
  signals = [];
}

on_fields-IsNumbered : IsNumbered on_fields
on_fields-IsNumbered = record {
  seq_low = omega arith;
  seq_high = omega arith;
  hb_stopped = λ e. absurd (ground (arith, e));
  timeout_stopped = λ e. absurd (ground (arith, e));
}

abbrev bare_ack : Fields
bare_ack = (codes "ok", codes "true") ∷ []

on_cmd_ack-send_example :
    IsPassedOn 65535
      (codes "CMD_ESTOP")
      bare_ack
      on_fields
      (on_cmd_ack 65535 bare_ack (send (Command.estop (codes "operator")) on_fields))
on_cmd_ack-send_example =
    on_cmd_ack-send (Command.estop (codes "operator")) bare_ack on_fields on_fields-IsNumbered refl
      field_objects-IsObject
