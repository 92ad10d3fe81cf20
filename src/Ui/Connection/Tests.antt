-- ===== src/Ui/Connection/Tests.antt =====
-- The connection over a session that is lost and taken up again.
use bot_cock_pit.Prelude.{List, [], ◌∷◌, true}
use bot_cock_pit.Int.{pos}
use bot_cock_pit.Text.{codes}
use bot_cock_pit.Ui.Connection.{
  Event, connect, worker_connected, worker_disconnected, hello_ack, timer_fired,
}

abbrev lost : List Event
lost =
    connect (codes "robot") (pos 8765)
    ∷ worker_connected
    ∷ hello_ack true
    ∷ worker_disconnected
    ∷ timer_fired
    ∷ worker_disconnected
    ∷ []
