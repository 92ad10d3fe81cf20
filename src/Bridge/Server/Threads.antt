-- ===== src/Bridge/Server/Threads.antt =====
-- The server's threads together (bridge/src/tcp_server.cpp): any sequence of their passages, and the
-- start and the stop of the server. What the system calls return comes with the events.
pub mod Aside
pub mod Fifo
use bot_cock_pit.Prelude.{
  ℕ, Bool, true, false, not, ◌&&◌, ◌||◌, List, [], ◌∷◌, ◌++◌, Option, none, some, ◌==◌,
  if◌then◌else◌,
}
use bot_cock_pit.Text.{Text}
use bot_cock_pit.Bridge.Server.{
  on_recv, work, broadcast_state_delta, complete_async_ack, heartbeat_watchdog,
}
use bot_cock_pit.Bridge.Clients.{Server, is_open, on_accept, disconnect}

abbrev pub is_member : ℕ → List ℕ → Bool
is_member i [] = false
is_member i (j ∷ js) = i == j || is_member i js

-- What `start` returns, and the server after it, with what `socket`, `bind` and `listen` return.
unfoldable pub start : Bool → Bool → Bool → Server → Bool × Server
start has_socket bound listening s =
    if s.running
    then (true, s)
    else if not has_socket
    then (false, s)
    else if not bound
    then (false, s)
    else if not listening
    then (false, s)
    else (true, record s { running = true })

-- `stop`: every client is closed and forgotten. The queue is not emptied.
unfoldable pub stop : Server → Server
stop s = record s {
  running = false;
  store = λ i. let c = s.store i in if is_member i s.members then record c { fd = none } else c;
  members = [];
}

-- One passage of a thread, with the time and what the state provider returns.
pub data Event : Type 0 where
  accepted : ℕ → ℕ → ℕ → Event  -- the time, the descriptor and the new client
  received : ℕ → Text → ℕ → List ℕ → Event  -- the bytes of one `recv`
  closed : ℕ → Event  -- the end of a client's loop
  worker : Event
  delta : Text → Event
  async_ack : ℕ → Text → Event
  watchdog : ℕ → ℕ → Event  -- the time, and that of the last heartbeat sent
  started : Bool → Bool → Bool → Event
  stopped : Event

unfoldable pub step : Event → Server → Server
unfolding start stop
step (accepted now fd i) s = if s.running then on_accept now fd i s else s
step (received now state i bytes) s =
    if s.running && is_open (s.store i).fd then on_recv now state i bytes s else s
step (closed i) s = disconnect i s
step worker s = work s
step (delta state) s = broadcast_state_delta state s
step (async_ack seq ack) s = complete_async_ack seq ack s
step (watchdog now last_tx) s = (heartbeat_watchdog now last_tx s).1
step (started has_socket bound listening) s = (start has_socket bound listening s).1
step stopped s = stop s

unfoldable pub run : List Event → Server → Server
unfolding step
run [] s = s
run (e ∷ es) s = run es (step e s)
