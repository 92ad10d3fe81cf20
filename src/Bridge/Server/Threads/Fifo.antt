-- ===== src/Bridge/Server/Threads/Fifo.antt =====
-- The queue of commands under every order of the threads (bridge/src/tcp_server.cpp).
use bot_cock_pit.Prelude.{
  ℕ, ◌≡◌, refl, sym, ap, ◌∙◌, true, not, ◌&&◌, List, [], ◌∷◌, ◌++◌, map, arith, if◌then◌else◌,
  if-both, Bool-cases, inl, inr, append-nil, append_assoc,
}
use bot_cock_pit.Text.{Text}
use bot_cock_pit.Codec.{Frame, receive}
use bot_cock_pit.Bridge.Server.{
  is_estop, work, broadcast_state_delta, complete_async_ack, heartbeat_watchdog,
}
use bot_cock_pit.Bridge.Clients.{Server, CmdJob, is_open, on_accept, disconnect}
use bot_cock_pit.Bridge.Server.Batch.{filter}
use bot_cock_pit.Bridge.Server.Handle.{job_of, call_of, on_recv-Handles}
use bot_cock_pit.Bridge.Server.Order.{is_queued}
use bot_cock_pit.Bridge.Server.Threads.Aside.{
  front, IsAside, aside, send_to_all-IsAside, start-IsAside, work-IsWorked,
}
use bot_cock_pit.Bridge.Server.Threads.{
  stop, Event, accepted, received, closed, worker, delta, async_ack, watchdog, started, stopped,
  step, run,
}

-- The frames that an event brings in.
abbrev frames_in : Event → Server → List Frame
frames_in (received now state i bytes) s =
    if s.running && is_open (s.store i).fd then (receive (s.store i).decoder bytes).0 else []
frames_in _ s = []

abbrev client_of : Event → ℕ
client_of (received now state i bytes) = i
client_of _ = 0

abbrev jobs_in : Event → Server → List CmdJob
jobs_in e s = map (job_of (client_of e)) (filter is_queued (frames_in e s))

abbrev calls_in : Event → Server → List (Text × ℕ × Text)
calls_in e s = map call_of (filter is_estop (frames_in e s))

-- The job that the event takes off the queue.
abbrev taken_by : Event → Server → List CmdJob
taken_by worker s = front s.cmd_queue
taken_by _ s = []

-- The commands that arrive during a run, in order.
pub arrived : List Event → Server → List CmdJob
unfolding step filter
arrived [] s = []
arrived (e ∷ es) s = jobs_in e s ++ arrived es (step e s)

-- The stops that arrive during a run, in order.
pub stops : List Event → Server → List (Text × ℕ × Text)
unfolding step filter
stops [] s = []
stops (e ∷ es) s = calls_in e s ++ stops es (step e s)

-- The jobs that the worker takes during a run, in order.
pub taken : List Event → Server → List CmdJob
unfolding step
taken [] s = []
taken (e ∷ es) s = taken_by e s ++ taken es (step e s)

-- What one event does to the queue and to the urgent calls.
record IsOne (e : Event) (s t : Server) : Type 0 where
  queue : taken_by e s ++ t.cmd_queue ≡ s.cmd_queue ++ jobs_in e s
  calls : t.urgent_calls ≡ s.urgent_calls ++ calls_in e s
  handler : t.has_urgent_handler ≡ true

-- An event that brings no frame and takes no job.
IsAside-IsOne :
    (e : Event) {s t : Server}
    → taken_by e s ≡ []
    → frames_in e s ≡ []
    → s.has_urgent_handler ≡ true
    → IsAside s t
    → IsOne e s t
unfolding filter
IsAside-IsOne e {s} {t} none_taken none_in h a = record {
  queue = rw (none_taken, none_in) (a.queue ∙ sym (append-nil _));
  calls = rw none_in (a.calls ∙ sym (append-nil _));
  handler = a.handler ∙ h;
}

received-IsOne :
    (now : ℕ) (state : Text) (i : ℕ) (bytes : List ℕ) (s : Server)
    → s.has_urgent_handler ≡ true
    → IsOne (received now state i bytes) s (step (received now state i bytes) s)
unfolding step filter
received-IsOne now state i bytes s h = elim (Bool-cases (s.running && is_open (s.store i).fd)) [
  | inl e ↦
      let handled =
        on_recv-Handles now state i bytes s
          (record { connected = ground (arith, e); handler = h }) in
      record {
        queue = rw e handled.queue;
        calls = rw e handled.calls;
        handler = rw e handled.ready.handler;
      }
  | inr e ↦ record {
    queue = rw e (sym (append-nil _));
    calls = rw e (sym (append-nil _));
    handler = rw e h;
  }
]

worker-IsOne : (s : Server) → s.has_urgent_handler ≡ true → IsOne worker s (work s)
unfolding filter
worker-IsOne s h =
    let v = work-IsWorked s s.cmd_queue refl in
    record {
      queue = v.queue ∙ sym (append-nil _);
      calls = v.calls ∙ sym (append-nil _);
      handler = v.handler ∙ h;
    }

step-IsOne : (e : Event) (s : Server) → s.has_urgent_handler ≡ true → IsOne e s (step e s)
unfolding step
step-IsOne (received now state i bytes) s h = received-IsOne now state i bytes s h
step-IsOne worker s h = worker-IsOne s h
step-IsOne (accepted now fd i) s h =
    unfold on_accept in
    IsAside-IsOne (accepted now fd i) refl refl h (
      if-both (λ (t : Server). IsAside s t) s.running
        (record { queue = refl; calls = refl; handler = refl }) aside)
step-IsOne (closed i) s h =
    unfold disconnect in
    IsAside-IsOne (closed i) refl refl h (record { queue = refl; calls = refl; handler = refl })
step-IsOne (delta state) s h =
    unfold broadcast_state_delta in
    IsAside-IsOne (delta state) refl refl h (
      if-both (λ (t : Server). IsAside s t) (not s.running) aside
        (send_to_all-IsAside _ 0 _ s.members s))
step-IsOne (async_ack seq ack) s h =
    unfold complete_async_ack in
    IsAside-IsOne (async_ack seq ack) refl refl h (send_to_all-IsAside _ seq ack s.members s)
step-IsOne (watchdog now last_tx) s h =
    unfold heartbeat_watchdog in
    IsAside-IsOne (watchdog now last_tx) refl refl h
      (if-both (λ (t : Server). IsAside s t) _ (send_to_all-IsAside _ 0 _ s.members s) aside)
step-IsOne (started a b c) s h = IsAside-IsOne (started a b c) refl refl h (start-IsAside a b c s)
step-IsOne stopped s h =
    unfold stop in
    IsAside-IsOne stopped refl refl h (record { queue = refl; calls = refl; handler = refl })

-- From a server with its urgent handler, in every order of the threads' passages, with starts
-- and stops of the server among them: the jobs that the worker has taken and then those that
-- still wait are those that waited at the start and then the commands that arrived, in order;
-- and the urgent handler was called for just the stops that arrived, in order. A passage that
-- receives has its client connected, or nothing arrives.
pub run-fifo :
    (es : List Event) (s : Server)
    → s.has_urgent_handler ≡ true
    → (taken es s ++ (run es s).cmd_queue ≡ s.cmd_queue ++ arrived es s)
      × ((run es s).urgent_calls ≡ s.urgent_calls ++ stops es s)
unfolding run taken arrived stops
run-fifo [] s h = (sym (append-nil _), sym (append-nil _))
run-fifo (e ∷ es) s h =
    let one = step-IsOne e s h in
    let rest = run-fifo es (step e s) one.handler in
    (
      append_assoc (taken_by e s) _ _
          ∙ ap (λ q. taken_by e s ++ q) rest.0
          ∙ sym (append_assoc (taken_by e s) _ _)
          ∙ ap (λ q. q ++ arrived es (step e s)) one.queue
          ∙ append_assoc s.cmd_queue _ _,
      rest.1 ∙ ap (λ cs. cs ++ stops es (step e s)) one.calls ∙ append_assoc s.urgent_calls _ _,
    )
