-- ===== src/Bridge/Server/Handle.antt =====
-- Handling the frames of one `recv` (bridge/src/tcp_server.cpp, client_loop, handle_frame and
-- enqueue_cmd).
use bot_cock_pit.Prelude.{
  ℕ, ◌≡◌, refl, sym, ap, ◌∙◌, Bool, true, false, not, List, [], ◌∷◌, ◌++◌, arith, ◌==◌, Bool-cases,
  inl, inr, ==-refl, map, append-nil, append_assoc, if-intro,
}
use bot_cock_pit.Text.{Text}
use bot_cock_pit.Codec.{Frame, receive}
use bot_cock_pit.Bridge.{msg_type_name, msg_hello, msg_heartbeat}
use bot_cock_pit.Bridge.Server.Batch.{filter, filter-yes, filter-no}
use bot_cock_pit.Bridge.Server.{
  estop_first, is_estop, handle_frame, enqueue_cmd, handle_batch, is_command, on_recv,
}
use bot_cock_pit.Bridge.Clients.{CmdJob, Server, is_open}
use bot_cock_pit.Bridge.Server.Same.{IsSame, same, on_hello-IsSame, on_heartbeat-IsSame}
use bot_cock_pit.Bridge.Server.Order.{is_queued, queued-first, stops-first}

abbrev pub job_of : ℕ → Frame → CmdJob
job_of i f = record {
  client = i;
  seq = f.seq;
  cmd_name = msg_type_name f.type;
  payload = f.payload;
  urgent = false;
}

abbrev pub call_of : Frame → Text × ℕ × Text
call_of f = (msg_type_name f.type, f.seq, f.payload)

-- A connected client of a server that handles stops at once.
pub record IsReady (i : ℕ) (s : Server) : Type 0 where
  pub connected : is_open (s.store i).fd ≡ true
  pub handler : s.has_urgent_handler ≡ true

-- The queue and the urgent calls of `t` are those of `s` and what `fs` add.
pub record Handles (i : ℕ) (fs : List Frame) (s t : Server) : Type 0 where
  pub queue : t.cmd_queue ≡ s.cmd_queue ++ map (job_of i) (filter is_queued fs)
  pub calls : t.urgent_calls ≡ s.urgent_calls ++ map call_of (filter is_estop fs)
  pub ready : IsReady i t

-- What one frame adds.
module _ (i : ℕ) (f : Frame) (s t : Server) (h : IsReady i t) where
  Handles-queued :
      is_queued f ≡ true
      → is_estop f ≡ false
      → t.cmd_queue ≡ s.cmd_queue ++ job_of i f ∷ []
      → t.urgent_calls ≡ s.urgent_calls
      → Handles i (f ∷ []) s t
  Handles-queued q e queue calls = record {
    queue = rw (filter-yes is_queued f q) queue;
    calls = rw (filter-no is_estop f e) (calls ∙ sym (append-nil _));
    ready = h;
  }

  Handles-urgent :
      is_queued f ≡ false
      → is_estop f ≡ true
      → t.cmd_queue ≡ s.cmd_queue
      → t.urgent_calls ≡ s.urgent_calls ++ call_of f ∷ []
      → Handles i (f ∷ []) s t
  Handles-urgent q e queue calls = record {
    queue = rw (filter-no is_queued f q) (queue ∙ sym (append-nil _));
    calls = rw (filter-yes is_estop f e) calls;
    ready = h;
  }

  Handles-other : is_queued f ≡ false → is_estop f ≡ false → IsSame i s t → Handles i (f ∷ []) s t
  Handles-other q e same = record {
    queue = rw (filter-no is_queued f q) (same.queue ∙ sym (append-nil _));
    calls = rw (filter-no is_estop f e) (same.calls ∙ sym (append-nil _));
    ready = h;
  }

is_queued-true : (f : Frame) → is_command f.type ≡ true → is_estop f ≡ false → is_queued f ≡ true
is_queued-true f k e = ground (arith, k, e)

is_queued-false : (f : Frame) → is_estop f ≡ true → is_queued f ≡ false
is_queued-false f e = ground (arith, e)

enqueue_cmd-Handles :
    (i : ℕ) (f : Frame) (s : Server)
    → IsReady i s
    → is_command f.type ≡ true
    → Handles i (f ∷ []) s (enqueue_cmd i f (msg_type_name f.type) s)
unfolding enqueue_cmd
enqueue_cmd-Handles i f s h k =
    let P = λ (t : Server). Handles i (f ∷ []) s t in
    if-intro P (not (is_estop f))
      (λ e.
        let other : is_estop f ≡ false = ground (arith, e) in
        Handles-queued i f s _ (record { connected = h.connected; handler = h.handler })
          (is_queued-true f k other) other
          (ap (λ (b : Bool). s.cmd_queue ++ record (job_of i f) { urgent = b } ∷ []) other) refl)
      (λ e.
        let stop : is_estop f ≡ true = ground (arith, e) in
        if-intro P s.has_urgent_handler
          (λ _.
            Handles-urgent i f s _ (record { connected = h.connected; handler = h.handler })
              (is_queued-false f stop) stop refl refl)
          (λ off. cc (off, h.handler)))

IsSame-Handles :
    (i : ℕ) (f : Frame) (s t : Server)
    → IsReady i s
    → is_command f.type ≡ false
    → IsSame i s t
    → Handles i (f ∷ []) s t
IsSame-Handles i f s t h k same =
    let ready : IsReady i t = record {
      connected = rw same.fd h.connected;
      handler = same.handler ∙ h.handler;
    } in
    let e : is_estop f ≡ false = ground (arith, k) in
    Handles-other i f s t ready (ground (arith, k)) e same

handle_frame-Handles :
    (now : ℕ) (state : Text) (i : ℕ) (f : Frame) (s : Server)
    → IsReady i s
    → Handles i (f ∷ []) s (handle_frame now state i f s)
unfolding handle_frame
handle_frame-Handles now state i f s h =
    let P = λ (t : Server). Handles i (f ∷ []) s t in
    if-intro P (f.type == msg_hello)
      (λ e. IsSame-Handles i f s _ h (ground arith) (on_hello-IsSame state i f s))
      (λ _.
        if-intro P (f.type == msg_heartbeat)
          (λ e. IsSame-Handles i f s _ h (ground arith) (on_heartbeat-IsSame now i f s))
          (λ _.
            if-intro P (is_command f.type) (λ k. enqueue_cmd-Handles i f s h k)
              (λ k. IsSame-Handles i f s s h k same)))

map-filter {ℓ κ} :
    {A : Type ℓ} {B : Type κ} (g : A → B) (p : A → Bool) (x : A) (xs : List A)
    → map g (filter p (x ∷ xs)) ≡ map g (filter p (x ∷ [])) ++ map g (filter p xs)
unfolding filter
map-filter g p x xs = elim (Bool-cases (p x)) [ inl e ↦ rw e refl | inr e ↦ rw e refl ]

Handles-then :
    {i : ℕ} {f : Frame} {fs : List Frame} {s t u : Server}
    → Handles i (f ∷ []) s t
    → Handles i fs t u
    → Handles i (f ∷ fs) s u
Handles-then {i} {f} {fs} {s} {t} {u} h k = record {
  queue =
      k.queue ∙ rw (h.queue, map-filter (job_of i) is_queued f fs) (append_assoc s.cmd_queue _ _);
  calls =
      k.calls ∙ rw (h.calls, map-filter call_of is_estop f fs) (append_assoc s.urgent_calls _ _);
  ready = k.ready;
}

handle_batch-Handles :
    (now : ℕ) (state : Text) (i : ℕ) (fs : List Frame) (s : Server)
    → IsReady i s
    → Handles i fs s (handle_batch now state i fs s)
unfolding handle_batch filter
handle_batch-Handles now state i [] s h = record {
  queue = sym (append-nil _);
  calls = sym (append-nil _);
  ready = h;
}
handle_batch-Handles now state i (f ∷ fs) s h =
    let one = handle_frame-Handles now state i f s h in
    rw one.ready.connected (Handles-then one (handle_batch-Handles now state i fs _ one.ready))

handle_batch-first :
    (now : ℕ) (state : Text) (i : ℕ) (batch : List Frame) (s : Server)
    → IsReady i s
    → Handles i batch s (handle_batch now state i (estop_first batch) s)
handle_batch-first now state i batch s h =
    let done = handle_batch-Handles now state i (estop_first batch) s h in
    record {
      queue =
          done.queue
          ∙ ap (λ (fs : List Frame). s.cmd_queue ++ map (job_of i) fs) (queued-first batch);
      calls =
          done.calls
          ∙ ap (λ (fs : List Frame). s.urgent_calls ++ map call_of fs) (stops-first batch);
      ready = done.ready;
    }

-- Let the client be connected and the server have an urgent handler. Of the frames that one recv
-- completes, each stop is passed to that handler, and each other command is put behind the
-- queue, both in the order of arrival; the client stays connected.
pub on_recv-Handles :
    (now : ℕ) (state : Text) (i : ℕ) (bytes : List ℕ) (s : Server)
    → IsReady i s
    → Handles i (receive (s.store i).decoder bytes).0 s (on_recv now state i bytes s)
unfolding on_recv
on_recv-Handles now state i bytes s h =
    let done =
      handle_batch-first now state i (receive (s.store i).decoder bytes).0 _
        (record { connected = rw (==-refl i) h.connected; handler = h.handler }) in
    record { queue = done.queue; calls = done.calls; ready = done.ready }
