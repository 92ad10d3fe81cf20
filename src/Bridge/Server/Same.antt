-- ===== src/Bridge/Server/Same.antt =====
-- What answering a handshake or a heartbeat keeps (bridge/src/tcp_server.cpp, handle_frame).
use bot_cock_pit.Prelude.{ℕ, ◌≡◌, refl, ◌∙◌, if-both, ==-refl}
use bot_cock_pit.Text.{Text}
use bot_cock_pit.Codec.{Frame}
use bot_cock_pit.Bridge.Server.{on_hello, on_heartbeat, accepts_proto}
use bot_cock_pit.Bridge.Clients.{Client, Server, send_frame, put, is_open}

-- What a step that is no command keeps.
pub record IsSame (i : ℕ) (s t : Server) : Type 0 where
  pub queue : t.cmd_queue ≡ s.cmd_queue
  pub calls : t.urgent_calls ≡ s.urgent_calls
  pub handler : t.has_urgent_handler ≡ s.has_urgent_handler
  pub fd : (t.store i).fd ≡ (s.store i).fd

pub same : {i : ℕ} {s : Server} → IsSame i s s
same = record { queue = refl; calls = refl; handler = refl; fd = refl }

then-IsSame : {i : ℕ} {s t u : Server} → IsSame i s t → IsSame i t u → IsSame i s u
then-IsSame h k = record {
  queue = k.queue ∙ h.queue;
  calls = k.calls ∙ h.calls;
  handler = k.handler ∙ h.handler;
  fd = k.fd ∙ h.fd;
}

put-IsSame : (i : ℕ) (c : Client) (s : Server) → c.fd ≡ (s.store i).fd → IsSame i s (put i c s)
put-IsSame i c s h = record { queue = refl; calls = refl; handler = refl; fd = rw (==-refl i) h }

send_frame-IsSame :
    (i type flags seq : ℕ) (payload : Text) (s : Server)
    → IsSame i s (send_frame i type flags seq payload s)
unfolding send_frame
send_frame-IsSame i type flags seq payload s =
    if-both (λ (t : Server). IsSame i s t) (is_open (s.store i).fd) (put-IsSame i _ s refl) same

pub on_hello-IsSame :
    (state : Text) (i : ℕ) (f : Frame) (s : Server) → IsSame i s (on_hello state i f s)
unfolding on_hello
on_hello-IsSame state i f s =
    if-both (λ (t : Server). IsSame i s t) (accepts_proto f.payload)
      (then-IsSame (send_frame-IsSame i _ _ _ _ s)
        (then-IsSame (put-IsSame i _ _ refl) (send_frame-IsSame i _ _ _ _ _)))
      (send_frame-IsSame i _ _ _ _ s)

pub on_heartbeat-IsSame : (now i : ℕ) (f : Frame) (s : Server) → IsSame i s (on_heartbeat now i f s)
unfolding on_heartbeat
on_heartbeat-IsSame now i f s = then-IsSame (put-IsSame i _ s refl) (send_frame-IsSame i _ _ _ _ _)
