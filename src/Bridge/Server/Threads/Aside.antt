-- ===== src/Bridge/Server/Threads/Aside.antt =====
-- What the server's threads do to the queue and to the urgent calls (bridge/src/tcp_server.cpp).
use bot_cock_pit.Prelude.{
  ℕ, ◌≡◌, refl, ap, ◌∙◌, Bool, not, ◌&&◌, List, [], ◌∷◌, ◌++◌, if◌then◌else◌, if-both,
}
use bot_cock_pit.Text.{Text}
use bot_cock_pit.Bridge.{msg_cmd_ack}
use bot_cock_pit.Bridge.Server.{work, answer}
use bot_cock_pit.Bridge.Clients.{Server, CmdJob, is_open, send_frame, send_to_all}
use bot_cock_pit.Bridge.Server.Threads.{start}

abbrev pub front : List CmdJob → List CmdJob
front [] = []
front (job ∷ jobs) = job ∷ []

-- A step that leaves these alone.
pub record IsAside (s t : Server) : Type 0 where
  pub queue : t.cmd_queue ≡ s.cmd_queue
  pub calls : t.urgent_calls ≡ s.urgent_calls
  pub handler : t.has_urgent_handler ≡ s.has_urgent_handler

pub aside : {s : Server} → IsAside s s
aside = record { queue = refl; calls = refl; handler = refl }

then-IsAside : {s t u : Server} → IsAside s t → IsAside t u → IsAside s u
then-IsAside h k = record {
  queue = k.queue ∙ h.queue;
  calls = k.calls ∙ h.calls;
  handler = k.handler ∙ h.handler;
}

send_frame-IsAside :
    (i type flags seq : ℕ) (payload : Text) (s : Server)
    → IsAside s (send_frame i type flags seq payload s)
unfolding send_frame
send_frame-IsAside i type flags seq payload s =
    if-both (λ (t : Server). IsAside s t) (is_open (s.store i).fd)
      (record { queue = refl; calls = refl; handler = refl }) aside

pub send_to_all-IsAside :
    (type seq : ℕ) (body : Text) (is : List ℕ) (s : Server)
    → IsAside s (send_to_all type seq body is s)
unfolding send_to_all
send_to_all-IsAside type seq body [] s = aside
send_to_all-IsAside type seq body (i ∷ is) s =
    let c = s.store i in
    then-IsAside
      (if-both (λ (t : Server). IsAside s t) (c.hello_ok && is_open c.fd)
        (send_frame-IsAside i type 0 seq body s) aside)
      (send_to_all-IsAside type seq body is _)

pub start-IsAside : (a b c : Bool) (s : Server) → IsAside s (start a b c s).1
unfolding start
start-IsAside a b c s =
    let P = λ (r : Bool × Server). IsAside s r.1 in
    if-both P s.running aside (
      if-both P (not a) aside (
        if-both P (not b) aside
          (if-both P (not c) aside (record { queue = refl; calls = refl; handler = refl }))))

-- The worker takes the first job, if there is one.
pub record IsWorked (q : List CmdJob) (s t : Server) : Type 0 where
  pub queue : front q ++ t.cmd_queue ≡ q
  pub calls : t.urgent_calls ≡ s.urgent_calls
  pub handler : t.has_urgent_handler ≡ s.has_urgent_handler

pub work-IsWorked : (s : Server) (q : List CmdJob) → s.cmd_queue ≡ q → IsWorked q s (work s)
unfolding work
work-IsWorked s [] e = rw (e, work) (record { queue = e; calls = refl; handler = refl })
work-IsWorked s (job ∷ jobs) e =
    let t = record s { cmd_queue = jobs } in
    rw (e, work)
      (let v : IsAside t (
            if is_open (s.store job.client).fd
            then send_frame job.client msg_cmd_ack 0 job.seq (answer t job) t
            else t) =
          if-both (λ (u : Server). IsAside t u) (is_open (s.store job.client).fd)
            (send_frame-IsAside job.client msg_cmd_ack 0 job.seq (answer t job) t) aside in
        record { queue = ap (◌∷◌ job) v.queue; calls = v.calls; handler = v.handler })
