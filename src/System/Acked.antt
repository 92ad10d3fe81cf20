-- ===== src/System/Acked.antt =====
-- A queued command on its way to the robot, and the answer on its way back.
use bot_cock_pit.Prelude.{
  ℕ, ◌^◌, ◌<◌, ◌≡◌, refl, sym, ap, subst, ◌∙◌, true, false, ◌&&◌, List, [], ◌∷◌, ◌++◌, some, none,
  All, if-both, if-intro, ==-refl,
}
use bot_cock_pit.Text.{Text, codes, text_eq}
use bot_cock_pit.Floats.{Floats}
use bot_cock_pit.Codec.{encode_frame}
use bot_cock_pit.Robot.{CmdResult, Robot}
use bot_cock_pit.Robot.Extract.{extract_seq}
use bot_cock_pit.Robot.Message.{cmd_result_json}
use bot_cock_pit.Robot.Command.{on_cmd, dispatch}
use bot_cock_pit.Robot.Command.Task.{Planner}
use bot_cock_pit.Robot.Replies.{answered, dispatch-Answered}
use bot_cock_pit.Bridge.{msg_cmd_ack}
use bot_cock_pit.Bridge.Server.{work, answer}
use bot_cock_pit.Bridge.Clients.{CmdJob, Handler, Server, is_open, send_frame}
use bot_cock_pit.Bridge.Node.{
  Bridge, envelope, find, handle_command, publish_cmd_envelope, robot_state_fresh, is_motion,
  state_estop, assign,
}
use bot_cock_pit.Bridge.Node.Envelope.{IsBare, extract_string-envelope}
use bot_cock_pit.Bridge.Node.Pending.{
  IsWaiting, IsAnswered, idle_rounds, wait_cmd_result_delayed, wait_cmd_result-find, find-assign,
}
use bot_cock_pit.System.{System, hear}
use bot_cock_pit.System.Answers.{ReadsSeq, extract_seq-envelope, results, IsReply, deliver-IsReply}
use bot_cock_pit.System.Work.{deliver, answer_round, handled, pass_job, work_through}

-- The worker sends what the handler returns.
work-acks :
    (s : Server) (job : CmdJob) (jobs : List CmdJob) (handler : Handler)
    → s.cmd_queue ≡ job ∷ jobs
    → is_open (s.store job.client).fd ≡ true
    → (s.store job.client).hello_ok ≡ true
    → s.cmd_handler ≡ some handler
    → ((work s).store job.client).wire
      ≡ (s.store job.client).wire
        ++ encode_frame msg_cmd_ack 0 job.seq (handler job.cmd_name job.seq job.payload)
unfolding work answer send_frame
work-acks s job jobs handler q e k h =
    rw (q, work) (rw (e, k, h, answer) (rw (==-refl job.client) refl))

-- A command at the head of the queue that nothing turns away.
pub record IsServing {F : Floats} (now : ℕ) (job : CmdJob) (jobs : List CmdJob) (sys : System F)
    : Type 0 where
  pub queued : sys.server.cmd_queue ≡ job ∷ jobs
  pub connected : is_open (sys.server.store job.client).fd ≡ true
  pub greeted : (sys.server.store job.client).hello_ok ≡ true
  pub fresh : robot_state_fresh now sys.node ≡ true
  pub calm : sys.node.estop_raised ≡ false
  pub no_stop : sys.node.async_estop_seq_valid ≡ false
  pub passed : sys.node.published ≡ []
  pub heard : sys.robot.outbox ≡ []
  pub topics : sys.robot.topics ≡ true
  pub number : job.seq < 2 ^ 16
  pub bare : All IsBare job.cmd_name
  pub no_estop : text_eq job.cmd_name (codes "CMD_ESTOP") ≡ false
  pub allowed : (is_motion job.cmd_name job.payload && state_estop sys.node) ≡ false

module _ {F : Floats} (plan : Planner F) (now k : ℕ) (job : CmdJob) (jobs : List CmdJob)
    (sys : System F) (reads : ReadsSeq F) (v : IsServing now job jobs sys) where
  abbrev message : Text
  message = envelope job.cmd_name job.seq job.payload

  -- The robot answers the message once.
  on_cmd-answered : answered (on_cmd plan message sys.robot).outbox ≡ job.seq ∷ []
  unfolding on_cmd
  on_cmd-answered =
      let seq = extract_seq F message in
      let once : answered (dispatch plan job.cmd_name seq message sys.robot).outbox ≡ seq ∷ [] =
        (dispatch-Answered plan sys.robot
          (record { topics = v.topics; replies = ap answered v.heard }) seq job.cmd_name
          message).replies in
      rw (extract_string-envelope job.cmd_name job.seq job.payload v.bare, on_cmd) once
      ∙ ap (λ (n : ℕ). n ∷ [])
          (extract_seq-envelope F job.cmd_name job.payload job.seq reads v.number)

  -- The node as it waits for the answer.
  abbrev asking : Bridge
  asking = publish_cmd_envelope job.cmd_name job.seq job.payload (record sys.node {
    pending = assign job.seq (record { done = false; ack_json = [] }) sys.node.pending;
  })

  asking-IsWaiting : IsWaiting job.seq asking
  unfolding publish_cmd_envelope
  asking-IsWaiting = record {
    calm = v.calm;
    no_stop = v.no_stop;
    entry = find-assign job.seq _ sys.node.pending;
  }

  asking-heard :
      (hear plan asking.published sys.robot).outbox ≡ (on_cmd plan message sys.robot).outbox
  unfolding hear publish_cmd_envelope
  asking-heard =
      ap (λ ms. (hear plan (ms ++ message ∷ []) sys.robot).outbox) v.passed
      ∙ if-intro (λ (s : Robot F). s.outbox ≡ (on_cmd plan message sys.robot).outbox)
          sys.robot.topics (λ _. refl) (λ off. cc (off, v.topics))

  reply : (c : CmdResult) × IsReply now job.seq (on_cmd plan message sys.robot).outbox asking c
  reply =
      deliver-IsReply now job.seq (on_cmd plan message sys.robot).outbox asking v.number
        on_cmd-answered asking-IsWaiting

  handled-reply :
      (handled plan now k sys job.cmd_name job.seq job.payload).0 ≡ cmd_result_json reply.0
  unfolding handle_command
  handled-reply =
      let told =
        subst (λ os. IsAnswered job.seq (cmd_result_json reply.0) (deliver now os asking))
          (sym asking-heard) reply.1.told in
      rw (v.no_estop, v.fresh, v.allowed)
        (wait_cmd_result_delayed k [] (answer_round plan now k sys.robot) job.seq job.cmd_name
          (cmd_result_json reply.0) asking asking-IsWaiting told)

  abbrev serving : Server
  serving = record sys.server {
    cmd_handler = some (λ name seq payload. (handled plan now k sys name seq payload).0);
  }

  work_through-server : (work_through plan now k sys).server ≡ work serving
  unfolding work_through pass_job
  work_through-server =
      ap (λ q. (pass_job plan now k q (work serving) sys).server) v.queued
      ∙ if-both (λ (t : System F). t.server ≡ work serving)
          (is_open (sys.server.store job.client).fd && (sys.server.store job.client).hello_ok) refl
          refl

  work_through-node :
      (work_through plan now k sys).node
      ≡ record (handled plan now k sys job.cmd_name job.seq job.payload).1 { published = [] }
  unfolding work_through pass_job
  work_through-node =
      ap (λ q. (pass_job plan now k q (work serving) sys).node) v.queued
      ∙ rw (v.connected, v.greeted) refl

  handled-find :
      find job.seq (handled plan now k sys job.cmd_name job.seq job.payload).1.pending ≡ none
  unfolding handle_command
  handled-find =
      rw (v.no_estop, v.fresh, v.allowed)
        (wait_cmd_result-find (idle_rounds k (answer_round plan now k sys.robot ∷ [])) job.seq
          job.cmd_name asking)

  -- A command at the head of the queue, of a connected client that has shaken hands, while the
  -- robot's state is fresh, no emergency stop is on its way and the node does not turn the
  -- command away: the robot answers it once, and that answer, which has the command's number, is
  -- what the worker sends to the client as the acknowledgement, after any number of idle rounds;
  -- the command is not pending afterwards. The command is not CMD_ESTOP, no byte of its name
  -- needs an escape, its number has 16 bits, the robot has its topics, nothing older is
  -- undelivered, and strtod reads numbers.
  pub work_through-acks :
      (c : CmdResult) × (results (on_cmd plan message sys.robot).outbox ≡ c ∷ [])
      × (c.seq ≡ job.seq)
      × (((work_through plan now k sys).server.store job.client).wire
          ≡ (sys.server.store job.client).wire
            ++ encode_frame msg_cmd_ack 0 job.seq (cmd_result_json c))
      × (find job.seq (work_through plan now k sys).node.pending ≡ none)
  work_through-acks = (
    reply.0,
    reply.1.only,
    reply.1.own,
    ap (λ (s : Server). (s.store job.client).wire) work_through-server
        ∙ work-acks serving job jobs _ v.queued v.connected v.greeted refl
        ∙ ap (λ t. (sys.server.store job.client).wire ++ encode_frame msg_cmd_ack 0 job.seq t)
            handled-reply,
    ap (λ (b : Bridge). find job.seq b.pending) work_through-node ∙ handled-find,
  )
