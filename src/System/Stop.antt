-- ===== src/System/Stop.antt =====
-- An emergency stop on its way from the console to the robot.
use bot_cock_pit.Prelude.{
  ℕ, ◌≡◌, ◌≢◌, ◌<◌, refl, sym, ap, ◌∙◌, true, List, [], ◌∷◌, ◌++◌, map, arith, All, append_assoc,
  append-nil, if◌then◌else◌, if-both, if-intro, Bool-cases, Option-cases, inl, inr, ◌||◌, false,
}
use bot_cock_pit.Text.{Text, codes, is_empty, text_eq}
use bot_cock_pit.Floats.{Floats}
use bot_cock_pit.Codec.{Frame, receive}
use bot_cock_pit.Robot.{Robot, CmdResult}
use bot_cock_pit.Robot.Extract.{extract_string, extract_seq}
use bot_cock_pit.Robot.Estop.{on_cmd-none, on_cmd-some}
use bot_cock_pit.Robot.Replies.{dispatch-Answered}
use bot_cock_pit.Robot.Control.{publish_state, publish_cmd_result}
use bot_cock_pit.Robot.Command.{on_cmd, on_estop, dispatch}
use bot_cock_pit.Robot.Command.Task.{Planner, accept}
use bot_cock_pit.Bridge.{msg_type_name, msg_cmd_estop}
use bot_cock_pit.Bridge.Server.{is_estop, on_recv}
use bot_cock_pit.Bridge.Server.Batch.{filter}
use bot_cock_pit.Bridge.Server.Handle.{IsReady, on_recv-Handles, call_of}
use bot_cock_pit.Bridge.Node.{Bridge, urgent_estop, publish_cmd_envelope, envelope, state_for_tcp}
use bot_cock_pit.Bridge.Node.Envelope.{IsBare, extract_string-envelope}
use bot_cock_pit.System.{System, pass_calls, hear, recv_through}

abbrev stop_name : Text
stop_name = codes "CMD_ESTOP"

bare : (c : ℕ) → 35 < c → c < 91 → IsBare c
bare c h k = (omega arith, omega arith, omega arith)

-- Capitals; the underscore lies behind them.
stop_name-IsBare : All IsBare stop_name
stop_name-IsBare = (
  bare 67 (omega arith) (omega arith),
  (
    bare 77 (omega arith) (omega arith),
    (
      bare 68 (omega arith) (omega arith),
      (
        (omega arith, omega arith, omega arith),
        (
          bare 69 (omega arith) (omega arith),
          (
            bare 83 (omega arith) (omega arith),
            (
              bare 84 (omega arith) (omega arith),
              (bare 79 (omega arith) (omega arith), (bare 80 (omega arith) (omega arith), tt)),
            ),
          ),
        ),
      ),
    ),
  ),
)

-- The message that the node publishes for a call of the urgent handler.
abbrev message_of : Text × ℕ × Text → Text
message_of c = envelope (if is_empty c.0 then stop_name else c.0) c.1 c.2

pass_calls-published :
    (cs : List (Text × ℕ × Text)) (b : Bridge)
    → (pass_calls cs b).published ≡ b.published ++ map message_of cs
unfolding pass_calls urgent_estop publish_cmd_envelope
pass_calls-published [] b = sym (append-nil _)
pass_calls-published (c ∷ cs) b =
    pass_calls-published cs (urgent_estop c.0 c.1 c.2 b)
    ∙ append_assoc b.published (message_of c ∷ []) (map message_of cs)

module _ {F : Floats} (plan : Planner F) where
  hear-append :
      (xs ys : List Text) (r : Robot F) → hear plan (xs ++ ys) r ≡ hear plan ys (hear plan xs r)
  unfolding hear
  hear-append [] ys r = refl
  hear-append (x ∷ xs) ys r = hear-append xs ys (if r.topics then on_cmd plan x r else r)

  -- A command leaves a robot its topics.
  on_cmd-topics : (msg : Text) (r : Robot F) → r.topics ≡ true → (on_cmd plan msg r).topics ≡ true
  on_cmd-topics msg r h = elim (Option-cases (extract_string msg (codes "cmd"))) [
    | inl e ↦ ap (λ (s : Robot F). s.topics) (on_cmd-none plan r msg e) ∙ h
    | inr (cmd, e) ↦
        ap (λ (s : Robot F). s.topics) (on_cmd-some plan r msg cmd e)
        ∙ (dispatch-Answered plan r (record { topics = h; replies = refl }) (extract_seq F msg) cmd
            msg).topics
  ]

  -- What a robot with its topics has heard, `P` says, if it holds once the first message is handled.
  hear-first :
      (P : Robot F → Type 0) (m : Text) (ms : List Text) (r : Robot F)
      → r.topics ≡ true
      → P (hear plan ms (on_cmd plan m r))
      → P (hear plan (m ∷ ms) r)
  unfolding hear
  hear-first P m ms r h k =
      if-intro (λ (s : Robot F). P (hear plan ms s)) r.topics (λ _. k) (λ off. cc (off, h))

  hear-topics : (ms : List Text) (r : Robot F) → r.topics ≡ true → (hear plan ms r).topics ≡ true
  unfolding hear
  hear-topics [] r h = h
  hear-topics (m ∷ ms) r h =
      hear-first (λ (s : Robot F). s.topics ≡ true) m ms r h
        (hear-topics ms _ (on_cmd-topics m r h))

  -- Without its topics it hears nothing.
  hear-deaf : (ms : List Text) (r : Robot F) → r.topics ≡ false → hear plan ms r ≡ r
  unfolding hear
  hear-deaf [] r h = refl
  hear-deaf (m ∷ ms) r h =
      if-intro (λ (s : Robot F). hear plan ms s ≡ r) r.topics (λ on. cc (on, h))
        (λ _. hear-deaf ms r h)

  publish_state-estop : (r : Robot F) → (publish_state r).estop ≡ r.estop
  unfolding publish_state
  publish_state-estop r = if-both (λ (s : Robot F). s.estop ≡ r.estop) r.topics refl refl

  publish_cmd_result-estop :
      (c : CmdResult) (r : Robot F) → (publish_cmd_result c r).estop ≡ r.estop
  unfolding publish_cmd_result
  publish_cmd_result-estop c r = if-both (λ (s : Robot F). s.estop ≡ r.estop) r.topics refl refl

  on_estop-stops : (seq : ℕ) (r : Robot F) → (on_estop seq r).estop ≡ true
  unfolding on_estop accept
  on_estop-stops seq r = publish_state-estop _ ∙ publish_cmd_result-estop _ _

  -- The robot stops at every message that names the command.
  on_cmd-stops :
      (seq : ℕ) (payload : Text) (r : Robot F)
      → (on_cmd plan (envelope stop_name seq payload) r).estop ≡ true
  unfolding dispatch text_eq on_cmd
  on_cmd-stops seq payload r =
      rw (extract_string-envelope stop_name seq payload stop_name-IsBare, on_cmd)
        (on_estop-stops _ r)

  stop-message :
      (f : Frame) → is_estop f ≡ true → message_of (call_of f) ≡ envelope stop_name f.seq f.payload
  unfolding msg_type_name
  stop-message f h = let type : f.type ≡ msg_cmd_estop = ground (arith, h) in rw type refl

  -- Stops, of which there is one at least, stop the robot.
  hear-stops :
      (f : Frame) (fs : List Frame) (r : Robot F)
      → r.topics ≡ true
      → All (λ (f : Frame). is_estop f ≡ true) (f ∷ fs)
      → (hear plan (map message_of (map call_of (f ∷ fs))) r).estop ≡ true
  unfolding hear
  hear-stops f [] r t (h, _) =
      hear-first (λ (s : Robot F). s.estop ≡ true) _ [] r t
        (rw (stop-message f h) (on_cmd-stops f.seq f.payload r))
  hear-stops f (f' ∷ fs) r t (h, hs) =
      let m = message_of (call_of f) in
      hear-first (λ (s : Robot F). s.estop ≡ true) m (map message_of (map call_of (f' ∷ fs))) r t
        (hear-stops f' fs (on_cmd plan m r) (on_cmd-topics m r t) hs)

filter-All : (fs : List Frame) → All (λ (f : Frame). is_estop f ≡ true) (filter is_estop fs)
unfolding filter
filter-All [] = tt
filter-All (f ∷ fs) = elim (Bool-cases (is_estop f)) [
  | inl e ↦ rw e (e, filter-All fs)
  | inr e ↦ rw e (filter-All fs)
]

module _ {F : Floats} (plan : Planner F) where
  hear-all_stops :
      (fs : List Frame) (r : Robot F)
      → r.topics ≡ true
      → All (λ (f : Frame). is_estop f ≡ true) fs
      → fs ≢ []
      → (hear plan (map message_of (map call_of fs)) r).estop ≡ true
  hear-all_stops [] r t h k = absurd (k refl)
  hear-all_stops (f ∷ fs) r t h k = hear-stops plan f fs r t h

  map-append {ℓ κ} :
      {A : Type ℓ} {B : Type κ} (g : A → B) (xs ys : List A)
      → map g (xs ++ ys) ≡ map g xs ++ map g ys
  map-append g [] ys = refl
  map-append g (x ∷ xs) ys = ap (◌∷◌ (g x)) (map-append g xs ys)

  -- The stops of one recv, behind whatever the robot hears before them.
  recv_through-told :
      (now i : ℕ) (bytes : List ℕ) (sys : System F)
      → IsReady i sys.server
      → (before : List Text) × ((recv_through plan now i bytes sys).robot
          ≡ hear plan
              (before
                ++ map message_of
                    (map call_of (filter is_estop (receive (sys.server.store i).decoder bytes).0)))
              sys.robot)
  unfolding recv_through
  recv_through-told now i bytes sys ready =
      let fs = filter is_estop (receive (sys.server.store i).decoder bytes).0 in
      let calls =
        (on_recv-Handles now (state_for_tcp now sys.node) i bytes sys.server ready).calls in
      let before = sys.node.published ++ map message_of sys.server.urgent_calls in
      let told : (pass_calls
            (on_recv now (state_for_tcp now sys.node) i bytes sys.server).urgent_calls
            sys.node).published
          ≡ before ++ map message_of (map call_of fs) =
        pass_calls-published _ sys.node
        ∙ ap (λ cs. sys.node.published ++ map message_of cs) calls
        ∙ ap (λ ms. sys.node.published ++ ms)
            (map-append message_of sys.server.urgent_calls (map call_of fs))
        ∙ sym (append_assoc sys.node.published _ _) in
      (before, ap (λ ms. hear plan ms sys.robot) told)

  -- If an emergency stop is among the frames that bytes from a connected client complete, and
  -- the server has its urgent handler, then, once the node has passed the server's urgent calls
  -- on and published them, the robot is stopped exactly if it has its topics or was stopped
  -- before; nothing that is published is lost.
  pub recv_through-stops :
      (now i : ℕ) (bytes : List ℕ) (sys : System F)
      → IsReady i sys.server
      → filter is_estop (receive (sys.server.store i).decoder bytes).0 ≢ []
      → (recv_through plan now i bytes sys).robot.estop ≡ (sys.robot.topics || sys.robot.estop)
  recv_through-stops now i bytes sys ready k =
      let fs = filter is_estop (receive (sys.server.store i).decoder bytes).0 in
      let (before, told) = recv_through-told now i bytes sys ready in
      ap (λ (r : Robot F). r.estop) told ∙ elim (Bool-cases sys.robot.topics) [
        | inl on ↦
            ap (λ (r : Robot F). r.estop) (hear-append plan before _ sys.robot)
            ∙ hear-all_stops fs (hear plan before sys.robot) (hear-topics plan before sys.robot on)
                (filter-All _) k
            ∙ sym (ap (λ b. b || sys.robot.estop) on)
        | inr off ↦
            ap (λ (r : Robot F). r.estop) (hear-deaf plan _ sys.robot off)
            ∙ sym (ap (λ b. b || sys.robot.estop) off)
      ]
