-- ===== src/Robot/Replies.antt =====
-- The answers on `botcockpit/cmd_result` (sim/src/fake_robot.cpp, on_cmd and
-- publish_cmd_result).
use bot_cock_pit.Prelude.{
  ℕ, ◌≡◌, ap, true, false, not, ◌&&◌, ◌||◌, List, [], ◌∷◌, arith, if-both, if-intro, Option-cases,
  inl, inr,
}
use mathlib.Core.Option
use bot_cock_pit.Text.{Text, codes, text_eq, is_empty}
use bot_cock_pit.Floats.{Floats}
use bot_cock_pit.Robot.{Robot, Output, state_json, cmd_result, CmdResult, Reason}
use bot_cock_pit.Robot.Extract.{extract_string, extract_bool}
use bot_cock_pit.Robot.Control.{
  any_fault, is_running, has_error_condition, recompute_phase_and_control, publish_state,
  publish_cmd_result, inject_fault, clear_faults,
}
use bot_cock_pit.Robot.Command.{
  is_blocking, is_auto, parse_mode, set_mode, on_estop, on_reset, on_mode, on_inject_fault,
  on_clear_fault, leave_fault, recover, dispatch, is_fault,
}
use bot_cock_pit.Robot.Command.Task.{
  Planner, accept, reject, blocked, in_world, is_done, is_nil, can_resume, on_pause, on_cancel,
  resume_task, on_resume, plan_failed, start_task, go_to, on_goto, on_task,
}

-- The numbers of the commands that have been answered, the newest first.
abbrev pub answered : List Output → List ℕ
answered [] = []
answered (state_json t ∷ os) = answered os
answered (cmd_result c ∷ os) = c.seq ∷ answered os

pub record Answered {F : Floats} (seqs : List ℕ) (r : Robot F) : Type 0 where
  pub topics : r.topics ≡ true
  pub replies : answered r.outbox ≡ seqs

module _ {F : Floats} {seqs : List ℕ} {r : Robot F} (h : Answered seqs r) where
  publish_state-Answered : Answered seqs (publish_state r)
  unfolding publish_state
  publish_state-Answered =
      if-both (λ (s : Robot F). Answered seqs s) r.topics
        (record { topics = h.topics; replies = h.replies }) h

  publish_cmd_result-Answered : (c : CmdResult) → Answered (c.seq ∷ seqs) (publish_cmd_result c r)
  unfolding publish_cmd_result
  publish_cmd_result-Answered c =
      if-intro (λ (s : Robot F). Answered (c.seq ∷ seqs) s) r.topics
        (λ _. record { topics = h.topics; replies = ap (◌∷◌ c.seq) h.replies })
        (λ off. cc (off, h.topics))

  recompute-Answered : Answered seqs (recompute_phase_and_control r)
  unfolding recompute_phase_and_control
  recompute-Answered = record { topics = ground arith; replies = ground arith }

  accept-Answered :
      (seq : ℕ) (cmd task_id : Text) → Answered (seq ∷ seqs) (accept seq cmd task_id r)
  unfolding accept
  accept-Answered seq cmd task_id = publish_cmd_result-Answered _

  reject-Answered :
      (seq : ℕ) (cmd : Text) (why : Reason) (task_id : Text)
      → Answered (seq ∷ seqs) (reject seq cmd why task_id r)
  unfolding reject
  reject-Answered seq cmd why task_id = publish_cmd_result-Answered _

module _ {F : Floats} {seqs : List ℕ} (r : Robot F) (h : Answered seqs r) (seq : ℕ) where
  abbrev P : Robot F → Type 0
  P s = Answered (seq ∷ seqs) s

  on_estop-Answered : P (on_estop seq r)
  unfolding on_estop
  on_estop-Answered =
      publish_state-Answered
        (accept-Answered (record { topics = h.topics; replies = h.replies }) seq _ [])

  recover-Answered : Answered seqs (recover r)
  unfolding recover clear_faults
  recover-Answered =
      let s = recompute-Answered (record { topics = h.topics; replies = h.replies }) in
      record { topics = s.topics; replies = s.replies }

  on_reset-Answered : (msg : Text) → P (on_reset seq msg r)
  unfolding on_reset
  on_reset-Answered msg =
      if-both P (Option.get_or (extract_bool msg (codes "confirm")) false)
        (if-both P (any_fault is_blocking r.faults)
          (publish_state-Answered (reject-Answered h seq _ _ _))
          (publish_state-Answered (accept-Answered recover-Answered seq _ _)))
        (reject-Answered h seq _ _ _)

  on_mode-Answered : (msg : Text) → P (on_mode seq msg r)
  unfolding on_mode set_mode
  on_mode-Answered msg = elim (Option-cases (extract_string msg (codes "mode"))) [
    | inl e ↦ rw (e, on_mode) (reject-Answered h seq _ _ [])
    | inr (text, e) ↦ elim (Option-cases (parse_mode text)) [
      | inl k ↦ rw (e, on_mode) (rw k (reject-Answered h seq _ _ []))
      | inr (mode, k) ↦
          rw (e, on_mode)
            (rw k (
              if-both P (is_auto mode && blocked r) (reject-Answered h seq _ _ []) (
                publish_state-Answered (
                  accept-Answered {r = record r { mode = mode }}
                    (record { topics = h.topics; replies = h.replies }) seq _ []))))
    ]
  ]

  on_inject_fault-Answered : (cmd msg : Text) → P (on_inject_fault seq cmd msg r)
  unfolding on_inject_fault inject_fault
  on_inject_fault-Answered cmd msg = publish_state-Answered (
      accept-Answered (recompute-Answered (record { topics = h.topics; replies = h.replies })) seq
        cmd [])

  leave_fault-Answered : (s : Robot F) → Answered seqs s → Answered seqs (leave_fault s)
  unfolding leave_fault
  leave_fault-Answered s k =
      if-both (λ (t : Robot F). Answered seqs t) (is_fault s.phase && not (has_error_condition s))
        (record { topics = k.topics; replies = k.replies }) k

  on_clear_fault-Answered : (cmd : Text) → P (on_clear_fault seq cmd r)
  unfolding on_clear_fault clear_faults
  on_clear_fault-Answered cmd =
      let s =
        leave_fault-Answered _
          (recompute-Answered (record { topics = h.topics; replies = h.replies })) in
      publish_state-Answered
        (accept-Answered (record { topics = s.topics; replies = s.replies }) seq cmd [])

  on_pause-Answered : (task_id : Text) → P (on_pause seq task_id r)
  unfolding on_pause
  on_pause-Answered task_id = publish_state-Answered (
      if-both P (is_running r.phase)
        (accept-Answered (recompute-Answered (record { topics = h.topics; replies = h.replies }))
          seq _ _)
        (reject-Answered h seq _ _ _))

  on_cancel-Answered : P (on_cancel seq r)
  unfolding on_cancel
  on_cancel-Answered = publish_state-Answered (
      accept-Answered (recompute-Answered (record { topics = h.topics; replies = h.replies })) seq _
        _)

  on_resume-Answered : (task_id : Text) → P (on_resume seq task_id r)
  unfolding on_resume resume_task
  on_resume-Answered task_id = publish_state-Answered (
      if-both P (can_resume r)
        (accept-Answered (record { topics = h.topics; replies = h.replies }) seq _ _)
        (reject-Answered h seq _ _ _))

  plan_failed-Answered : (task_id : Text) → P (plan_failed seq task_id r)
  unfolding plan_failed
  plan_failed-Answered task_id = publish_state-Answered (
      recompute-Answered
        (reject-Answered (record { topics = h.topics; replies = h.replies }) seq _ _ _))

  start_task-Answered : (task_id : Text) (x y : F.Double) → P (start_task seq task_id x y r)
  unfolding start_task
  start_task-Answered task_id x y =
      publish_state-Answered
        (accept-Answered (record { topics = h.topics; replies = h.replies }) seq _ _)

module _ {F : Floats} (plan : Planner F) {seqs : List ℕ} (r : Robot F) (h : Answered seqs r)
    (seq : ℕ) where
  abbrev Q : Robot F → Type 0
  Q s = Answered (seq ∷ seqs) s

  go_to-Answered : (task_id : Text) (x y : F.Double) → Q (go_to plan seq task_id x y r)
  unfolding go_to
  go_to-Answered task_id x y =
      if-both Q (not (is_empty r.task_id) && text_eq r.task_id task_id && is_done r.task_status)
        (publish_cmd_result-Answered h _)
        (if-both Q (is_nil _)
          (plan_failed-Answered _ (record { topics = h.topics; replies = h.replies }) seq task_id)
          (start_task-Answered _ (record { topics = h.topics; replies = h.replies }) seq task_id x
            y))

module _ {F : Floats} (plan : Planner F) {seqs : List ℕ} (r : Robot F) (h : Answered seqs r)
    (seq : ℕ) where
  on_goto-Answered : (task_id msg : Text) → Q plan r h seq (on_goto plan seq task_id msg r)
  unfolding on_goto
  on_goto-Answered task_id msg =
      if-both (Q plan r h seq) (is_running r.phase) (reject-Answered h seq _ _ _) (
        if-both (Q plan r h seq) (not (in_world F _ _)) (reject-Answered h seq _ _ _) (
          if-both (Q plan r h seq) (is_empty task_id)
            (go_to-Answered plan _ (record { topics = h.topics; replies = h.replies }) seq _ _ _)
            (go_to-Answered plan r h seq task_id _ _)))

  on_task-Answered : (msg : Text) → Q plan r h seq (on_task plan seq msg r)
  unfolding on_task
  on_task-Answered msg =
      let type = Option.get_or (extract_string msg (codes "type")) [] in
      let task_id = Option.get_or (extract_string msg (codes "task_id")) [] in
      let P = Q plan r h seq in
      if-both P (text_eq type (codes "pause")) (on_pause-Answered r h seq task_id) (
        if-both P (text_eq type (codes "cancel")) (on_cancel-Answered r h seq) (
          if-both P (blocked r) (reject-Answered h seq _ _ _) (
            if-both P (text_eq type (codes "goto")) (on_goto-Answered task_id msg) (
              if-both P (text_eq type (codes "resume")) (on_resume-Answered r h seq task_id)
                (reject-Answered h seq _ _ _)))))

  -- Every command to a robot that has its topics is answered once, accepted or not, under its
  -- own number, and no other answer is published.
  pub dispatch-Answered : (cmd msg : Text) → Answered (seq ∷ seqs) (dispatch plan cmd seq msg r)
  unfolding dispatch
  dispatch-Answered cmd msg =
      let is = λ (name : Text). text_eq cmd name in
      let P = Q plan r h seq in
      if-both P (is (codes "CMD_ESTART") || is (codes "CMD_ESTOP")) (on_estop-Answered r h seq) (
        if-both P (is (codes "CMD_RESET")) (on_reset-Answered r h seq msg) (
          if-both P (is (codes "CMD_MODE")) (on_mode-Answered r h seq msg) (
            if-both P (is (codes "CMD_TASK")) (on_task-Answered msg) (
              if-both P (is (codes "INJECT_FAULT") || is (codes "CMD_INJECT_FAULT"))
                (on_inject_fault-Answered r h seq cmd msg)
                (if-both P (is (codes "CLEAR_FAULT") || is (codes "CMD_CLEAR_FAULT"))
                  (on_clear_fault-Answered r h seq cmd) (reject-Answered h seq cmd _ []))))))
