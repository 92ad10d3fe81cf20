-- ===== src/Robot/Invariant/Tasks.antt =====
-- Safety and CMD_TASK (sim/src/fake_robot.cpp, on_cmd).
use bot_cock_pit.Prelude.{
  ◌≡◌, refl, true, arith, [], ℕ, if-intro, if-both, if◌then◌else◌, ◌&&◌, not,
}
use bot_cock_pit.Text.{Text, codes, text_eq, is_empty}
use bot_cock_pit.Nav.Map
use bot_cock_pit.Floats.{Floats}
use bot_cock_pit.Robot.{
  Robot, planning, accepted, nav_idle, running, active_estop, idle, unknown_task,
}
use bot_cock_pit.Robot.Control.{is_running, has_error_condition}
use bot_cock_pit.Robot.Command.Task.{
  accept, can_resume, resume_task, is_done, is_nil, reject, Planner, on_pause, on_cancel, on_resume,
  plan_failed, start_task, go_to,
}
use bot_cock_pit.Robot.Invariant.{
  IsSafe, recompute-IsSafe, publish_state-IsSafe, publish_cmd_result-IsSafe, accept-IsSafe,
  reject-IsSafe,
}
use bot_cock_pit.Robot.Invariant.Rules.{running-IsSafe, IsReady, publish_cmd_result-online}

module _ {F : Floats} (r : Robot F) where
  pub on_pause-IsSafe : (seq : ℕ) (task_id : Text) → IsSafe r → IsSafe (on_pause seq task_id r)
  unfolding on_pause
  on_pause-IsSafe seq task_id v = publish_state-IsSafe (
      if-both IsSafe (is_running r.phase)
        (accept-IsSafe seq (codes "CMD_TASK") r.task_id (
          recompute-IsSafe
            (record r { task_status = accepted; phase = idle; nav_status = nav_idle }) (λ e. cc)))
        (reject-IsSafe seq (codes "CMD_TASK") unknown_task task_id v))

  pub on_cancel-IsSafe : (seq : ℕ) → IsSafe r → IsSafe (on_cancel seq r)
  unfolding on_cancel
  on_cancel-IsSafe seq v =
      publish_state-IsSafe (accept-IsSafe seq _ [] (recompute-IsSafe _ (ground arith)))

  pub plan_failed-IsSafe :
      (seq : ℕ) (task_id : Text)
      → (r.phase ≡ running → r.console_online ≡ true)
      → IsSafe (plan_failed seq task_id r)
  unfolding plan_failed reject
  plan_failed-IsSafe seq task_id h =
      publish_state-IsSafe (recompute-IsSafe _ (publish_cmd_result-online _ _ h))

  pub start_task-IsSafe :
      (seq : ℕ) (task_id : Text) (x y : F.Double)
      → IsReady r
      → IsSafe (start_task seq task_id x y r)
  unfolding start_task has_error_condition
  start_task-IsSafe seq task_id x y h = publish_state-IsSafe (
      accept-IsSafe seq (codes "CMD_TASK") task_id
        (running-IsSafe _ refl h.free h.online refl h.sound))

  pub resume_task-IsSafe : IsSafe r → can_resume r ≡ true → IsSafe (resume_task r)
  unfolding resume_task can_resume has_error_condition
  resume_task-IsSafe v h = running-IsSafe _ refl (ground arith) (ground arith) refl (ground arith)

  pub on_resume-IsSafe : (seq : ℕ) (task_id : Text) → IsSafe r → IsSafe (on_resume seq task_id r)
  unfolding on_resume
  on_resume-IsSafe seq task_id v =
      let cmd = codes "CMD_TASK" in
      publish_state-IsSafe (
        if-intro IsSafe (can_resume r) {x = accept seq cmd r.task_id (resume_task r)}
          {y = reject seq cmd (if r.estop then active_estop else unknown_task) task_id r}
          (λ ready. accept-IsSafe seq cmd r.task_id (resume_task-IsSafe v ready))
          (λ _. reject-IsSafe seq cmd _ task_id v))

module _ {F : Floats} (plan : Planner F) (r : Robot F) where
  pub go_to-IsSafe :
      (seq : ℕ) (task_id : Text) (x y : F.Double)
      → IsSafe r
      → IsReady r
      → IsSafe (go_to plan seq task_id x y r)
  unfolding go_to has_error_condition
  go_to-IsSafe seq task_id x y v h =
      let nav_map = Map.inflate 1 (Map.make_corridor_demo F) in
      let path = plan nav_map (r.pose_x, r.pose_y) (x, y) in
      let s = record r { nav_map = nav_map; nav_status = planning; nav_path = path } in
      if-both IsSafe
        (not (is_empty r.task_id) && text_eq r.task_id task_id && is_done r.task_status)
        (publish_cmd_result-IsSafe _ v)
        (if-both IsSafe (is_nil path) (plan_failed-IsSafe s seq task_id v.running_online) (
          start_task-IsSafe s seq task_id x y
            (record { free = h.free; online = h.online; sound = h.sound })))
