-- ===== src/Robot/Command/Task.antt =====
-- CMD_TASK (sim/src/fake_robot.cpp, on_cmd): pause, cancel, goto and resume.
use bot_cock_pit.Prelude.{
  ℕ, ◌+◌, Bool, true, false, not, ◌&&◌, ◌||◌, List, [], ◌∷◌, ◌++◌, if◌then◌else◌,
}
use mathlib.Core.Option
use bot_cock_pit.Text.{Text, codes, text_eq, is_empty}
use bot_cock_pit.Text.Decimal.{to_string}
use bot_cock_pit.Floats.{Floats}
use bot_cock_pit.Nav.Map.{GridMap, Point}
use bot_cock_pit.Nav.Map
use bot_cock_pit.Robot.{
  Robot, Phase, idle, running, degraded, fault, TaskStatus, nothing, accepted, executing, done,
  TaskType, no_type, goto, nav_idle, planning, tracking, nav_failed, error_level, task_failed,
  accepts, rejects, finishes, Reason, no_reason, phase_busy, invalid_payload, active_estop,
  unknown_task,
}
use bot_cock_pit.Robot.Extract.{extract_string, extract_number}
use bot_cock_pit.Robot.Control.{
  is_running, is_idle, is_starting, has_error_condition, recompute_phase_and_control, publish_state,
  publish_cmd_result,
}

abbrev pub Planner : Floats → Type 0
Planner F = GridMap F → Point F → Point F → List (Point F)

abbrev is_faulty : Phase → Bool
is_faulty fault = true
is_faulty degraded = true
is_faulty _ = false

abbrev pub is_done : TaskStatus → Bool
is_done done = true
is_done _ = false

abbrev pub is_goto : TaskType → Bool
is_goto goto = true
is_goto no_type = false

abbrev pub is_nil {ℓ} : {A : Type ℓ} → List A → Bool
is_nil [] = true
is_nil (x ∷ xs) = false

-- The world is 0 to 20 by -5 to 5.
abbrev pub in_world : (F : Floats) → F.Double → F.Double → Bool
in_world F x y =
    not (
      F.lt x (F.lit 0 1) || F.lt (F.lit 20 1) x || F.lt y (F.neg (F.lit 5 1)) || F.lt (F.lit 5 1) y)

module _ {F : Floats} where
  unfoldable pub accept : ℕ → Text → Text → Robot F → Robot F
  accept seq cmd task_id = publish_cmd_result (record {
    seq = seq;
    cmd = cmd;
    ok = true;
    status = accepts;
    reason = no_reason;
    task_id = task_id;
  })

  unfoldable pub reject : ℕ → Text → Reason → Text → Robot F → Robot F
  reject seq cmd why task_id = publish_cmd_result (record {
    seq = seq;
    cmd = cmd;
    ok = false;
    status = rejects;
    reason = why;
    task_id = task_id;
  })

  -- ESTOP, a fault, a start that is not over, or no console: no AUTO and no new task.
  unfoldable pub blocked : Robot F → Bool
  blocked r = r.estop || is_faulty r.phase || is_starting r.phase || not r.console_online

  unfoldable pub on_pause : ℕ → Text → Robot F → Robot F
  on_pause seq task_id r =
      let cmd = codes "CMD_TASK" in
      publish_state (
        if is_running r.phase
        then accept seq cmd r.task_id (
            recompute_phase_and_control
              (record r { task_status = accepted; phase = idle; nav_status = nav_idle }))
        else reject seq cmd unknown_task task_id r)

  unfoldable pub on_cancel : ℕ → Robot F → Robot F
  on_cancel seq r = publish_state (
      accept seq (codes "CMD_TASK") [] (
        recompute_phase_and_control (record r {
          task_status = nothing;
          task_id = [];
          task_type = no_type;
          nav_path = [];
          nav_status = nav_idle;
          stuck_s = F.lit 0 1;
          stuck_count = 0;
          phase = if is_running r.phase then idle else r.phase;
        })))

  -- A paused goto that still has its path, in a robot that may move.
  unfoldable pub can_resume : Robot F → Bool
  can_resume r =
      not (is_empty r.task_id)
      && is_goto r.task_type
      && not r.estop
      && is_idle r.phase
      && r.console_online
      && not (has_error_condition r)
      && not (is_nil r.nav_path)

  unfoldable pub resume_task : Robot F → Robot F
  resume_task r = record r {
    phase = running;
    task_status = executing;
    nav_status = tracking;
    control_enabled = false;
  }

  unfoldable pub on_resume : ℕ → Text → Robot F → Robot F
  on_resume seq task_id r =
      let cmd = codes "CMD_TASK" in
      publish_state (
        if can_resume r
        then accept seq cmd r.task_id (resume_task r)
        else reject seq cmd (if r.estop then active_estop else unknown_task) task_id r)

  -- No way to the goal is a task failure, and a fault.
  unfoldable pub plan_failed : ℕ → Text → Robot F → Robot F
  plan_failed seq task_id r =
      let faulted = record r {
        nav_status = nav_failed;
        faults =
            r.faults
            ++ record {
              code = task_failed;
              level = error_level;
              detail = codes "A* no path to goal";
              active = true;
            }
              ∷ [];
      } in
      publish_state
        (recompute_phase_and_control (reject seq (codes "CMD_TASK") unknown_task task_id faulted))

  unfoldable pub start_task : ℕ → Text → F.Double → F.Double → Robot F → Robot F
  start_task seq task_id x y r = publish_state (
      accept seq (codes "CMD_TASK") task_id (record r {
        nav_idx = 0;
        nav_status = tracking;
        nav_ready = true;
        stuck_s = F.lit 0 1;
        stuck_count = 0;
        trail = (r.pose_x, r.pose_y) ∷ [];
        task_id = task_id;
        task_type = goto;
        task_status = accepted;
        goal_x = x;
        goal_y = y;
        phase = running;
        control_enabled = false;
      }))

module _ {F : Floats} (plan : Planner F) where
  -- A goto with its name and a goal that lies in the world.
  unfoldable pub go_to : ℕ → Text → F.Double → F.Double → Robot F → Robot F
  go_to seq task_id x y r =
      let nav_map = Map.inflate 1 (Map.make_corridor_demo F) in
      let path = plan nav_map (r.pose_x, r.pose_y) (x, y) in
      let s = record r { nav_map = nav_map; nav_status = planning; nav_path = path } in
      if not (is_empty r.task_id) && text_eq r.task_id task_id && is_done r.task_status
      then publish_cmd_result
          (record {
            seq = seq;
            cmd = codes "CMD_TASK";
            ok = true;
            status = finishes;
            reason = no_reason;
            task_id = task_id;
          })
          r
      else if is_nil path
      then plan_failed seq task_id s
      else start_task seq task_id x y s

  unfoldable pub on_goto : ℕ → Text → Text → Robot F → Robot F
  on_goto seq task_id msg r =
      let x = (extract_number F msg (codes "x") r.pose_x).1 in
      let y = (extract_number F msg (codes "y") r.pose_y).1 in
      let next = r.task_seq + 1 in
      if is_running r.phase
      then reject seq (codes "CMD_TASK") phase_busy task_id r
      else if not (in_world F x y)
      then reject seq (codes "CMD_TASK") invalid_payload task_id r
      else if is_empty task_id
      then go_to seq (codes "T-" ++ to_string next) x y (record r { task_seq = next })
      else go_to seq task_id x y r

  unfoldable pub on_task : ℕ → Text → Robot F → Robot F
  on_task seq msg r =
      let type = Option.get_or (extract_string msg (codes "type")) [] in
      let task_id = Option.get_or (extract_string msg (codes "task_id")) [] in
      if text_eq type (codes "pause")
      then on_pause seq task_id r
      else if text_eq type (codes "cancel")
      then on_cancel seq r
      else if blocked r
      then reject seq (codes "CMD_TASK") (if r.estop then active_estop else phase_busy) task_id r
      else if text_eq type (codes "goto")
      then on_goto seq task_id msg r
      else if text_eq type (codes "resume")
      then on_resume seq task_id r
      else reject seq (codes "CMD_TASK") unknown_task task_id r
