-- ===== src/Ui/Remote/Apply.antt =====
-- A state of the robot that arrives (ui/botcockpit/src/robotstate.cpp, applyState).
use bot_cock_pit.Prelude.{
  Bool, false, not, ◌&&◌, ◌||◌, List, [], ◌∷◌, ◌++◌, map, if◌then◌else◌, length,
}
use bot_cock_pit.Text.{Text, codes, text_eq}
use bot_cock_pit.Ui.Remote.{
  Variants, Remote, Change, bools_differ, longs_differ, join, emitted, conn_changed, mode_changed,
  phase_changed, estop_changed, control_enabled_changed, pose_changed, battery_changed,
  has_robot_state_changed, state_ts_ms_changed, task_changed, faults_changed, faults_list_changed,
  track_err_changed, nav_trail_changed, nav_status_changed,
}
use bot_cock_pit.Ui.Remote.Nav.{
  text_in, has_nav, nav_status_in, long_in_nav, goal_in, track_err_in, path_in, trail_in, new_nav,
  new_trail, new_track_err, status_or_idle, parse_xy,
}

module _ (V : Variants) where
  abbrev pub bool_in : V.Map → Text → Bool
  bool_in m key = V.to_bool (V.value m key)

  abbrev pub new_text : V.Map → Text → Text → Bool
  new_text m key old = V.contains m key && not (text_eq old (text_in V m key))

  abbrev pub new_bool : V.Map → Text → Bool → Bool
  new_bool m key old = V.contains m key && bools_differ old (bool_in m key)

  abbrev pub double_or : V.Map → Text → V.Double → V.Double
  double_or m key old = if V.contains m key then V.to_double (V.value m key) else old

  abbrev pub text_or : V.Map → Text → Text → Text
  text_or m key old = if V.contains m key then text_in V m key else old

  abbrev pub pose_of : V.Map → V.Map
  pose_of m = V.to_map (V.value m (codes "pose"))

  abbrev pub new_pose : V.Map → Remote V → Bool
  new_pose m r =
      let p = pose_of m in
      V.is_map (V.value m (codes "pose"))
      && (V.differ (double_or p (codes "x") r.pose_x) r.pose_x
          || V.differ (double_or p (codes "y") r.pose_y) r.pose_y
          || V.differ (double_or p (codes "yaw") r.pose_yaw) r.pose_yaw)

  abbrev pub new_battery : V.Map → Remote V → Bool
  new_battery m r =
      V.contains m (codes "battery")
      && not (V.fuzzy_equal r.battery (V.to_double (V.value m (codes "battery"))))

  -- Whether the state is the robot's own, and not the bridge's template.
  unfoldable pub robot_state : V.Map → Bool
  unfolding text_eq
  robot_state m =
      let shown =
        V.contains m (codes "battery")
        || V.contains m (codes "nodes")
        || V.contains m (codes "pose") in
      let enabled = bool_in m (codes "control_enabled") in
      let template =
        V.contains m (codes "conn")
        && (text_eq (text_in V m (codes "conn")) (codes "OFFLINE") && not enabled) in
      let known = if template then false else shown in
      let booting =
        V.contains m (codes "phase")
        && (text_eq (text_in V m (codes "phase")) (codes "BOOT") && known && not enabled) in
      if booting then false else known

  abbrev pub new_ts : V.Map → Remote V → Bool
  new_ts m r =
      V.contains m (codes "ts_ms")
      && longs_differ (V.to_long (V.value m (codes "ts_ms"))) r.state_ts_ms

  abbrev pub task_of : V.Map → V.Map
  task_of m = V.to_map (V.value m (codes "task"))

  abbrev pub new_task : V.Map → Remote V → Bool
  new_task m r =
      let t = task_of m in
      V.is_map (V.value m (codes "task"))
      && (not (text_eq (text_or t (codes "id") r.task_id) r.task_id)
          || not (text_eq (text_or t (codes "type") r.task_type) r.task_type)
          || not (text_eq (text_or t (codes "status") r.task_status) r.task_status))

  abbrev pub has_faults : V.Map → Bool
  has_faults m = V.is_list (V.value m (codes "faults"))

  abbrev pub faults_of : V.Map → List V.Value
  faults_of m = V.to_list (V.value m (codes "faults"))

  abbrev pub new_faults : V.Map → Remote V → Bool
  new_faults m r = has_faults m && not (V.same_lists (faults_of m) r.faults_list)

  -- The signals of one call, in order, each with its condition.
  abbrev pub changes : V.Map → Remote V → List (Bool × Change)
  changes m r =
      (new_text m (codes "conn") r.conn, conn_changed)
      ∷ (new_text m (codes "mode") r.mode, mode_changed)
      ∷ (new_text m (codes "phase") r.phase, phase_changed)
      ∷ (new_bool m (codes "estop") r.estop, estop_changed)
      ∷ (new_bool m (codes "control_enabled") r.control_enabled, control_enabled_changed)
      ∷ (new_pose m r, pose_changed)
      ∷ (new_battery m r, battery_changed)
      ∷ (bools_differ (robot_state m) r.has_robot_state, has_robot_state_changed)
      ∷ (new_ts m r, state_ts_ms_changed)
      ∷ (new_task m r, task_changed)
      ∷ (new_faults m r, faults_list_changed)
      ∷ (has_faults m, faults_changed)
      ∷ (new_track_err V m r, track_err_changed)
      ∷ (new_trail V m r, nav_trail_changed)
      ∷ (new_nav V m r, nav_status_changed)
      ∷ []

  unfoldable pub apply_state : V.Map → Remote V → Remote V
  unfolding robot_state join status_or_idle parse_xy
  apply_state m r =
      let p = pose_of m in
      let t = task_of m in
      record r {
        conn = if new_text m (codes "conn") r.conn then text_in V m (codes "conn") else r.conn;
        mode = if new_text m (codes "mode") r.mode then text_in V m (codes "mode") else r.mode;
        phase = if new_text m (codes "phase") r.phase then text_in V m (codes "phase") else r.phase;
        estop = if new_bool m (codes "estop") r.estop then bool_in m (codes "estop") else r.estop;
        control_enabled =
            if new_bool m (codes "control_enabled") r.control_enabled
            then bool_in m (codes "control_enabled")
            else r.control_enabled;
        pose_x = if new_pose m r then double_or p (codes "x") r.pose_x else r.pose_x;
        pose_y = if new_pose m r then double_or p (codes "y") r.pose_y else r.pose_y;
        pose_yaw = if new_pose m r then double_or p (codes "yaw") r.pose_yaw else r.pose_yaw;
        battery = if new_battery m r then V.to_double (V.value m (codes "battery")) else r.battery;
        has_robot_state =
            if bools_differ (robot_state m) r.has_robot_state
            then robot_state m
            else r.has_robot_state;
        state_ts_ms = if new_ts m r then V.to_long (V.value m (codes "ts_ms")) else r.state_ts_ms;
        task_id = if new_task m r then text_or t (codes "id") r.task_id else r.task_id;
        task_type = if new_task m r then text_or t (codes "type") r.task_type else r.task_type;
        task_status =
            if new_task m r then text_or t (codes "status") r.task_status else r.task_status;
        fault_count = if has_faults m then length (faults_of m) else r.fault_count;
        faults_summary =
            if has_faults m
            then join (codes ", ") (map (λ v. text_in V (V.to_map v) (codes "code")) (faults_of m))
            else r.faults_summary;
        faults_list = if new_faults m r then faults_of m else r.faults_list;
        nav_status = if has_nav V m then status_or_idle (nav_status_in V m) else r.nav_status;
        nav_path_len = if has_nav V m then long_in_nav V m (codes "path_len") else r.nav_path_len;
        nav_idx = if has_nav V m then long_in_nav V m (codes "idx") else r.nav_idx;
        nav_path = if has_nav V m then (path_in V m).0 else r.nav_path;
        nav_path_flat = if has_nav V m then (path_in V m).1 else r.nav_path_flat;
        nav_goal_x = if has_nav V m then goal_in V m (codes "x") else r.nav_goal_x;
        nav_goal_y = if has_nav V m then goal_in V m (codes "y") else r.nav_goal_y;
        track_err = if new_track_err V m r then track_err_in V m else r.track_err;
        nav_trail = if new_trail V m r then (trail_in V m).0 else r.nav_trail;
        nav_trail_flat = if new_trail V m r then (trail_in V m).1 else r.nav_trail_flat;
        signals = r.signals ++ emitted (changes m r);
      }
