-- ===== src/Robot/Invariant/Callbacks.antt =====
-- Safety, the callbacks and runs of them (sim/src/fake_robot.cpp).
use mathlib.Core.Option
use bot_cock_pit.Robot.Tick
use bot_cock_pit.Prelude.{
  ℕ, ◌+◌, ◌≡◌, refl, true, false, not, ◌||◌, List, [], ◌∷◌, ◌++◌, inl, inr, ◌⊎◌, arith,
  if◌then◌else◌, if-intro, if-both, Option-cases,
}
use bot_cock_pit.Text.{Text, codes, text_eq, is_empty}
use bot_cock_pit.Text.Decimal.{to_string}
use bot_cock_pit.Floats.{Floats}
use bot_cock_pit.Robot.{
  Robot, boot, initializing, running, phase_busy, invalid_payload, active_estop, unknown_task,
  not_implemented,
}
use bot_cock_pit.Robot.Extract.{extract_string, extract_bool, extract_number, extract_seq}
use bot_cock_pit.Robot.Control.{is_running, has_error_condition, has_warn_condition, clear_faults}
use bot_cock_pit.Robot.Lifecycle.{
  on_configure, on_activate, on_deactivate, on_cleanup, on_shutdown, on_console, link_up, link_down,
}
use bot_cock_pit.Robot.Command.{dispatch, on_cmd}
use bot_cock_pit.Robot.Command.Task.{
  Planner, in_world, blocked, reject, on_goto, on_resume, on_task,
}
use bot_cock_pit.Robot.Step.{Event, handle, step, run}
use bot_cock_pit.Robot.Invariant.{
  IsSafe, unmoved-IsSafe, recompute-IsSafe, publish_state-IsSafe, reject-IsSafe,
}
use bot_cock_pit.Robot.Invariant.Links.{drop_control-IsSafe, link_down-online}
use bot_cock_pit.Robot.Invariant.Ticks.{tick-IsSafe}
use bot_cock_pit.Robot.Invariant.Rules.{IsReady, unblocked-IsReady}
use bot_cock_pit.Robot.Invariant.Commands.{
  on_estop-IsSafe, on_reset-IsSafe, on_mode-IsSafe, on_inject_fault-IsSafe, on_clear_fault-IsSafe,
}
use bot_cock_pit.Robot.Invariant.Tasks.{
  on_pause-IsSafe, on_cancel-IsSafe, on_resume-IsSafe, go_to-IsSafe,
}

module _ {F : Floats} (plan : Planner F) (r : Robot F) where
  on_goto-IsSafe :
      (seq : ℕ) (task_id msg : Text)
      → IsSafe r
      → IsReady r
      → IsSafe (on_goto plan seq task_id msg r)
  unfolding on_goto has_error_condition has_warn_condition
  on_goto-IsSafe seq task_id msg v h =
      let cmd = codes "CMD_TASK" in
      let x = (extract_number F msg (codes "x") r.pose_x).1 in
      let y = (extract_number F msg (codes "y") r.pose_y).1 in
      let next = r.task_seq + 1 in
      let s = record r { task_seq = next } in
      let v' : IsSafe s = unmoved-IsSafe r s v refl refl refl refl refl refl in
      if-both IsSafe (is_running r.phase) (reject-IsSafe seq cmd phase_busy task_id v) (
        if-both IsSafe (not (in_world F x y)) (reject-IsSafe seq cmd invalid_payload task_id v) (
          if-both IsSafe (is_empty task_id)
            (go_to-IsSafe plan s seq (codes "T-" ++ to_string next) x y v'
              (record { free = h.free; online = h.online; sound = h.sound }))
            (go_to-IsSafe plan r seq task_id x y v h)))

  on_task-IsSafe : (seq : ℕ) (msg : Text) → IsSafe r → IsSafe (on_task plan seq msg r)
  unfolding on_task
  on_task-IsSafe seq msg v =
      let cmd = codes "CMD_TASK" in
      let type = Option.get_or (extract_string msg (codes "type")) [] in
      let task_id = Option.get_or (extract_string msg (codes "task_id")) [] in
      if-both IsSafe (text_eq type (codes "pause")) (on_pause-IsSafe r seq task_id v) (
        if-both IsSafe (text_eq type (codes "cancel")) (on_cancel-IsSafe r seq v) (
          if-intro IsSafe (blocked r)
            {x = reject seq cmd (if r.estop then active_estop else phase_busy) task_id r}
            {y = if text_eq type (codes "goto")
              then on_goto plan seq task_id msg r
              else if text_eq type (codes "resume")
              then on_resume seq task_id r
              else reject seq cmd unknown_task task_id r}
            (λ _. reject-IsSafe seq cmd _ task_id v)
            (λ open_way.
              if-both IsSafe (text_eq type (codes "goto"))
                (on_goto-IsSafe seq task_id msg v (unblocked-IsReady r v open_way))
                (if-both IsSafe (text_eq type (codes "resume")) (on_resume-IsSafe r seq task_id v)
                  (reject-IsSafe seq cmd unknown_task task_id v)))))

  dispatch-IsSafe :
      (cmd : Text) (seq : ℕ) (msg : Text) → IsSafe r → IsSafe (dispatch plan cmd seq msg r)
  unfolding dispatch
  dispatch-IsSafe cmd seq msg v =
      let is = λ (name : Text). text_eq cmd name in
      if-both IsSafe (is (codes "CMD_ESTART") || is (codes "CMD_ESTOP")) (on_estop-IsSafe r seq v) (
        if-both IsSafe (is (codes "CMD_RESET")) (on_reset-IsSafe r seq msg v) (
          if-both IsSafe (is (codes "CMD_MODE")) (on_mode-IsSafe r seq msg v) (
            if-both IsSafe (is (codes "CMD_TASK")) (on_task-IsSafe seq msg v) (
              if-both IsSafe (is (codes "INJECT_FAULT") || is (codes "CMD_INJECT_FAULT"))
                (on_inject_fault-IsSafe r seq cmd msg v)
                (if-both IsSafe (is (codes "CLEAR_FAULT") || is (codes "CMD_CLEAR_FAULT"))
                  (on_clear_fault-IsSafe r seq cmd v)
                  (reject-IsSafe seq cmd not_implemented [] v))))))

  on_cmd-IsSafe : (msg : Text) → IsSafe r → IsSafe (on_cmd plan msg r)
  unfolding on_cmd
  on_cmd-IsSafe msg v = elim (Option-cases (extract_string msg (codes "cmd"))) [
    | inl e ↦ rw (e, on_cmd) v
    | inr (cmd, e) ↦ rw (e, on_cmd) (dispatch-IsSafe cmd (extract_seq F msg) msg v)
  ]

starting-IsSafe :
    {F : Floats} (r : Robot F) → r.phase ≡ initializing → r.control_enabled ≡ false → IsSafe r
starting-IsSafe r h c = ground arith

module _ {F : Floats} (r : Robot F) where
  pub on_console-IsSafe : (msg : Text) → IsSafe (on_console msg r)
  unfolding on_console link_up
  on_console-IsSafe msg =
      let online = Option.get_or (extract_bool msg (codes "online")) false in
      let s = if online then link_up r else link_down r in
      publish_state-IsSafe (
        drop_control-IsSafe _ (
          recompute-IsSafe s (
            if-both {A = Robot F} (λ t. t.phase ≡ running → t.console_online ≡ true) online
              (λ _. refl) (link_down-online r))))

  on_configure-IsSafe : IsSafe (on_configure r)
  unfolding on_configure clear_faults
  on_configure-IsSafe = publish_state-IsSafe (starting-IsSafe _ refl refl)

  on_activate-IsSafe : (steady : ℕ) → IsSafe (on_activate steady r)
  unfolding on_activate
  on_activate-IsSafe steady = publish_state-IsSafe (starting-IsSafe _ refl refl)

  on_deactivate-IsSafe : IsSafe (on_deactivate r)
  unfolding on_deactivate
  on_deactivate-IsSafe = starting-IsSafe _ refl refl

time-IsSafe : {F : Floats} (r : Robot F) (now : ℕ) → IsSafe r → IsSafe (record r { now_ms = now })
unfolding has_error_condition has_warn_condition
time-IsSafe r now v = unmoved-IsSafe r _ v refl refl refl refl refl refl

-- A robot that was cleaned up: it hears and publishes nothing, and its timer is off.
pub record IsDown {F : Floats} (r : Robot F) : Type 0 where
  pub silent : r.topics ≡ false
  pub inactive : r.active ≡ false
  pub booting : r.phase ≡ boot

abbrev pub IsGuarded : {F : Floats} → Robot F → Type 0
IsGuarded r = IsSafe r ⊎ IsDown r

module _ {F : Floats} (plan : Planner F) (rounds : ℕ) where
  handle-IsSafe : (e : Event) (r : Robot F) → IsSafe r → IsGuarded (handle plan rounds e r)
  unfolding on_cleanup on_shutdown
  handle-IsSafe (Event.cmd msg) r v = inl (if-both IsSafe r.topics (on_cmd-IsSafe plan r msg v) v)
  handle-IsSafe (Event.console msg) r v = inl (if-both IsSafe r.topics (on_console-IsSafe r msg) v)
  handle-IsSafe Event.configure r v = inl (on_configure-IsSafe r)
  handle-IsSafe (Event.activate steady) r v = inl (on_activate-IsSafe r steady)
  handle-IsSafe Event.deactivate r v = inl (on_deactivate-IsSafe r)
  handle-IsSafe Event.cleanup r v = inr (record { silent = refl; inactive = refl; booting = refl })
  handle-IsSafe Event.shutdown r v = inr (record { silent = refl; inactive = refl; booting = refl })
  handle-IsSafe (Event.tick steady) r v = inl (tick-IsSafe plan rounds steady r v)

  handle-IsDown : (e : Event) (r : Robot F) → IsDown r → IsGuarded (handle plan rounds e r)
  unfolding on_cleanup on_shutdown Tick.tick
  handle-IsDown (Event.cmd msg) r d =
      if-intro IsGuarded r.topics (λ on. cc (on, d.silent)) (λ _. inr d)
  handle-IsDown (Event.console msg) r d =
      if-intro IsGuarded r.topics (λ on. cc (on, d.silent)) (λ _. inr d)
  handle-IsDown Event.configure r d = inl (on_configure-IsSafe r)
  handle-IsDown (Event.activate steady) r d = inl (on_activate-IsSafe r steady)
  handle-IsDown Event.deactivate r d = inl (on_deactivate-IsSafe r)
  handle-IsDown Event.cleanup r d = inr (record { silent = refl; inactive = refl; booting = refl })
  handle-IsDown Event.shutdown r d = inr (record { silent = refl; inactive = refl; booting = refl })
  handle-IsDown (Event.tick steady) r d =
      if-intro IsGuarded r.active (λ on. cc (on, d.inactive)) (λ _. inr d)

  step-IsGuarded : (e : ℕ × Event) (r : Robot F) → IsGuarded r → IsGuarded (step plan rounds e r)
  unfolding step
  step-IsGuarded (now, e) r (inl v) = handle-IsSafe e _ (time-IsSafe r now v)
  step-IsGuarded (now, e) r (inr d) =
      handle-IsDown e _ (record { silent = d.silent; inactive = d.inactive; booting = d.booting })

  -- From a robot that is safe or cleaned up, every list of commands, console messages, ticks of
  -- the timer and transitions of the lifecycle leads to one that is safe or cleaned up, whatever
  -- the planner and the arithmetic are. Cleaned up it is in phase BOOT, inactive, and without
  -- publishers and subscriptions.
  pub run-IsGuarded :
      (es : List (ℕ × Event)) (r : Robot F) → IsGuarded r → IsGuarded (run plan rounds es r)
  unfolding run
  run-IsGuarded [] r v = v
  run-IsGuarded (e ∷ es) r v = run-IsGuarded es (step plan rounds e r) (step-IsGuarded e r v)
