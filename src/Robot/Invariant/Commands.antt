-- ===== src/Robot/Invariant/Commands.antt =====
-- Safety and the commands but CMD_TASK (sim/src/fake_robot.cpp, on_cmd).
use bot_cock_pit.Prelude.{
  sym, subst, inl, inr, false, arith, [], ℕ, if-both, if◌then◌else◌, ◌&&◌, Option-cases,
}
use bot_cock_pit.Text.{Text, codes}
use bot_cock_pit.Robot.Extract.{extract_string, extract_bool}
use mathlib.Core.Option
use bot_cock_pit.Floats.{Floats}
use bot_cock_pit.Robot.{
  Robot, ok, warn, confirm_required, phase_busy, invalid_payload, active_estop, Mode,
}
use bot_cock_pit.Robot.Control.{
  any_fault, has_error_condition, has_warn_condition, recompute_phase_and_control, clear_faults,
  inject_fault,
}
use bot_cock_pit.Robot.Command.Task.{blocked}
use bot_cock_pit.Robot.Command.{
  is_blocking, is_auto, set_mode, parse_mode, on_estop, recover, on_reset, on_mode, on_inject_fault,
  on_clear_fault,
}
use bot_cock_pit.Robot.Invariant.{
  IsSafe, recompute-IsSafe, publish_state-IsSafe, accept-IsSafe, reject-IsSafe,
}
use bot_cock_pit.Robot.Invariant.Rules.{
  record-control, online_idle, online_idle_free, recompute-fault, leave_fault-eq,
}

module _ {F : Floats} (r : Robot F) where
  pub on_estop-IsSafe : (seq : ℕ) → IsSafe r → IsSafe (on_estop seq r)
  unfolding on_estop
  on_estop-IsSafe seq v = publish_state-IsSafe (accept-IsSafe seq _ [] (ground arith))

  pub recover-IsSafe : IsSafe (recover r)
  unfolding recover
  recover-IsSafe = record-control (recompute-IsSafe _ (λ e. cc)) (online_idle _ _)

  pub inject_fault-IsSafe : (detail : Text) → IsSafe r → IsSafe (inject_fault detail r)
  unfolding inject_fault
  inject_fault-IsSafe detail v = recompute-IsSafe _ v.running_online

  pub on_inject_fault-IsSafe :
      (seq : ℕ) (cmd msg : Text) → IsSafe r → IsSafe (on_inject_fault seq cmd msg r)
  unfolding on_inject_fault
  on_inject_fault-IsSafe seq cmd msg v =
      publish_state-IsSafe (accept-IsSafe seq cmd [] (inject_fault-IsSafe _ v))

  pub on_reset-IsSafe : (seq : ℕ) (msg : Text) → IsSafe r → IsSafe (on_reset seq msg r)
  unfolding on_reset
  on_reset-IsSafe seq msg v =
      let cmd = codes "CMD_RESET" in
      if-both IsSafe (Option.get_or (extract_bool msg (codes "confirm")) false)
        (if-both IsSafe (any_fault is_blocking r.faults)
          (publish_state-IsSafe (reject-IsSafe seq cmd phase_busy [] v))
          (publish_state-IsSafe (accept-IsSafe seq cmd [] recover-IsSafe)))
        (reject-IsSafe seq cmd confirm_required [] v)

  pub mode-IsSafe : (mode : Mode) → IsSafe r → IsSafe (record r { mode = mode })
  unfolding has_error_condition has_warn_condition
  mode-IsSafe mode v = record {
    estop_holds = v.estop_holds;
    estop_only = v.estop_only;
    running_online = v.running_online;
    running_sound = v.running_sound;
    idle_sound = v.idle_sound;
    control_idle = v.control_idle;
    control_online = v.control_online;
    idle_calm = v.idle_calm;
  }

  pub set_mode-IsSafe : (seq : ℕ) (mode : Mode) → IsSafe r → IsSafe (set_mode seq mode r)
  unfolding set_mode
  set_mode-IsSafe seq mode v =
      let cmd = codes "CMD_MODE" in
      if-both IsSafe (is_auto mode && blocked r)
        (reject-IsSafe seq cmd (if r.estop then active_estop else phase_busy) [] v)
        (publish_state-IsSafe (accept-IsSafe seq cmd [] (mode-IsSafe mode v)))

  pub on_mode-IsSafe : (seq : ℕ) (msg : Text) → IsSafe r → IsSafe (on_mode seq msg r)
  unfolding on_mode
  on_mode-IsSafe seq msg v = elim (Option-cases (extract_string msg (codes "mode"))) [
    | inl e ↦ rw (e, on_mode) (reject-IsSafe seq _ invalid_payload [] v)
    | inr (text, e) ↦ elim (Option-cases (parse_mode text)) [
      | inl k ↦ rw (e, on_mode) (rw k (reject-IsSafe seq _ invalid_payload [] v))
      | inr (mode, k) ↦ rw (e, on_mode) (rw k (set_mode-IsSafe seq mode v))
    ]
  ]

  pub on_clear_fault-IsSafe : (seq : ℕ) (cmd : Text) → IsSafe r → IsSafe (on_clear_fault seq cmd r)
  unfolding on_clear_fault clear_faults
  on_clear_fault-IsSafe seq cmd v =
      let cleared = clear_faults r in
      let before = record cleared { bridge_node = if r.console_online then ok else warn } in
      let s = recompute_phase_and_control before in
      let safe =
        subst IsSafe (sym (leave_fault-eq s (recompute-fault before)))
          (recompute-IsSafe before v.running_online) in
      publish_state-IsSafe (accept-IsSafe seq cmd [] (record-control safe (online_idle_free _ _ _)))
