-- ===== src/Robot/Command.antt =====
-- The commands of the robot (sim/src/fake_robot.cpp, on_cmd), a function for each. `plan` is
-- `nav::astar`: the way from a point to a point on a map, empty if there is none.
pub mod Task
use bot_cock_pit.Prelude.{
  ℕ, Bool, true, false, not, ◌&&◌, ◌||◌, List, [], ◌∷◌, ◌++◌, Option, none, some, if◌then◌else◌,
}
use mathlib.Core.Option
use bot_cock_pit.Text.{Text, codes, text_eq}
use bot_cock_pit.Floats.{Floats}
use bot_cock_pit.Robot.{
  Robot, Phase, boot, initializing, idle, running, degraded, fault, estopped, Mode, teleop, auto,
  remote, nothing, no_type, ok, warn, warn_level, Code, node_timeout, task_failed, estop_active,
  battery_low, FaultItem, CmdResult, Verdict, accepts, rejects, Reason, no_reason, confirm_required,
  phase_busy, invalid_payload, active_estop, not_implemented,
}
use bot_cock_pit.Robot.Extract.{extract_string, extract_bool, extract_seq}
use bot_cock_pit.Robot.Control.{
  any_fault, is_error, is_idle, is_pending, fail_pending, has_error_condition,
  recompute_phase_and_control, publish_state, publish_cmd_result, inject_fault, clear_faults,
}
use Task.{Planner, blocked, accept, reject, on_task}

abbrev pub is_estop_fault : Code → Bool
is_estop_fault estop_active = true
is_estop_fault _ = false

-- The faults that an operator's reset may clear.
abbrev pub is_clearable : Code → Bool
is_clearable node_timeout = false
is_clearable _ = true

abbrev pub is_blocking : FaultItem → Bool
is_blocking f = not (is_clearable f.code) && is_error f.level

abbrev pub is_fault : Phase → Bool
is_fault fault = true
is_fault _ = false

abbrev pub is_auto : Mode → Bool
is_auto auto = true
is_auto _ = false

-- `mode` is one of the three modes.
unfoldable pub parse_mode : Text → Option Mode
parse_mode s =
    if text_eq s (codes "TELEOP")
    then some teleop
    else if text_eq s (codes "AUTO")
    then some auto
    else if text_eq s (codes "REMOTE")
    then some remote
    else none

module _ {F : Floats} where
  unfoldable pub on_estop : ℕ → Robot F → Robot F
  on_estop seq r =
      let stopped = record r {
        estop = true;
        phase = estopped;
        control_enabled = false;
        task_status = fail_pending r.task_status;
        faults =
            if any_fault (λ f. is_estop_fault f.code) r.faults
            then r.faults
            else r.faults
              ++ record {
                code = estop_active;
                level = warn_level;
                detail = codes "software estop engaged";
                active = true;
              }
                ∷ [];
      } in
      publish_state (accept seq (codes "CMD_ESTOP") [] stopped)

  -- A reset with nothing in its way.
  unfoldable pub recover : Robot F → Robot F
  recover r =
      let cleared = clear_faults (record r { estop = false }) in
      let s = recompute_phase_and_control (record cleared {
        bridge_node = if r.console_online then ok else warn;
        phase = idle;
        mode = teleop;
        task_status = nothing;
        task_id = [];
        task_type = no_type;
      }) in
      record s { control_enabled = s.console_online && is_idle s.phase }

  unfoldable pub on_reset : ℕ → Text → Robot F → Robot F
  on_reset seq msg r =
      let cmd = codes "CMD_RESET" in
      if Option.get_or (extract_bool msg (codes "confirm")) false
      then (if any_fault is_blocking r.faults
          then publish_state (reject seq cmd phase_busy [] r)
          else publish_state (accept seq cmd [] (recover r)))
      else reject seq cmd confirm_required [] r

  unfoldable pub set_mode : ℕ → Mode → Robot F → Robot F
  set_mode seq mode r =
      let cmd = codes "CMD_MODE" in
      if is_auto mode && blocked r
      then reject seq cmd (if r.estop then active_estop else phase_busy) [] r
      else publish_state (accept seq cmd [] (record r { mode = mode }))

  unfoldable pub on_mode : ℕ → Text → Robot F → Robot F
  unfolding set_mode
  on_mode seq msg r = elim (extract_string msg (codes "mode")) [
    | none ↦ reject seq (codes "CMD_MODE") invalid_payload [] r
    | some text ↦ elim (parse_mode text) [
      | none ↦ reject seq (codes "CMD_MODE") invalid_payload [] r
      | some mode ↦ set_mode seq mode r
    ]
  ]

  unfoldable pub on_inject_fault : ℕ → Text → Text → Robot F → Robot F
  on_inject_fault seq cmd msg r =
      let detail =
        Option.get_or (extract_string msg (codes "detail")) (codes "injected by operator") in
      publish_state (accept seq cmd [] (inject_fault detail r))

  -- A fault that nothing backs any more.
  unfoldable pub leave_fault : Robot F → Robot F
  leave_fault s =
      if is_fault s.phase && not (has_error_condition s) then record s { phase = idle } else s

  unfoldable pub on_clear_fault : ℕ → Text → Robot F → Robot F
  on_clear_fault seq cmd r =
      let cleared = clear_faults r in
      let s =
        recompute_phase_and_control
          (record cleared { bridge_node = if r.console_online then ok else warn }) in
      let t = leave_fault s in
      publish_state (
        accept seq cmd []
          (record t { control_enabled = t.console_online && is_idle t.phase && not t.estop }))

module _ {F : Floats} (plan : Planner F) where
  -- The commands by name.
  unfoldable pub dispatch : Text → ℕ → Text → Robot F → Robot F
  dispatch cmd seq msg r =
      let is = λ (name : Text). text_eq cmd name in
      if is (codes "CMD_ESTART") || is (codes "CMD_ESTOP")
      then on_estop seq r
      else if is (codes "CMD_RESET")
      then on_reset seq msg r
      else if is (codes "CMD_MODE")
      then on_mode seq msg r
      else if is (codes "CMD_TASK")
      then on_task plan seq msg r
      else if is (codes "INJECT_FAULT") || is (codes "CMD_INJECT_FAULT")
      then on_inject_fault seq cmd msg r
      else if is (codes "CLEAR_FAULT") || is (codes "CMD_CLEAR_FAULT")
      then on_clear_fault seq cmd r
      else reject seq cmd not_implemented [] r

  -- A message without a command is ignored.
  unfoldable pub on_cmd : Text → Robot F → Robot F
  on_cmd msg r = elim (extract_string msg (codes "cmd")) [
    | none ↦ r
    | some cmd ↦ dispatch cmd (extract_seq F msg) msg r
  ]
