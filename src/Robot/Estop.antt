-- ===== src/Robot/Estop.antt =====
-- The emergency stop and the commands that a stopped robot takes (sim/src/fake_robot.cpp, on_cmd).
use bot_cock_pit.Prelude.{
  ℕ, ◌≡◌, refl, sym, ap, ◌∙◌, true, false, [], none, some, inl, inr, arith, Option-cases,
  Bool-cases,
}
use bot_cock_pit.Text.{Text, codes, text_eq, text_eq→≡}
use bot_cock_pit.Floats.{Floats}
use bot_cock_pit.Robot.{Robot, confirm_required, phase_busy}
use bot_cock_pit.Robot.Extract.{extract_string, extract_bool, extract_seq}
use bot_cock_pit.Robot.Control.{any_fault}
use bot_cock_pit.Robot.Command.{is_blocking, on_reset, dispatch, on_cmd}
use bot_cock_pit.Robot.Command.Task.{Planner}
use bot_cock_pit.Robot.Invariant.Still.{stopped-IsHeld, publish_state-IsHeld}
use bot_cock_pit.Robot.Held.{reject-IsHeld, dispatch-IsHeld}

-- A confirmed reset that no fault of the robot blocks.
abbrev pub Releasing : {F : Floats} → Robot F → Text → Type 0
Releasing r msg =
    (extract_string msg (codes "cmd") ≡ some (codes "CMD_RESET"))
    × (extract_bool msg (codes "confirm") ≡ some true)
    × (any_fault is_blocking r.faults ≡ false)

pub on_cmd-none :
    {F : Floats} (plan : Planner F) (r : Robot F) (msg : Text)
    → extract_string msg (codes "cmd") ≡ none
    → on_cmd plan msg r ≡ r
unfolding on_cmd
on_cmd-none plan r msg e = rw (e, on_cmd)

pub on_cmd-some :
    {F : Floats} (plan : Planner F) (r : Robot F) (msg cmd : Text)
    → extract_string msg (codes "cmd") ≡ some cmd
    → on_cmd plan msg r ≡ dispatch plan cmd (extract_seq F msg) msg r
unfolding on_cmd
on_cmd-some plan r msg cmd e = rw (e, on_cmd)

pub dispatch_reset :
    {F : Floats} (plan : Planner F) (r : Robot F) (seq : ℕ) (msg : Text)
    → dispatch plan (codes "CMD_RESET") seq msg r ≡ on_reset seq msg r
unfolding dispatch text_eq
dispatch_reset plan r seq msg = refl

module _ {F : Floats} (r : Robot F) (held : r.estop ≡ true) where
  on_reset_releases :
      (seq : ℕ) (msg : Text)
      → (on_reset seq msg r).estop ≡ false
      → (extract_bool msg (codes "confirm") ≡ some true) × (any_fault is_blocking r.faults ≡ false)
  unfolding on_reset
  on_reset_releases seq msg e =
      let cmd = codes "CMD_RESET" in
      let h = stopped-IsHeld r held in
      let refused = (reject-IsHeld h seq cmd confirm_required []).stopped in
      let busy = (publish_state-IsHeld r _ (reject-IsHeld h seq cmd phase_busy [])).stopped in
      ground (arith, refused, busy)

  -- If a message to a stopped robot ends the emergency stop, then it is a CMD_RESET with confirm
  -- true, and the robot has no ERROR fault that a reset may not clear.
  pub on_cmd_releases :
      (plan : Planner F) (msg : Text) → (on_cmd plan msg r).estop ≡ false → Releasing r msg
  on_cmd_releases plan msg e = elim (Option-cases (extract_string msg (codes "cmd"))) [
    | inl k ↦ cc (held, ap (λ (s : Robot F). s.estop) (on_cmd-none plan r msg k))
    | inr (cmd, k) ↦
        let seq = extract_seq F msg in
        let same = ap (λ (s : Robot F). s.estop) (on_cmd-some plan r msg cmd k) in
        elim (Bool-cases (text_eq cmd (codes "CMD_RESET"))) [
          | inl reset ↦
              let name = text_eq→≡ cmd _ reset in
              let done = on_reset_releases seq msg (
                sym (ap (λ (s : Robot F). s.estop) (dispatch_reset plan r seq msg))
                ∙ sym (ap (λ (c : Text). (dispatch plan c seq msg r).estop) name)
                ∙ sym same
                ∙ e) in
              (k ∙ ap some name, done.0, done.1)
          | inr other ↦ cc (
              sym e
              ∙ same
              ∙ (dispatch-IsHeld r r (stopped-IsHeld r held) plan cmd seq msg other).stopped)
        ]
  ]
