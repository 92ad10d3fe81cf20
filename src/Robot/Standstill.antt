-- ===== src/Robot/Standstill.antt =====
-- A stopped robot and everything that happens to it (sim/src/fake_robot.cpp).
use bot_cock_pit.Prelude.{
  ℕ, ◌≡◌, refl, ◌∙◌, ap, Bool, true, false, not, ◌&&◌, List, [], ◌∷◌, Option, none, some, inl, inr,
  arith, if◌then◌else◌, if-both, Option-cases, Bool-cases,
}
use mathlib.Core.Option
use bot_cock_pit.Text.{Text, codes, text_eq, text_eq→≡}
use bot_cock_pit.Floats.{Floats}
use bot_cock_pit.Robot.{Robot, confirm_required}
use bot_cock_pit.Robot.Extract.{extract_string, extract_bool, extract_seq}
use bot_cock_pit.Robot.Control.{recompute_phase_and_control}
use bot_cock_pit.Robot.Lifecycle.{
  on_activate, on_deactivate, on_cleanup, on_shutdown, on_console, link_up, link_down,
}
use bot_cock_pit.Robot.Command.{dispatch, on_cmd, on_reset}
use bot_cock_pit.Robot.Command.Task.{Planner}
use bot_cock_pit.Robot.Step.{Event, handle, step, run}
use bot_cock_pit.Robot.Invariant.Still.{
  IsHeld, stopped-IsHeld, publish_state-IsHeld, recompute-IsHeld, link_down-IsHeld, tick-IsHeld,
}
use bot_cock_pit.Robot.Held.{kept, reject-IsHeld, dispatch-IsHeld}
use bot_cock_pit.Robot.Estop.{on_cmd-none, on_cmd-some, dispatch_reset}

abbrev pub is_reset : Option Text → Bool
is_reset none = false
is_reset (some cmd) = text_eq cmd (codes "CMD_RESET")

abbrev pub is_confirmed : Text → Bool
is_confirmed msg = Option.get_or (extract_bool msg (codes "confirm")) false

-- Neither a confirmed reset nor a new configuration.
abbrev pub keeps_stop : Event → Bool
keeps_stop (Event.cmd msg) = not (is_reset (extract_string msg (codes "cmd")) && is_confirmed msg)
keeps_stop Event.configure = false
keeps_stop _ = true

abbrev pub all_keep : List (ℕ × Event) → Bool
all_keep [] = true
all_keep ((now, e) ∷ es) = keeps_stop e && all_keep es

then-IsHeld : {F : Floats} {q r s : Robot F} → IsHeld q r → IsHeld r s → IsHeld q s
then-IsHeld h k = record {
  pose_x = k.pose_x ∙ h.pose_x;
  pose_y = k.pose_y ∙ h.pose_y;
  pose_yaw = k.pose_yaw ∙ h.pose_yaw;
  stopped = k.stopped;
}

both_true : (a b : Bool) → (a && b) ≡ true → (a ≡ true) × (b ≡ true)
both_true a b h = ground (arith, h)

not_both : (a b : Bool) → a ≡ true → not (a && b) ≡ true → b ≡ false
not_both a b h k = ground (arith, h, k)

module _ {F : Floats} (r : Robot F) (e : r.estop ≡ true) where
  unconfirmed-IsHeld :
      (seq : ℕ) (msg : Text) → is_confirmed msg ≡ false → IsHeld r (on_reset seq msg r)
  unfolding on_reset
  unconfirmed-IsHeld seq msg k =
      rw k (reject-IsHeld (stopped-IsHeld r e) seq (codes "CMD_RESET") confirm_required [])

  on_cmd-IsHeld :
      (plan : Planner F) (msg : Text)
      → keeps_stop (Event.cmd msg) ≡ true
      → IsHeld r (on_cmd plan msg r)
  on_cmd-IsHeld plan msg keeps = elim (Option-cases (extract_string msg (codes "cmd"))) [
    | inl k ↦ rw (on_cmd-none plan r msg k) (stopped-IsHeld r e)
    | inr (cmd, k) ↦
        let seq = extract_seq F msg in
        elim (Bool-cases (text_eq cmd (codes "CMD_RESET"))) [
          | inl reset ↦
              let name = text_eq→≡ cmd (codes "CMD_RESET") reset in
              let same =
                on_cmd-some plan r msg cmd k
                ∙ ap (λ (c : Text). dispatch plan c seq msg r) name
                ∙ dispatch_reset plan r seq msg in
              rw same (
                unconfirmed-IsHeld seq msg
                  (not_both _ (is_confirmed msg) (ap is_reset k ∙ reset) keeps))
          | inr other ↦
              rw (on_cmd-some plan r msg cmd k)
                (dispatch-IsHeld r r (stopped-IsHeld r e) plan cmd seq msg other)
        ]
  ]

  on_console-IsHeld : (msg : Text) → IsHeld r (on_console msg r)
  unfolding on_console link_up
  on_console-IsHeld msg =
      let h = stopped-IsHeld r e in
      let online = Option.get_or (extract_bool msg (codes "online")) false in
      let s = if online then link_up r else link_down r in
      let linked = recompute-IsHeld r _ (
        if-both (IsHeld r) online {x = link_up r} {y = link_down r} (kept h refl refl refl refl)
          (link_down-IsHeld r r h)) in
      publish_state-IsHeld r _ (
        if-both (IsHeld r) (recompute_phase_and_control s).console_online linked
          (kept linked refl refl refl refl))

  handle-IsHeld :
      (plan : Planner F) (rounds : ℕ) (event : Event)
      → keeps_stop event ≡ true
      → IsHeld r (handle plan rounds event r)
  unfolding on_activate on_deactivate on_cleanup on_shutdown
  handle-IsHeld plan rounds (Event.cmd msg) k =
      if-both (IsHeld r) r.topics (on_cmd-IsHeld plan msg k) (stopped-IsHeld r e)
  handle-IsHeld plan rounds (Event.console msg) k =
      if-both (IsHeld r) r.topics (on_console-IsHeld msg) (stopped-IsHeld r e)
  handle-IsHeld plan rounds Event.configure k = cc k
  handle-IsHeld plan rounds (Event.activate steady) k =
      publish_state-IsHeld r _ (kept (stopped-IsHeld r e) refl refl refl refl)
  handle-IsHeld plan rounds Event.deactivate k = kept (stopped-IsHeld r e) refl refl refl refl
  handle-IsHeld plan rounds Event.cleanup k = kept (stopped-IsHeld r e) refl refl refl refl
  handle-IsHeld plan rounds Event.shutdown k = kept (stopped-IsHeld r e) refl refl refl refl
  handle-IsHeld plan rounds (Event.tick steady) k = tick-IsHeld r plan rounds steady e

module _ {F : Floats} (plan : Planner F) (rounds : ℕ) where
  -- A stopped robot stays stopped and at its pose through every list of commands, console
  -- messages, ticks of the timer and transitions of the lifecycle, if none of them is a
  -- configure and none is a CMD_RESET with confirm true; whatever the planner, the clocks and
  -- the arithmetic are.
  pub run-IsHeld :
      (es : List (ℕ × Event)) (r : Robot F)
      → r.estop ≡ true
      → all_keep es ≡ true
      → IsHeld r (run plan rounds es r)
  unfolding run step
  run-IsHeld [] r e k = stopped-IsHeld r e
  run-IsHeld ((now, event) ∷ es) r e k =
      let ks = both_true (keeps_stop event) (all_keep es) k in
      let timed = record r { now_ms = now } in
      let one = handle-IsHeld timed e plan rounds event ks.0 in
      let held = then-IsHeld (kept (stopped-IsHeld r e) refl refl refl refl) one in
      then-IsHeld held (run-IsHeld es _ held.stopped ks.1)
