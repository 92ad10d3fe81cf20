-- ===== src/Robot/Startup.antt =====
-- From the configuration to control (sim/src/fake_robot.cpp).
use bot_cock_pit.Prelude.{
  ℕ, ◌+◌, ◌-◌, ◌%◌, ◌^◌, ◌≡◌, refl, sym, subst, Bool, true, false, ap, arith, ◌∙◌, List, [], ◌∷◌,
  if◌then◌else◌, ltb, leb,
}
use bot_cock_pit.Int.{pos}
use bot_cock_pit.Text.{codes, find_after, strip_prefix}
use bot_cock_pit.Floats.{Floats}
use bot_cock_pit.Robot.{Robot, idle, initializing, ok}
use bot_cock_pit.Robot.Extract.{extract_bool, field_value, skip_blanks}
use bot_cock_pit.Robot.Control.{
  recompute_phase_and_control, publish_state, clear_faults, has_error_condition, has_warn_condition,
}
use bot_cock_pit.Robot.Lifecycle.{on_configure, on_activate, on_console, link_up, link_down}
use bot_cock_pit.Robot.Command.Task.{Planner}
use bot_cock_pit.Robot.Drive.{drive, use_battery}
use bot_cock_pit.Robot.Tick.{
  elapsed, is_stale, check_console, end_start, floor_battery, warn_battery, check_battery, tick,
}
use bot_cock_pit.Robot.Step.{Event, step, run}

-- The battery that is left after the first tick.
abbrev pub first_battery : (F : Floats) → ℕ → ℕ → F.Double
first_battery F s0 s1 =
    let dt = if ltb 0 s0 then F.div (F.of_int (pos (s1 - s0))) (F.lit 1000 1) else F.lit 2 10 in
    F.sub (F.lit 100 1) (F.mul (F.lit 2 100) dt)

abbrev pub startup : (t0 t1 t2 t3 s0 s1 : ℕ) → List (ℕ × Event)
startup t0 t1 t2 t3 s0 s1 =
    (t0, Event.configure)
    ∷ (t1, Event.activate s0)
    ∷ (t2, Event.console (codes "{\"online\":true}"))
    ∷ (t3, Event.tick s1)
    ∷ []

if_off : {A : Type 0} (c : Bool) (x y : A) → c ≡ false → (if c then x else y) ≡ y
if_off c x y e = ground (arith, e)

if_on : {A : Type 0} (c : Bool) (x y : A) → c ≡ true → (if c then x else y) ≡ x
if_on c x y e = ground (arith, e)

-- A robot that has been activated at `s0`, and has heard of the console at `t2`.
abbrev waiting : {F : Floats} → Robot F → ℕ → ℕ → Robot F
waiting {F} r s0 t2 = record r {
  active = true;
  phase = initializing;
  estop = false;
  control_enabled = false;
  faults = [];
  robot_node = ok;
  console_online = true;
  last_console_ms = t2;
  idle_tp = s0 + 500;
  last_tick_tp = s0;
  battery = F.lit 100 1;
  topics = true;
}

-- In control.
pub record IsStarted {F : Floats} (r : Robot F) : Type 0 where
  pub idle_phase : r.phase ≡ idle
  pub in_control : r.control_enabled ≡ true

module _ {F : Floats} (r : Robot F) (s0 s1 t2 t3 : ℕ) where
  abbrev timed : Robot F
  timed = record (waiting r s0 t2) { now_ms = t3; last_tick_tp = s1 }

  abbrev resting : Robot F
  resting = record timed { phase = idle; control_enabled = true }

  abbrev rested : Robot F
  rested = record resting { battery = first_battery F s0 s1 }

  check_console-timed :
      ltb 3000 ((t3 + (2 ^ 64 - t2)) % 2 ^ 64) ≡ false → check_console timed ≡ timed
  unfolding check_console
  check_console-timed heard =
      if_off (is_stale timed) (link_down timed) timed (ground (arith, heard))

  end_start-timed : leb (s0 + 500) s1 ≡ true → end_start s1 timed ≡ record timed { phase = idle }
  unfolding end_start
  end_start-timed ready = if_on _ _ _ ready

  recompute-idle : recompute_phase_and_control (record timed { phase = idle }) ≡ resting
  unfolding recompute_phase_and_control has_error_condition has_warn_condition
  recompute-idle = refl

  drive-resting :
      (plan : Planner F) (rounds : ℕ)
      → drive plan rounds (elapsed s1 (waiting r s0 t2)) resting ≡ rested
  unfolding drive use_battery
  drive-resting plan rounds = refl

  check_battery-rested :
      F.lt (first_battery F s0 s1) (F.lit 0 1) ≡ false
      → F.lt (first_battery F s0 s1) (F.lit 15 1) ≡ false
      → check_battery rested ≡ rested
  unfolding check_battery floor_battery warn_battery
  check_battery-rested charged full = rw (charged, full) refl

  tick-starts :
      (plan : Planner F) (rounds : ℕ)
      → leb (s0 + 500) s1 ≡ true
      → ltb 3000 ((t3 + (2 ^ 64 - t2)) % 2 ^ 64) ≡ false
      → F.lt (first_battery F s0 s1) (F.lit 0 1) ≡ false
      → F.lt (first_battery F s0 s1) (F.lit 15 1) ≡ false
      → tick plan rounds s1 (record (waiting r s0 t2) { now_ms = t3 }) ≡ publish_state rested
  unfolding tick
  tick-starts plan rounds ready heard charged full =
      let rest = λ (s : Robot F).
        publish_state (check_battery (drive plan rounds (elapsed s1 (waiting r s0 t2)) s)) in
      ap (λ (s : Robot F). rest (recompute_phase_and_control (end_start s1 s)))
        (check_console-timed heard)
      ∙ ap (λ (s : Robot F). rest (recompute_phase_and_control s)) (end_start-timed ready)
      ∙ ap rest recompute-idle
      ∙ ap (λ (s : Robot F). publish_state (check_battery s)) (drive-resting plan rounds)
      ∙ ap publish_state (check_battery-rested charged full)

module _ {F : Floats} where
  -- The robot after the console's first message.
  awake : Robot F → ℕ → ℕ → ℕ → ℕ → Robot F
  awake r t0 t1 t2 s0 =
      let configured = on_configure (record r { now_ms = t0 }) in
      let active = on_activate s0 (record configured { now_ms = t1 }) in
      on_console (codes "{\"online\":true}") (record active { now_ms = t2 })

  awake-waiting :
      (r : Robot F) (t0 t1 t2 s0 : ℕ) → awake r t0 t1 t2 s0 ≡ waiting (awake r t0 t1 t2 s0) s0 t2
  unfolding awake on_configure on_activate on_console link_up publish_state clear_faults
      recompute_phase_and_control extract_bool field_value skip_blanks find_after strip_prefix
  awake-waiting r t0 t1 t2 s0 = refl

  rested-IsStarted :
      (r : Robot F) (s0 s1 t2 t3 : ℕ) → IsStarted (publish_state (rested r s0 s1 t2 t3))
  unfolding publish_state
  rested-IsStarted r s0 s1 t2 t3 = record { idle_phase = refl; in_control = refl }

  -- From any robot: when it is configured, then activated at the steady time s0, then told that
  -- the console is online, the next tick, at least 500 ms after s0, leaves it in phase IDLE and
  -- in control. The message is not more than 3000 ms old at the tick, in 64 bits, and what the
  -- battery has left after it is neither below 0 nor below 15.
  pub run-IsStarted :
      (plan : Planner F) (rounds : ℕ) (r : Robot F) (t0 t1 t2 t3 s0 s1 : ℕ)
      → leb (s0 + 500) s1 ≡ true
      → ltb 3000 ((t3 + (2 ^ 64 - t2)) % 2 ^ 64) ≡ false
      → F.lt (first_battery F s0 s1) (F.lit 0 1) ≡ false
      → F.lt (first_battery F s0 s1) (F.lit 15 1) ≡ false
      → IsStarted (run plan rounds (startup t0 t1 t2 t3 s0 s1) r)
  unfolding run step awake tick on_activate on_console publish_state on_configure
      recompute_phase_and_control
  run-IsStarted plan rounds r t0 t1 t2 t3 s0 s1 ready heard charged full =
      let b = awake r t0 t1 t2 s0 in
      let last =
        ap (λ (s : Robot F). tick plan rounds s1 (record s { now_ms = t3 }))
          (awake-waiting r t0 t1 t2 s0)
        ∙ tick-starts b s0 s1 t2 t3 plan rounds ready heard charged full in
      subst IsStarted (sym last) (rested-IsStarted b s0 s1 t2 t3)
