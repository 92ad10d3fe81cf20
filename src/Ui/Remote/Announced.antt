-- ===== src/Ui/Remote/Announced.antt =====
-- What the console announces of the robot (ui/botcockpit/src/robotstate.cpp, applyState and
-- resetRemote).
use bot_cock_pit.Prelude.{
  ℕ, zero, suc, ◌≡◌, ◌⊎◌, refl, sym, inl, inr, Bool, true, false, not, ◌&&◌, List, [], ◌∷◌,
  if◌then◌else◌, length, ◌==◌, arith, Option, none, some, some_inj, subst, drop, drop-append,
}
use bot_cock_pit.Int.{ℤ}
use bot_cock_pit.Text.{Text, codes, text_eq→≡}
use bot_cock_pit.Ui.Remote.{
  Variants, Remote, Change, emitted, longs_differ, conn_changed, mode_changed, phase_changed,
  estop_changed, control_enabled_changed, pose_changed, battery_changed, has_robot_state_changed,
  state_ts_ms_changed, task_changed, faults_changed, faults_list_changed, nav_status_changed,
  nav_trail_changed, track_err_changed, heartbeat_rtt_ms_changed,
}
use bot_cock_pit.Ui.Remote.Nav.{
  nav_differs, has_nav, nav_status_in, long_in_nav, goal_in, path_in, status_or_idle,
}
use bot_cock_pit.Ui.Remote.Apply.{changes, apply_state}
use bot_cock_pit.Ui.Remote.Slots.{reset_signals, reset_remote}

-- The signal is among those of the call.
pub data Emitted (c : Change) : List Change → Type 0 where
  first : {cs : List Change} → Emitted c (c ∷ cs)
  later : {d : Change} {cs : List Change} → Emitted c cs → Emitted c (d ∷ cs)

-- A value that is not the old one has its signal.
abbrev pub IsTold {ℓ} : {A : Type ℓ} → A → A → Change → List Change → Type ℓ
IsTold old new c cs = (new ≡ old) ⊎ Emitted c cs

-- The same, for values that the code compares by `same`.
abbrev pub IsSeen {ℓ} : {A : Type ℓ} → (A → A → Bool) → A → A → Change → List Change → Type ℓ
IsSeen same old new c cs = (same new old ≡ true) ⊎ IsTold old new c cs

pub record IsAnnounced {V : Variants} (r t : Remote V) (cs : List Change) : Type 0 where
  pub conn : IsTold r.conn t.conn conn_changed cs
  pub mode : IsTold r.mode t.mode mode_changed cs
  pub phase : IsTold r.phase t.phase phase_changed cs
  pub estop : IsTold r.estop t.estop estop_changed cs
  pub control : IsTold r.control_enabled t.control_enabled control_enabled_changed cs
  pub pose_x : IsTold r.pose_x t.pose_x pose_changed cs
  pub pose_y : IsTold r.pose_y t.pose_y pose_changed cs
  pub pose_yaw : IsTold r.pose_yaw t.pose_yaw pose_changed cs
  pub battery : IsTold r.battery t.battery battery_changed cs
  pub has_robot_state : IsTold r.has_robot_state t.has_robot_state has_robot_state_changed cs
  pub state_ts : IsTold r.state_ts_ms t.state_ts_ms state_ts_ms_changed cs
  pub task_id : IsTold r.task_id t.task_id task_changed cs
  pub task_type : IsTold r.task_type t.task_type task_changed cs
  pub task_status : IsTold r.task_status t.task_status task_changed cs
  pub fault_count : IsTold r.fault_count t.fault_count faults_changed cs
  pub summary : IsTold r.faults_summary t.faults_summary faults_changed cs
  pub faults_list : IsTold r.faults_list t.faults_list faults_list_changed cs
  pub nav_status : (r.nav_status ≡ []) ⊎ IsTold r.nav_status t.nav_status nav_status_changed cs
  pub nav_path_len : IsTold r.nav_path_len t.nav_path_len nav_status_changed cs
  pub nav_idx : IsTold r.nav_idx t.nav_idx nav_status_changed cs
  pub nav_goal_x :
      IsSeen (λ a b. not (V.differ a b)) r.nav_goal_x t.nav_goal_x nav_status_changed cs
  pub nav_goal_y :
      IsSeen (λ a b. not (V.differ a b)) r.nav_goal_y t.nav_goal_y nav_status_changed cs
  pub nav_path_flat : IsSeen V.same_doubles r.nav_path_flat t.nav_path_flat nav_status_changed cs
  pub nav_path :
      IsSeen (λ ps qs. length ps == length qs) r.nav_path t.nav_path nav_status_changed cs
  pub nav_trail : IsTold r.nav_trail t.nav_trail nav_trail_changed cs
  pub nav_trail_flat : IsTold r.nav_trail_flat t.nav_trail_flat nav_trail_changed cs
  pub track_err : IsTold r.track_err t.track_err track_err_changed cs
  pub rtt_ms : IsTold r.rtt_ms t.rtt_ms heartbeat_rtt_ms_changed cs

at_index {ℓ} : {A : Type ℓ} → List A → ℕ → Option A
at_index [] i = none
at_index (x ∷ xs) zero = some x
at_index (x ∷ xs) (suc i) = at_index xs i

at_index-Emitted : {c : Change} (cs : List Change) (i : ℕ) → at_index cs i ≡ some c → Emitted c cs
unfolding at_index
at_index-Emitted [] i h = cc
at_index-Emitted {c} (d ∷ cs) zero h = subst (λ e. Emitted e (d ∷ cs)) (some_inj h) first
at_index-Emitted (d ∷ cs) (suc i) h = later (at_index-Emitted cs i h)

noted-Emitted :
    {c : Change} (ns : List (Bool × Change)) (i : ℕ)
    → at_index ns i ≡ some (true, c)
    → Emitted c (emitted ns)
unfolding at_index
noted-Emitted [] i h = cc
noted-Emitted {c} ((b, d) ∷ ns) zero h =
    let e = some_inj h in subst (λ n. Emitted c (emitted (n ∷ ns))) (sym e) first
noted-Emitted ((true, d) ∷ ns) (suc i) h = later (noted-Emitted ns i h)
noted-Emitted ((false, d) ∷ ns) (suc i) h = noted-Emitted ns i h

-- A value that is written under the condition of its signal.
told {ℓ} :
    {A : Type ℓ} {old : A} {c : Change} (i : ℕ) (b : Bool) (v : A) (ns : List (Bool × Change))
    → at_index ns i ≡ some (b, c)
    → IsTold old (if b then v else old) c (emitted ns)
told i true v ns h = inr (noted-Emitted ns i h)
told i false v ns h = inl refl

-- A value that is written in any case, and whose signal depends on a comparison too.
seen {ℓ} :
    {A : Type ℓ} (same : A → A → Bool) {old : A} {c : Change} (i : ℕ) (has rest : Bool) (v : A)
    (ns : List (Bool × Change))
    → at_index ns i ≡ some (has && rest, c)
    → (rest ≡ false → same v old ≡ true)
    → IsSeen same old (if has then v else old) c (emitted ns)
seen same i false rest v ns h e = inr (inl refl)
seen same i true true v ns h e = inr (inr (noted-Emitted ns i h))
seen same i true false v ns h e = inl (e refl)

seen_exact {ℓ} :
    {A : Type ℓ} {old : A} {c : Change} (i : ℕ) (has rest : Bool) (v : A)
    (ns : List (Bool × Change))
    → at_index ns i ≡ some (has && rest, c)
    → (rest ≡ false → v ≡ old)
    → IsTold old (if has then v else old) c (emitted ns)
seen_exact i false rest v ns h e = inl refl
seen_exact i true true v ns h e = inr (noted-Emitted ns i h)
seen_exact i true false v ns h e = inl (e refl)

status-IsTold :
    {c : Change} (i : ℕ) (has rest : Bool) (st old : Text) (ns : List (Bool × Change))
    → at_index ns i ≡ some (has && rest, c)
    → (rest ≡ false → st ≡ old)
    → (old ≡ []) ⊎ IsTold old (if has then status_or_idle st else old) c (emitted ns)
unfolding status_or_idle
status-IsTold i false rest st old ns h e = inr (inl refl)
status-IsTold i true true st old ns h e = inr (inr (noted-Emitted ns i h))
status-IsTold i true false [] old ns h e = inl (sym (e refl))
status-IsTold i true false (a ∷ st) old ns h e = inr (inl (e refl))

longs-eq : (a b : ℤ) → longs_differ a b ≡ false → a ≡ b
longs-eq a b h = ground (arith, h)

-- The signals that a call has emitted since the state was `r`.
abbrev pub emitted_since : {V : Variants} → Remote V → Remote V → List Change
emitted_since r t = drop (length r.signals) t.signals

-- With the changes that applyState finds.
apply_state-changes :
    (V : Variants) (m : V.Map) (r : Remote V)
    → IsAnnounced r (apply_state V m r) (emitted (changes V m r))
unfolding apply_state at_index
apply_state-changes V m r =
    let ns = changes V m r in
    let rest = nav_differs V m r in
    record {
      conn = told 0 _ _ ns refl;
      mode = told 1 _ _ ns refl;
      phase = told 2 _ _ ns refl;
      estop = told 3 _ _ ns refl;
      control = told 4 _ _ ns refl;
      pose_x = told 5 _ _ ns refl;
      pose_y = told 5 _ _ ns refl;
      pose_yaw = told 5 _ _ ns refl;
      battery = told 6 _ _ ns refl;
      has_robot_state = told 7 _ _ ns refl;
      state_ts = told 8 _ _ ns refl;
      task_id = told 9 _ _ ns refl;
      task_type = told 9 _ _ ns refl;
      task_status = told 9 _ _ ns refl;
      fault_count = told 11 _ _ ns refl;
      summary = told 11 _ _ ns refl;
      faults_list = told 10 _ _ ns refl;
      nav_status =
          status-IsTold 14 (has_nav V m) rest (nav_status_in V m) r.nav_status ns refl
            (λ h. text_eq→≡ (nav_status_in V m) r.nav_status (ground (arith, h)));
      nav_path_len =
          seen_exact 14 (has_nav V m) rest (long_in_nav V m (codes "path_len")) ns refl
            (λ h. longs-eq (long_in_nav V m (codes "path_len")) r.nav_path_len (ground (arith, h)));
      nav_idx =
          seen_exact 14 (has_nav V m) rest (long_in_nav V m (codes "idx")) ns refl
            (λ h. longs-eq (long_in_nav V m (codes "idx")) r.nav_idx (ground (arith, h)));
      nav_goal_x =
          seen (λ a b. not (V.differ a b)) 14 (has_nav V m) rest (goal_in V m (codes "x")) ns refl
            (λ h. ground (arith, h));
      nav_goal_y =
          seen (λ a b. not (V.differ a b)) 14 (has_nav V m) rest (goal_in V m (codes "y")) ns refl
            (λ h. ground (arith, h));
      nav_path_flat =
          seen V.same_doubles 14 (has_nav V m) rest (path_in V m).1 ns refl
            (λ h. ground (arith, h));
      nav_path =
          seen (λ ps qs. length ps == length qs) 14 (has_nav V m) rest (path_in V m).0 ns refl
            (λ h. ground (arith, h));
      nav_trail = told 13 _ _ ns refl;
      nav_trail_flat = told 13 _ _ ns refl;
      track_err = told 12 _ _ ns refl;
      rtt_ms = inl refl;
    }

-- For every map and every state, each displayed value is the old one after applyState, or equal
-- to it for the code's own comparison where that decides (the goal and the flat path; of the
-- path the length), or its signal is among those that the call has added to the signals; a nav
-- status may also replace an empty one.
pub apply_state-IsAnnounced :
    (V : Variants) (m : V.Map) (r : Remote V)
    → IsAnnounced r (apply_state V m r) (emitted_since r (apply_state V m r))
unfolding apply_state
apply_state-IsAnnounced V m r =
    subst (IsAnnounced r (apply_state V m r))
      (sym (drop-append r.signals (emitted (changes V m r)))) (apply_state-changes V m r)

-- Each displayed value is the old one after resetRemote, or its signal is among those that the
-- reset emits.
pub reset_remote-IsAnnounced :
    (V : Variants) (r : Remote V) → IsAnnounced r (reset_remote r) reset_signals
unfolding reset_remote at_index
reset_remote-IsAnnounced V r = record {
  conn = inr (at_index-Emitted reset_signals 2 refl);
  mode = inr (at_index-Emitted reset_signals 3 refl);
  phase = inr (at_index-Emitted reset_signals 4 refl);
  estop = inr (at_index-Emitted reset_signals 5 refl);
  control = inr (at_index-Emitted reset_signals 6 refl);
  pose_x = inr (at_index-Emitted reset_signals 7 refl);
  pose_y = inr (at_index-Emitted reset_signals 7 refl);
  pose_yaw = inr (at_index-Emitted reset_signals 7 refl);
  battery = inr (at_index-Emitted reset_signals 8 refl);
  has_robot_state = inr (at_index-Emitted reset_signals 9 refl);
  state_ts = inr (at_index-Emitted reset_signals 10 refl);
  task_id = inr (at_index-Emitted reset_signals 11 refl);
  task_type = inr (at_index-Emitted reset_signals 11 refl);
  task_status = inr (at_index-Emitted reset_signals 11 refl);
  fault_count = inr (at_index-Emitted reset_signals 12 refl);
  summary = inr (at_index-Emitted reset_signals 12 refl);
  nav_path_len = inr (at_index-Emitted reset_signals 0 refl);
  nav_idx = inr (at_index-Emitted reset_signals 0 refl);
  nav_trail = inr (at_index-Emitted reset_signals 1 refl);
  nav_trail_flat = inr (at_index-Emitted reset_signals 1 refl);
  rtt_ms = inr (at_index-Emitted reset_signals 13 refl);
  faults_list = inl refl;
  nav_status = inr (inl refl);
  nav_goal_x = inr (inl refl);
  nav_goal_y = inr (inl refl);
  nav_path = inr (inr (at_index-Emitted reset_signals 0 refl));
  nav_path_flat = inr (inr (at_index-Emitted reset_signals 0 refl));
  track_err = inl refl;
}
