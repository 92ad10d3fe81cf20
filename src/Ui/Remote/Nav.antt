-- ===== src/Ui/Remote/Nav.antt =====
-- The part of a robot state on nav (ui/botcockpit/src/robotstate.cpp, applyState).
use bot_cock_pit.Prelude.{
  Bool, not, ◌&&◌, ◌||◌, List, [], ◌∷◌, ◌++◌, if◌then◌else◌, length, ltb, ◌==◌,
}
use bot_cock_pit.Int.{ℤ}
use bot_cock_pit.Text.{Text, codes, text_eq, is_empty}
use bot_cock_pit.Ui.Remote.{Variants, Remote, longs_differ}

unfoldable pub status_or_idle : Text → Text
status_or_idle st = if is_empty st then codes "IDLE" else st

module _ (V : Variants) where
  abbrev pub text_in : V.Map → Text → Text
  text_in m key = V.to_text (V.value m key)

  -- The pairs, and the same numbers in one flat list.
  abbrev pub Points : Type 0
  Points = List (V.Double × V.Double) × List V.Double

  -- A pair that is not finite is passed over.
  unfoldable pub add_point : V.Double → V.Double → Points → Points
  add_point x y ps =
      if not (V.is_finite x) || not (V.is_finite y)
      then ps
      else (ps.0 ++ (x, y) ∷ [], ps.1 ++ x ∷ y ∷ [])

  unfoldable pub parse_flat : List V.Value → Points → Points
  unfolding add_point
  parse_flat (x ∷ y ∷ rest) ps = parse_flat rest (add_point (V.to_double x) (V.to_double y) ps)
  parse_flat _ ps = ps

  -- The numbers of one entry, `[x, y, ...]` or `{x, y}`.
  unfoldable pub pair_of : V.Value → List V.Value → V.Double × V.Double
  pair_of item (x ∷ y ∷ rest) = (V.to_double x, V.to_double y)
  pair_of item _ =
      let pm = V.to_map item in
      if V.contains pm (codes "x") && V.contains pm (codes "y")
      then (V.to_double (V.value pm (codes "x")), V.to_double (V.value pm (codes "y")))
      else (V.not_a_number, V.not_a_number)

  unfoldable pub parse_nested : List V.Value → Points → Points
  unfolding pair_of add_point
  parse_nested [] ps = ps
  parse_nested (item ∷ rest) ps =
      let xy = pair_of item (V.to_list item) in parse_nested rest (add_point xy.0 xy.1 ps)

  -- The flat list, or the nested one where the flat one has no point.
  unfoldable pub parse_xy : V.Value → V.Value → Points
  unfolding parse_flat parse_nested
  parse_xy flat_seq nested_seq =
      let ps =
        if ltb 1 (length (V.to_list flat_seq))
        then parse_flat (V.to_list flat_seq) ([], [])
        else ([], []) in
      if ltb 0 (length ps.0) then ps else parse_nested (V.to_list nested_seq) ps

  module _ (m : V.Map) where
    abbrev pub nav_of : V.Map
    nav_of = V.to_map (V.value m (codes "nav"))

    abbrev pub has_nav : Bool
    has_nav = V.is_map (V.value m (codes "nav"))

    abbrev pub nav_status_in : Text
    nav_status_in = text_in nav_of (codes "status")

    abbrev pub long_in_nav : Text → ℤ
    long_in_nav key = V.to_int (V.value nav_of key)

    abbrev pub goal_in : Text → V.Double
    goal_in key = V.to_double (V.value (V.to_map (V.value nav_of (codes "goal"))) key)

    abbrev pub track_err_in : V.Double
    track_err_in = V.to_double (V.value nav_of (codes "track_err"))

    abbrev pub path_in : Points
    path_in = parse_xy (V.value nav_of (codes "path_flat")) (V.value nav_of (codes "path"))

    abbrev pub trail_in : Points
    trail_in = parse_xy (V.value nav_of (codes "trail_flat")) (V.value nav_of (codes "trail"))

    abbrev pub nav_differs : Remote V → Bool
    nav_differs r =
        not (text_eq nav_status_in r.nav_status)
        || longs_differ (long_in_nav (codes "path_len")) r.nav_path_len
        || longs_differ (long_in_nav (codes "idx")) r.nav_idx
        || V.differ (goal_in (codes "x")) r.nav_goal_x
        || V.differ (goal_in (codes "y")) r.nav_goal_y
        || V.differ track_err_in r.track_err
        || not (length path_in.0 == length r.nav_path)
        || not (V.same_doubles path_in.1 r.nav_path_flat)

    -- The condition of navStatusChanged.
    abbrev pub new_nav : Remote V → Bool
    new_nav r = has_nav && nav_differs r

    abbrev pub new_trail : Remote V → Bool
    new_trail r =
        has_nav
        && (not (length trail_in.0 == length r.nav_trail)
            || not (V.same_doubles trail_in.1 r.nav_trail_flat))

    abbrev pub new_track_err : Remote V → Bool
    new_track_err r = has_nav && V.differ track_err_in r.track_err
