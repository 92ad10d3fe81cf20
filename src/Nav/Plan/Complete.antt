-- ===== src/Nav/Plan/Complete.antt =====
-- What it means that astar's search finds nothing (sim/include/botcockpit_sim/nav.hpp).
use mathlib.Core.Bool.{true≢false}
use bot_cock_pit.Prelude.{
  ℕ, zero, suc, ◌*◌, ◌≤◌, ◌<◌, ◌≡◌, ◌≢◌, refl, sym, ap, ◌∙◌, inl, inr, true, false, List, [], ◌∷◌,
  Option, none, some, arith, ◌==◌, ==-refl, Bool-cases, length-set, get_or-set, get_or-set_other,
}
use bot_cock_pit.Int.{pos}
use bot_cock_pit.Nav.Grid.{Grid, index}
use bot_cock_pit.Nav.Plan.{
  Singles, Search, Outcome, no_way, way, arrive, trace, score, expand, take_least, loop, opening,
  find_way, copies,
}
use bot_cock_pit.Nav.Plan.Sound.{IsRanked, inside-index}
use bot_cock_pit.Nav.Plan.Reach.{IsTopped, is_reached}
use bot_cock_pit.Nav.Plan.Run.{take_least-IsTaken}
use bot_cock_pit.Nav.Plan.Closed.{
  here, take_least-Queued, goal_cell, current, queued, closed, IsExpanding, IsSearching,
  expand-IsSearching,
}
use bot_cock_pit.Nav.Plan.Route.{
  IsWay, stay, go, IsDone, none_left, found, elim-intro, length-copies, get_or-copies,
  find_way-IsDone,
}

arrives : (o : Option (List ℕ)) → arrive o ≢ no_way
arrives none e = ground (arith, e)
arrives (some is) e = ground (arith, e)

module _ (S : Singles) (g : Grid) (goal : ℕ × ℕ) (top : IsTopped S) (s : ℕ) where
  -- With an empty queue, all that a way leads to is reached and is not the goal.
  way-reached :
      (came : List (Option ℕ)) (gscore : List S.Single) {i : ℕ} {is : List ℕ}
      → IsSearching S g goal top s (record { came = came; gscore = gscore; queue = [] })
      → IsWay g s i is
      → is_reached S g goal top (record { came = came; gscore = gscore; queue = [] }) i ≡ true
  way-reached came gscore v stay = v.begun
  way-reached came gscore v (go {i} {j} step w) = elim (v.covered j (way-reached came gscore v w)) [
    | inl q ↦ elim q [ ]
    | inr c ↦ c.steps i step
  ]

  -- Taking an entry off the queue makes its cell the current one.
  popped-IsExpanding :
      (came : List (Option ℕ)) (gscore : List S.Single) (q : S.Single × ℕ)
      (qs : List (S.Single × ℕ))
      → IsSearching S g goal top s (record { came = came; gscore = gscore; queue = q ∷ qs })
      → IsExpanding S g goal top
          (take_least S qs q).0.1
          s
          (record { came = came; gscore = gscore; queue = (take_least S qs q).1 })
  unfolding score
  popped-IsExpanding came gscore q qs v =
      let taken = take_least-IsTaken S _ qs q v.waiting.1 v.waiting.0 in
      record {
        scored = record { sized = v.scored.sized; unscored = v.scored.unscored };
        begun = v.begun;
        active = taken.least;
        covered = λ i r. elim (v.covered i r) [
          | inl k ↦ elim (take_least-Queued S i qs q k) [ inl e ↦ current e | inr o ↦ queued o ]
          | inr c ↦ closed (record { apart = c.apart; steps = c.steps })
        ];
        waiting = taken.others;
      }

  loop-misses :
      (rounds n : ℕ) (came : List (Option ℕ)) (gscore : List S.Single) (queue : List (S.Single × ℕ))
      → IsSearching S g goal top s (record { came = came; gscore = gscore; queue = queue })
      → {is : List ℕ} → IsWay g s (goal_cell S g goal top) is
      → loop S g goal rounds n (record { came = came; gscore = gscore; queue = queue }) ≢ no_way
  unfolding loop
  loop-misses rounds zero came gscore queue v w = λ e. ground (arith, e)
  loop-misses rounds (suc n) came gscore [] v w = λ e.
      elim (v.covered _ (way-reached came gscore v w)) [
        | inl q ↦ elim q [ ]
        | inr c ↦ absurd (true≢false (sym (==-refl (goal_cell S g goal top)) ∙ c.apart))
      ]
  loop-misses rounds (suc n) came gscore (q ∷ qs) v w =
      let least = (take_least S qs q).0 in
      let st : Search S = record { came = came; gscore = gscore; queue = (take_least S qs q).1 } in
      let next = expand S g goal least.1 st in
      elim-intro (λ (o : Outcome). o ≢ no_way) (least.1 == goal_cell S g goal top)
        {x = arrive (trace rounds came least.1)} {y = loop S g goal rounds n next} (λ _. arrives _)
        (λ other.
          loop-misses rounds n next.came next.gscore next.queue
            (expand-IsSearching S g goal top least.1 s st other
              (popped-IsExpanding came gscore q qs v))
            w)

module _ (S : Singles) (ranked : IsRanked S) (top : IsTopped S) (g : Grid)
    (goal start : ℕ × ℕ) where
  abbrev start_cell : ℕ
  start_cell = index g (pos start.0) (pos start.1)

  opening-score_begin :
      start_cell < g.width * g.height
      → score S g goal (opening S g goal start) start_cell ≡ S.lit 0 1
  unfolding opening score
  opening-score_begin h =
      let n = g.width * g.height in
      get_or-set (copies n S.infinity) start_cell (S.lit 0 1) S.infinity
        (omega (arith, length-copies n S.infinity))

  opening-score_other :
      (i : ℕ) → start_cell ≢ i → score S g goal (opening S g goal start) i ≡ S.infinity
  unfolding opening score
  opening-score_other i h =
      let n = g.width * g.height in
      get_or-set_other (copies n S.infinity) start_cell i (S.lit 0 1) S.infinity h
      ∙ get_or-copies n i S.infinity

  opening-begun :
      start_cell < g.width * g.height
      → is_reached S g goal top (opening S g goal start) start_cell ≡ true
  opening-begun h = ap (λ a. S.lt a S.infinity) (opening-score_begin h) ∙ top.zero_low

  -- Only the start is reached at first.
  opening-reached :
      (i : ℕ) → is_reached S g goal top (opening S g goal start) i ≡ true → start_cell ≡ i
  opening-reached i r = elim (Bool-cases (start_cell == i)) [
    | inl same ↦ ground (arith, same)
    | inr other ↦
        let apart : start_cell ≢ i = λ e. absurd (ground (arith, e, other)) in
        let high =
          ranked.rank-lt S.infinity S.infinity
            (sym (ap (λ a. S.lt a S.infinity) (opening-score_other i apart)) ∙ r) in
        absurd (omega (arith, high))
  ]

  opening-unscored :
      (i : ℕ)
      → start_cell < g.width * g.height
      → is_reached S g goal top (opening S g goal start) i ≡ false
      → score S g goal (opening S g goal start) i ≡ S.infinity
  opening-unscored i h r = opening-score_other i (λ e. absurd (
      true≢false
        (sym (opening-begun h) ∙ ap (is_reached S g goal top (opening S g goal start)) e ∙ r)))

  opening-IsSearching :
      start_cell < g.width * g.height → IsSearching S g goal top start_cell (opening S g goal start)
  unfolding opening
  opening-IsSearching h =
      let n = g.width * g.height in
      record {
        scored = record {
          sized =
              length-set (copies n S.infinity) start_cell (S.lit 0 1) ∙ length-copies n S.infinity;
          unscored = λ i. opening-unscored i h;
        };
        begun = opening-begun h;
        covered = λ i r. inl (here (opening-reached i r));
        waiting = (opening-begun h, tt);
      }

  finds :
      (o : Outcome)
      → o ≢ no_way
      → IsDone g start_cell (goal_cell S g goal top) o
      → (is : List ℕ) × (o ≡ way is) × IsWay g start_cell (goal_cell S g goal top) is
  finds o h none_left = absurd (h refl)
  finds o h (found w) = (_, refl, w)

  -- If there is a way of legal steps from a start on the grid to the goal, then with enough
  -- rounds the search finds a way of legal steps between them; the floats are ordered by ranks,
  -- adding a literal never leads down, and adding a step to less than infinity stays below it.
  pub find_way-finds :
      {is : List ℕ}
      → start.0 < g.width
      → start.1 < g.height
      → IsWay g start_cell (goal_cell S g goal top) is
      → (b : ℕ) × ((rounds : ℕ)
          → b ≤ rounds
          → (js : List ℕ) × (find_way S g goal rounds start ≡ way js)
            × IsWay g start_cell (goal_cell S g goal top) js)
  unfolding find_way
  find_way-finds hx hy w =
      let st = opening S g goal start in
      let h = inside-index g (pos start.0) (pos start.1) (ground (arith, hx, hy)) in
      let (b, done) = find_way-IsDone S ranked g goal start in
      (
        b,
        λ rounds k.
            finds _
              (loop-misses S g goal top start_cell rounds rounds st.came st.gscore st.queue
                (opening-IsSearching h) w)
              (done rounds k),
      )
