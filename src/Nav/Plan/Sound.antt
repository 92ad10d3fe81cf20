-- ===== src/Nav/Plan/Sound.antt =====
-- The state of astar's search (sim/include/botcockpit_sim/nav.hpp) while it runs.
use native.Mathlib.Nat.{mul-le-mul_right}
use bot_cock_pit.Prelude.{
  ℕ, suc, ◌+◌, ◌*◌, ◌≤◌, ◌<◌, ◌≡◌, ◌≢◌, refl, sym, ap, subst, some_inj, ◌∙◌, inl, inr, Bool, true,
  false, Option, none, some, arith, leb, ltb, ◌==◌, Bool-cases, if-intro, get_or, length, All,
  length-set, get_or-set, get_or-set_other, All-map,
}
use bot_cock_pit.Int.{ℤ, pos, negsuc, ◌+ℤ◌, pos_part, neg_part}
use bot_cock_pit.Nav.Grid.{Grid, at, outside, index}
use bot_cock_pit.Nav.Plan.{
  Singles, Search, is_diagonal, column, row, target, can_step, score, stride, improve,
}
use bot_cock_pit.Nav.Plan.Chain.{
  Chain, next, Descends, Chain-rank, Redirects, Chain-avoids, Chain-redirected,
}

-- The order of `float`, by ranks that are numbers. Nothing lies below a `float` that is not a number, and
-- adding a literal, which has no sign, never leads down.
pub record IsRanked (S : Singles) : Type 0 where
  pub rank : S.Single → ℕ
  pub rank-lt : (a b : S.Single) → S.lt a b ≡ true → rank a < rank b
  pub rank-add : (a : S.Single) (n d : ℕ) → rank a ≤ rank (S.add a (S.lit n d))

abbrev pub is_unit : ℤ → Bool
is_unit d = leb (pos_part d + neg_part d) 1

abbrev pub has_moved : ℤ × ℤ → Bool
has_moved d = ltb 0 (pos_part d.0 + neg_part d.0 + pos_part d.1 + neg_part d.1)

-- A step to one of the eight neighbours, into a free cell and past no corner that is occupied.
pub record IsStep (g : Grid) (i j : ℕ) : Type 0 where
  pub dx : ℤ
  pub dy : ℤ
  pub unit_x : is_unit dx ≡ true
  pub unit_y : is_unit dy ≡ true
  pub moved : has_moved (dx, dy) ≡ true
  pub free : at g (column g i +ℤ dx) (row g i +ℤ dy) ≡ 0
  pub side_x : is_diagonal g (dx, dy) ≡ true → at g (column g i +ℤ dx) (row g i) ≡ 0
  pub side_y : is_diagonal g (dx, dy) ≡ true → at g (column g i) (row g i +ℤ dy) ≡ 0
  pub lands : target g i (dx, dy) ≡ j

abbrev pub IsUnit : ℤ × ℤ → Type 0
IsUnit d = (is_unit d.0 ≡ true) × (is_unit d.1 ≡ true) × (has_moved d ≡ true)

can_step-IsStep :
    (g : Grid) (i : ℕ) (d : ℤ × ℤ) → IsUnit d → can_step g i d ≡ true → IsStep g i (target g i d)
unfolding can_step
can_step-IsStep g i (dx, dy) (ux, uy, moved) h = record {
  dx = dx;
  dy = dy;
  unit_x = ux;
  unit_y = uy;
  moved = moved;
  free = ground (arith, h);
  side_x = λ k. ground (arith, h, k);
  side_y = λ k. ground (arith, h, k);
  lands = refl;
}

pub inside-index : (g : Grid) (x y : ℤ) → outside g x y ≡ false → index g x y < g.width * g.height
inside-index g (pos x) (pos y) h =
    let low : suc y ≤ g.height = ground (arith, h) in
    let left : x < g.width = ground (arith, h) in omega (arith, left, mul-le-mul_right g.width low)
inside-index g (pos x) (negsuc y) h = absurd (ground (arith, h))
inside-index g (negsuc x) y h = absurd (ground (arith, h))

pub target-bounds :
    (g : Grid) (i : ℕ) (d : ℤ × ℤ) → can_step g i d ≡ true → target g i d < g.width * g.height
unfolding can_step
target-bounds g i d h = inside-index g (column g i +ℤ d.0) (row g i +ℤ d.1) (ground (arith, h))

module _ (S : Singles) (g : Grid) (goal : ℕ × ℕ) (s : ℕ) (ranked : IsRanked S) where
  abbrev pub came_of : Search S → ℕ → Option ℕ
  came_of st i = get_or st.came i none

  abbrev pub rank_of : Search S → ℕ → ℕ
  unfolding score
  rank_of st i = ranked.rank (score S g goal st i)

  -- Every predecessor is one step back and has no higher score, and from every cell in the queue the
  -- predecessors lead to the start.
  pub record IsSound (st : Search S) : Type 0 where
    pub rooted : came_of st s ≡ none
    pub sized_came : length st.came ≡ g.width * g.height
    pub sized_score : length st.gscore ≡ g.width * g.height
    pub stepped : (i j : ℕ) → came_of st i ≡ some j → IsStep g j i
    pub descends : Descends (came_of st) (rank_of st)
    pub chained : All (λ (q : S.Single × ℕ). Chain (came_of st) s q.1) st.queue

  pub record IsBetter (st : Search S) (cur : ℕ) (d : ℤ × ℤ) : Type 0 where
    pub unit : IsUnit d
    pub steps : can_step g cur d ≡ true
    pub lower :
        ranked.rank (S.add (score S g goal st cur) (stride S g goal d))
        < rank_of st (target g cur d)
    pub chain : Chain (came_of st) s cur

  stride-rank :
      (a : S.Single) (d : ℤ × ℤ) → ranked.rank a ≤ ranked.rank (S.add a (stride S g goal d))
  stride-rank a d =
      if-intro (λ b. ranked.rank a ≤ ranked.rank (S.add a b)) (is_diagonal g d)
        (λ _. ranked.rank-add a 14142 10000) (λ _. ranked.rank-add a 1 1)

  module _ (st : Search S) (cur : ℕ) (d : ℤ × ℤ) (v : IsSound st) (b : IsBetter st cur d) where
    abbrev here : ℕ
    here = target g cur d

    abbrev pub after : Search S
    unfolding improve
    after = improve S g goal cur d st

    improve-Redirects : Redirects (came_of st) (came_of after) here
    unfolding improve
    improve-Redirects = record { others = λ i k. get_or-set_other st.came here i (some cur) none k }

    improve-here : came_of after here ≡ some cur
    unfolding improve
    improve-here =
        get_or-set st.came here (some cur) none
          (omega (arith, v.sized_came, target-bounds g cur d b.steps))

    improve-rank_here :
        rank_of after here ≡ ranked.rank (S.add (score S g goal st cur) (stride S g goal d))
    unfolding improve score
    improve-rank_here = ap ranked.rank (
        get_or-set st.gscore here _ S.infinity
          (omega (arith, v.sized_score, target-bounds g cur d b.steps)))

    improve-rank_other : (i : ℕ) → here ≢ i → rank_of after i ≡ rank_of st i
    unfolding improve score
    improve-rank_other i k = ap ranked.rank (get_or-set_other st.gscore here i _ S.infinity k)

    low : rank_of st cur < rank_of st here
    unfolding rank_of
    low = omega (arith, b.lower, stride-rank (score S g goal st cur) d)

    pub improve-chain : Chain (came_of after) s cur
    improve-chain = Chain-avoids improve-Redirects (rank_of st) v.descends low b.chain

    improve-rooted : came_of after s ≡ none
    unfolding rank_of
    improve-rooted =
        improve-Redirects.others s (λ e.
          absurd
            (omega (arith, low, ap (rank_of st) e, Chain-rank (rank_of st) v.descends b.chain)))
        ∙ v.rooted

    -- A predecessor is the new one or an old one.
    data IsOldOrNew (i j : ℕ) : Type 0 where
      new : here ≡ i → cur ≡ j → IsOldOrNew i j
      old : here ≢ i → came_of st i ≡ some j → IsOldOrNew i j

    improve-IsOldOrNew : (i j : ℕ) → came_of after i ≡ some j → IsOldOrNew i j
    improve-IsOldOrNew i j e = elim (Bool-cases (here == i)) [
      | inl same ↦
          let at_i : here ≡ i = ground (arith, same) in
          new at_i (some_inj (sym improve-here ∙ ap (came_of after) at_i ∙ e))
      | inr other ↦
          let apart : here ≢ i = λ k. absurd (ground (arith, k, other)) in
          old apart (sym (improve-Redirects.others i apart) ∙ e)
    ]

    improve-stepped : (i j : ℕ) → came_of after i ≡ some j → IsStep g j i
    improve-stepped i j e = elim (improve-IsOldOrNew i j e) [
      | new at_i at_j ↦
          subst (λ k. IsStep g j k) at_i
            (subst (λ k. IsStep g k here) at_j (can_step-IsStep g cur d b.unit b.steps))
      | old apart k ↦ v.stepped i j k
    ]

    -- No score has become higher.
    improve-falls : (i : ℕ) → rank_of after i ≤ rank_of st i
    improve-falls i = elim (Bool-cases (here == i)) [
      | inl same ↦
          let at_i : here ≡ i = ground (arith, same) in
          subst (λ i. rank_of after i ≤ rank_of st i) at_i
            (omega (arith, improve-rank_here, b.lower))
      | inr other ↦ omega (arith, improve-rank_other i (λ k. absurd (ground (arith, k, other))))
    ]

    improve-Descends : Descends (came_of after) (rank_of after)
    unfolding rank_of
    improve-Descends i j e = elim (improve-IsOldOrNew i j e) [
      | new at_i at_j ↦
          subst (λ i. rank_of after j ≤ rank_of after i) at_i
            (subst (λ j. rank_of after j ≤ rank_of after here) at_j
              (omega (
                arith,
                improve-falls cur,
                improve-rank_here,
                stride-rank (score S g goal st cur) d,
              )))
      | old apart k ↦ omega (arith, improve-falls j, improve-rank_other i apart, v.descends i j k)
    ]

    pub improve-IsSound : IsSound after
    unfolding improve
    improve-IsSound = record {
      rooted = improve-rooted;
      sized_came = length-set st.came here (some cur) ∙ v.sized_came;
      sized_score = length-set st.gscore here _ ∙ v.sized_score;
      stepped = improve-stepped;
      descends = improve-Descends;
      chained = (
        next improve-here improve-chain,
        All-map _ _ st.queue (λ q. Chain-redirected improve-Redirects improve-here improve-chain)
            v.chained,
      );
    }
