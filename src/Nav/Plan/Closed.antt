-- ===== src/Nav/Plan/Closed.antt =====
-- The cells that astar's search has looked at (sim/include/botcockpit_sim/nav.hpp).
use mathlib.Core.List.{foldl}
use bot_cock_pit.Prelude.{
  ℕ, ◌≡◌, ◌≢◌, ◌⊎◌, sym, subst, ◌∙◌, inl, inr, true, false, List, [], ◌∷◌, arith, ◌==◌, Bool-cases,
  if-intro, if-both, All, All-map,
}
use bot_cock_pit.Int.{ℤ, pos}
use bot_cock_pit.Nav.Grid.{Grid, index}
use bot_cock_pit.Nav.Plan.{
  Singles, Search, target, can_step, dirs, improve, relax, expand, take_least, before,
}
use bot_cock_pit.Nav.Plan.Sound.{IsStep}
use bot_cock_pit.Nav.Plan.Reach.{
  IsTopped, IsStep-can_step, dirs-all, is_reached, IsScored, gets_better, improve-reached_other,
  improve-keeps, improve-reached, improve-IsScored, relax-IsScored, relax-reached, relax-hits,
}

pub data Queued (S : Singles) (i : ℕ) : List (S.Single × ℕ) → Type 0 where
  here : {q : S.Single × ℕ} {qs : List (S.Single × ℕ)} → q.1 ≡ i → Queued S i (q ∷ qs)
  there : {q : S.Single × ℕ} {qs : List (S.Single × ℕ)} → Queued S i qs → Queued S i (q ∷ qs)

-- Where a queued cell is after the least entry has been taken.
abbrev pub Split : (S : Singles) → ℕ → (S.Single × ℕ) × List (S.Single × ℕ) → Type 0
Split S i r = (r.0.1 ≡ i) ⊎ Queued S i r.1

pub take_least-Queued :
    (S : Singles) (i : ℕ) (qs : List (S.Single × ℕ)) (q : S.Single × ℕ)
    → Queued S i (q ∷ qs)
    → Split S i (take_least S qs q)
unfolding take_least
take_least-Queued S i [] q (here e) = inl e
take_least-Queued S i [] q (there t) = elim t [ ]
take_least-Queued S i (x ∷ xs) q (here e) =
    let (least, others) = take_least S xs x in
    if-both (Split S i) (before S least q) {x = (least, q ∷ others)} {y = (q, x ∷ xs)}
      (inr (here e)) (inl e)
take_least-Queued S i (x ∷ xs) q (there t) =
    let (least, others) = take_least S xs x in
    if-both (Split S i) (before S least q) {x = (least, q ∷ others)} {y = (q, x ∷ xs)}
      (elim (take_least-Queued S i xs x t) [ inl e ↦ inl e | inr o ↦ inr (there o) ]) (inr t)

module _ (S : Singles) (g : Grid) (goal : ℕ × ℕ) (top : IsTopped S) where
  abbrev pub goal_cell : ℕ
  goal_cell = index g (pos goal.0) (pos goal.1)

  -- A cell that has been looked at: it is not the goal, and all its neighbours are reached.
  pub record IsClosed (st : Search S) (i : ℕ) : Type 0 where
    pub apart : (i == goal_cell) ≡ false
    pub steps : (j : ℕ) → IsStep g i j → is_reached S g goal top st j ≡ true

  -- A reached cell, while the neighbours of `cur` are looked at.
  pub data Covered (cur : ℕ) (st : Search S) (i : ℕ) : Type 0 where
    current : cur ≡ i → Covered cur st i
    queued : Queued S i st.queue → Covered cur st i
    closed : IsClosed st i → Covered cur st i

  pub record IsExpanding (cur s : ℕ) (st : Search S) : Type 0 where
    pub scored : IsScored S g goal top st
    pub begun : is_reached S g goal top st s ≡ true
    pub active : is_reached S g goal top st cur ≡ true
    pub covered : (i : ℕ) → is_reached S g goal top st i ≡ true → Covered cur st i
    pub waiting : All (λ (q : S.Single × ℕ). is_reached S g goal top st q.1 ≡ true) st.queue

  pub record IsSearching (s : ℕ) (st : Search S) : Type 0 where
    pub scored : IsScored S g goal top st
    pub begun : is_reached S g goal top st s ≡ true
    pub covered :
        (i : ℕ) → is_reached S g goal top st i ≡ true → Queued S i st.queue ⊎ IsClosed st i
    pub waiting : All (λ (q : S.Single × ℕ). is_reached S g goal top st q.1 ≡ true) st.queue

  module _ (cur s : ℕ) (st : Search S) (d : ℤ × ℤ) where
    improve-Covered :
        IsExpanding cur s st
        → gets_better S g goal top cur st d ≡ true
        → (i : ℕ) → is_reached S g goal top (improve S g goal cur d st) i ≡ true
        → Covered cur (improve S g goal cur d st) i
    unfolding improve
    improve-Covered v h i r = elim (Bool-cases (target g cur d == i)) [
      | inl same ↦ queued (here (ground (arith, same)))
      | inr other ↦
          let apart : target g cur d ≢ i = λ e. absurd (ground (arith, e, other)) in
          elim (v.covered i (sym (improve-reached_other S g goal top cur st d i apart) ∙ r)) [
            | current e ↦ current e
            | queued q ↦ queued (there q)
            | closed c ↦ closed (record {
              apart = c.apart;
              steps = λ j t. improve-keeps S g goal top cur st d v.scored h j (c.steps j t);
            })
          ]
    ]

    relax-IsExpanding : IsExpanding cur s st → IsExpanding cur s (relax S g goal cur st d)
    unfolding relax improve
    relax-IsExpanding v =
        if-intro (λ (t : Search S). IsExpanding cur s t) (gets_better S g goal top cur st d)
          {x = improve S g goal cur d st} {y = st}
          (λ h. record {
            scored = improve-IsScored S g goal top cur st d v.scored h;
            begun = improve-keeps S g goal top cur st d v.scored h s v.begun;
            active = improve-keeps S g goal top cur st d v.scored h cur v.active;
            covered = improve-Covered v h;
            waiting = (
              improve-reached S g goal top cur st d v.scored h,
              All-map _ _ st.queue (λ q. improve-keeps S g goal top cur st d v.scored h q.1)
                  v.waiting,
            );
          })
          (λ _. v)

  module _ (cur s : ℕ) where
    fold-IsExpanding :
        (ds : List (ℤ × ℤ)) (st : Search S)
        → IsExpanding cur s st
        → IsExpanding cur s (foldl (relax S g goal cur) st ds)
    fold-IsExpanding [] st v = v
    fold-IsExpanding (d ∷ ds) st v = fold-IsExpanding ds _ (relax-IsExpanding cur s st d v)

    fold-reached :
        (ds : List (ℤ × ℤ)) (st : Search S) (i : ℕ)
        → IsScored S g goal top st
        → is_reached S g goal top st i ≡ true
        → is_reached S g goal top (foldl (relax S g goal cur) st ds) i ≡ true
    fold-reached [] st i v r = r
    fold-reached (d ∷ ds) st i v r =
        fold-reached ds _ i (relax-IsScored S g goal top cur st d v)
          (relax-reached S g goal top cur st d v i r)

    fold-hits :
        (ds : List (ℤ × ℤ)) (st : Search S)
        → IsExpanding cur s st
        → All
            (λ d.
              can_step g cur d ≡ true
              → is_reached S g goal top (foldl (relax S g goal cur) st ds) (target g cur d) ≡ true)
            ds
    fold-hits [] st v = tt
    fold-hits (d ∷ ds) st v =
        let w = relax-IsExpanding cur s st d v in
        (
          λ h.
              fold-reached ds (relax S g goal cur st d) (target g cur d) w.scored
                (relax-hits S g goal top cur st d v.scored v.active h),
          fold-hits ds (relax S g goal cur st d) w,
        )

    -- When its neighbours have been looked at, a cell is closed.
    pub expand-IsSearching :
        (st : Search S)
        → (cur == goal_cell) ≡ false
        → IsExpanding cur s st
        → IsSearching s (expand S g goal cur st)
    unfolding expand
    expand-IsSearching st other v =
        let t = foldl (relax S g goal cur) st dirs in
        let w = fold-IsExpanding dirs st v in
        let P = λ (d : ℤ × ℤ).
          can_step g cur d ≡ true → is_reached S g goal top t (target g cur d) ≡ true in
        let done : IsClosed t cur = record {
          apart = other;
          steps = λ j k.
              subst (λ j. is_reached S g goal top t j ≡ true) k.lands
                (dirs-all P (fold-hits dirs st v) k.dx k.dy k.unit_x k.unit_y k.moved
                  (IsStep-can_step g cur j k));
        } in
        record {
          scored = w.scored;
          begun = w.begun;
          covered = λ i r. elim (w.covered i r) [
            | current e ↦ inr (subst (IsClosed t) e done)
            | queued q ↦ inl q
            | closed c ↦ inr c
          ];
          waiting = w.waiting;
        }
