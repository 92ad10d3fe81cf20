-- ===== src/Nav/Plan/Reach.antt =====
-- The cells that astar's search has reached (sim/include/botcockpit_sim/nav.hpp).
use bot_cock_pit.Prelude.{
  ℕ, zero, suc, ◌*◌, ◌≡◌, ◌≢◌, sym, ap, subst, ◌∙◌, inl, inr, Bool, true, false, ◌&&◌, arith, ◌==◌,
  Bool-cases, if-intro, length, All, length-set, get_or-set, get_or-set_other,
}
use mathlib.Core.Bool.{true≢false}
use bot_cock_pit.Int.{ℤ, pos, negsuc, ◌+ℤ◌}
use bot_cock_pit.Nav.Grid.{Grid, at, outside}
use bot_cock_pit.Nav.Plan.{
  Singles, Search, is_diagonal, column, row, target, can_step, dirs, score, stride, improve, relax,
}
use bot_cock_pit.Nav.Plan.Sound.{IsStep, is_unit, has_moved, target-bounds}

-- Infinity is the greatest `float`, and a score does not overflow to it by one step.
pub record IsTopped (S : Singles) : Type 0 where
  pub zero_low : S.lt (S.lit 0 1) S.infinity ≡ true
  pub below : (a b : S.Single) → S.lt a b ≡ true → S.lt a S.infinity ≡ true
  pub straight_low :
      (a : S.Single) → S.lt a S.infinity ≡ true → S.lt (S.add a (S.lit 1 1)) S.infinity ≡ true
  pub diagonal_low :
      (a : S.Single)
      → S.lt a S.infinity ≡ true
      → S.lt (S.add a (S.lit 14142 10000)) S.infinity ≡ true

at-inside : (g : Grid) (x y : ℤ) → at g x y ≡ 0 → outside g x y ≡ false
unfolding at
at-inside g x y h = ground (arith, h)

pub IsStep-can_step : (g : Grid) (i j : ℕ) (t : IsStep g i j) → can_step g i (t.dx, t.dy) ≡ true
unfolding can_step
IsStep-can_step g i j t =
    let free = t.free in
    let inside = at-inside g (column g i +ℤ t.dx) (row g i +ℤ t.dy) free in
    let sx = t.side_x in let sy = t.side_y in ground (arith, free, inside, sx, sy)

-- What holds of the eight directions holds of every step.
pub dirs-all :
    (P : ℤ × ℤ → Type 0)
    → All P dirs
    → (dx dy : ℤ) → is_unit dx ≡ true
    → is_unit dy ≡ true
    → has_moved (dx, dy) ≡ true
    → P (dx, dy)
dirs-all P (e, (w, (n, (s, (ne, (se, (nw, (sw, u)))))))) (pos zero) (pos zero) a b c =
    absurd (ground (arith, c))
dirs-all P (e, (w, (n, (s, (ne, (se, (nw, (sw, u)))))))) (pos (suc zero)) (pos zero) a b c = e
dirs-all P (e, (w, (n, (s, (ne, (se, (nw, (sw, u)))))))) (negsuc zero) (pos zero) a b c = w
dirs-all P (e, (w, (n, (s, (ne, (se, (nw, (sw, u)))))))) (pos zero) (pos (suc zero)) a b c = n
dirs-all P (e, (w, (n, (s, (ne, (se, (nw, (sw, u)))))))) (pos zero) (negsuc zero) a b c = s
dirs-all P (e, (w, (n, (s, (ne, (se, (nw, (sw, u)))))))) (pos (suc zero)) (pos (suc zero)) a b c =
    ne
dirs-all P (e, (w, (n, (s, (ne, (se, (nw, (sw, u)))))))) (pos (suc zero)) (negsuc zero) a b c = se
dirs-all P (e, (w, (n, (s, (ne, (se, (nw, (sw, u)))))))) (negsuc zero) (pos (suc zero)) a b c = nw
dirs-all P (e, (w, (n, (s, (ne, (se, (nw, (sw, u)))))))) (negsuc zero) (negsuc zero) a b c = sw
dirs-all P h (pos (suc (suc x))) y a b c = absurd (ground (arith, a))
dirs-all P h (negsuc (suc x)) y a b c = absurd (ground (arith, a))
dirs-all P h x (pos (suc (suc y))) a b c = absurd (ground (arith, b))
dirs-all P h x (negsuc (suc y)) a b c = absurd (ground (arith, b))

module _ (S : Singles) (g : Grid) (goal : ℕ × ℕ) (top : IsTopped S) where
  abbrev pub is_reached : Search S → ℕ → Bool
  is_reached st i = S.lt (score S g goal st i) S.infinity

  -- A cell has a score, or none as yet; all scores that there are lie below infinity.
  pub record IsScored (st : Search S) : Type 0 where
    pub sized : length st.gscore ≡ g.width * g.height
    pub unscored : (i : ℕ) → is_reached st i ≡ false → score S g goal st i ≡ S.infinity

  module _ (cur : ℕ) (st : Search S) (d : ℤ × ℤ) where
    abbrev pub next_score : S.Single
    next_score = S.add (score S g goal st cur) (stride S g goal d)

    improve-score_here :
        IsScored st
        → can_step g cur d ≡ true
        → score S g goal (improve S g goal cur d st) (target g cur d) ≡ next_score
    unfolding improve score
    improve-score_here v h =
        get_or-set st.gscore (target g cur d) _ S.infinity
          (omega (arith, v.sized, target-bounds g cur d h))

    improve-score_other :
        (i : ℕ)
        → target g cur d ≢ i
        → score S g goal (improve S g goal cur d st) i ≡ score S g goal st i
    unfolding improve score
    improve-score_other i k = get_or-set_other st.gscore (target g cur d) i _ S.infinity k

    -- The test of `relax`.
    abbrev pub gets_better : Bool
    gets_better = can_step g cur d && S.lt next_score (score S g goal st (target g cur d))

    pub improve-reached :
        IsScored st
        → gets_better ≡ true
        → is_reached (improve S g goal cur d st) (target g cur d) ≡ true
    improve-reached v h =
        let steps : can_step g cur d ≡ true = ground (arith, h) in
        ap (λ a. S.lt a S.infinity) (improve-score_here v steps)
        ∙ top.below next_score (score S g goal st (target g cur d)) (ground (arith, h))

    pub improve-reached_other :
        (i : ℕ) → target g cur d ≢ i → is_reached (improve S g goal cur d st) i ≡ is_reached st i
    improve-reached_other i k = ap (λ a. S.lt a S.infinity) (improve-score_other i k)

    pub improve-IsScored : IsScored st → gets_better ≡ true → IsScored (improve S g goal cur d st)
    unfolding improve
    improve-IsScored v h = record {
      sized = length-set st.gscore (target g cur d) _ ∙ v.sized;
      unscored = λ i k. elim (Bool-cases (target g cur d == i)) [
        | inl same ↦
            let at_i : target g cur d ≡ i = ground (arith, same) in
            absurd (
              true≢false
                (sym (improve-reached v h) ∙ ap (is_reached (improve S g goal cur d st)) at_i ∙ k))
        | inr other ↦
            let apart : target g cur d ≢ i = λ e. absurd (ground (arith, e, other)) in
            improve-score_other i apart ∙ v.unscored i (sym (improve-reached_other i apart) ∙ k)
      ];
    }

    pub relax-IsScored : IsScored st → IsScored (relax S g goal cur st d)
    unfolding relax
    relax-IsScored v =
        if-intro (λ (t : Search S). IsScored t) gets_better {x = improve S g goal cur d st} {y = st}
          (λ h. improve-IsScored v h) (λ _. v)

    pub improve-keeps :
        IsScored st
        → gets_better ≡ true
        → (i : ℕ) → is_reached st i ≡ true
        → is_reached (improve S g goal cur d st) i ≡ true
    improve-keeps v h i r = elim (Bool-cases (target g cur d == i)) [
      | inl same ↦
          let at_i : target g cur d ≡ i = ground (arith, same) in
          subst (λ i. is_reached (improve S g goal cur d st) i ≡ true) at_i (improve-reached v h)
      | inr other ↦ improve-reached_other i (λ e. absurd (ground (arith, e, other))) ∙ r
    ]

    pub relax-reached :
        IsScored st
        → (i : ℕ) → is_reached st i ≡ true
        → is_reached (relax S g goal cur st d) i ≡ true
    unfolding relax
    relax-reached v i r =
        if-intro (λ (t : Search S). is_reached t i ≡ true) gets_better
          {x = improve S g goal cur d st} {y = st} (λ h. improve-keeps v h i r) (λ _. r)

    stride-low : is_reached st cur ≡ true → S.lt next_score S.infinity ≡ true
    stride-low r =
        if-intro (λ a. S.lt (S.add (score S g goal st cur) a) S.infinity ≡ true) (is_diagonal g d)
          (λ _. top.diagonal_low _ r) (λ _. top.straight_low _ r)

    -- A neighbour of a reached cell is reached once the step to it has been looked at.
    pub relax-hits :
        IsScored st
        → is_reached st cur ≡ true
        → can_step g cur d ≡ true
        → is_reached (relax S g goal cur st d) (target g cur d) ≡ true
    unfolding relax
    relax-hits v r h =
        if-intro (λ (t : Search S). is_reached t (target g cur d) ≡ true) gets_better
          {x = improve S g goal cur d st} {y = st} (λ b. improve-reached v b)
          (λ b. elim (Bool-cases (is_reached st (target g cur d))) [
            | inl hit ↦ hit
            | inr miss ↦
                let top_here = v.unscored (target g cur d) miss in
                let low = stride-low r in
                let high : S.lt next_score (score S g goal st (target g cur d)) ≡ false =
                  ground (arith, b, h) in
                absurd (true≢false (sym low ∙ ap (S.lt next_score) (sym top_here) ∙ high))
          ])
