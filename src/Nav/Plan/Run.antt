-- ===== src/Nav/Plan/Run.antt =====
-- The rounds of astar's search (sim/include/botcockpit_sim/nav.hpp).
use bot_cock_pit.Prelude.{
  ℕ, zero, suc, ◌+◌, ◌*◌, ◌≤◌, ◌<◌, ◌≡◌, refl, ap, true, ◌&&◌, List, [], ◌∷◌, arith, if-intro,
  get_or, set, length, All, foldl-keeps,
}
use bot_cock_pit.Int.{ℤ}
use bot_cock_pit.Nav.Grid.{Grid}
use bot_cock_pit.Nav.Plan.{
  Singles, Search, target, can_step, dirs, score, stride, improve, relax, expand, take_least,
  before,
}
use bot_cock_pit.Nav.Plan.Chain.{Chain}
use bot_cock_pit.Nav.Plan.Sound.{
  IsRanked, IsUnit, target-bounds, IsSound, IsBetter, came_of, improve-chain, improve-IsSound,
}

module _ (S : Singles) (ranked : IsRanked S) where
  abbrev total : List S.Single → ℕ
  total [] = 0
  total (x ∷ xs) = ranked.rank x + total xs

  total-set :
      (xs : List S.Single) (i : ℕ) (v d : S.Single)
      → i < length xs
      → ranked.rank v < ranked.rank (get_or xs i d)
      → total (set xs i v) < total xs
  total-set [] i v d h k = absurd (omega arith)
  total-set (x ∷ xs) zero v d h k = omega (arith, k)
  total-set (x ∷ xs) (suc i) v d h k = omega (arith, total-set xs i v d (omega arith) k)

  -- Each round takes an entry off the queue, and each entry it adds costs a score two units.
  abbrev pub weight : Search S → ℕ
  weight st = 2 * total st.gscore + length st.queue

-- The entries of a queue are the least one and the others.
pub record IsTaken (S : Singles) (P : S.Single × ℕ → Type 0) (n : ℕ)
    (r : (S.Single × ℕ) × List (S.Single × ℕ)) : Type 0 where
  pub least : P r.0
  pub others : All P r.1
  pub size : length r.1 ≡ n

pub take_least-IsTaken :
    (S : Singles) (P : S.Single × ℕ → Type 0) (qs : List (S.Single × ℕ)) (q : S.Single × ℕ)
    → All P qs
    → P q
    → IsTaken S P (length qs) (take_least S qs q)
unfolding take_least
take_least-IsTaken S P [] q hs h = record { least = h; others = tt; size = refl }
take_least-IsTaken S P (x ∷ xs) q (k, ks) h =
    let v = take_least-IsTaken S P xs x ks k in
    if-intro (λ (r : (S.Single × ℕ) × List (S.Single × ℕ)). IsTaken S P (suc (length xs)) r)
      (before S (take_least S xs x).0 q)
      (λ _. record { least = v.least; others = (h, v.others); size = ap suc v.size })
      (λ _. record { least = h; others = (k, ks); size = refl })

module _ (S : Singles) (g : Grid) (goal : ℕ × ℕ) (s : ℕ) (ranked : IsRanked S) where
  -- What the loop over the neighbours of a cell keeps.
  pub record IsKept (cur w : ℕ) (st : Search S) : Type 0 where
    pub sound : IsSound S g goal s ranked st
    pub chain : Chain (came_of S g goal s ranked st) s cur
    pub weight_le : weight S ranked st ≤ w

  improve-weight :
      (st : Search S) (cur : ℕ) (d : ℤ × ℤ)
      → IsSound S g goal s ranked st
      → IsBetter S g goal s ranked st cur d
      → weight S ranked (improve S g goal cur d st) ≤ weight S ranked st
  unfolding improve score
  improve-weight st cur d v b = omega (
    arith,
    total-set S ranked st.gscore (target g cur d) _ S.infinity
        (omega (arith, v.sized_score, target-bounds g cur d b.steps)) b.lower,
  )

  relax-IsKept :
      (cur w : ℕ) (st : Search S) (d : ℤ × ℤ)
      → IsUnit d
      → IsKept cur w st
      → IsKept cur w (relax S g goal cur st d)
  unfolding relax
  relax-IsKept cur w st d u k =
      if-intro (λ (t : Search S). IsKept cur w t)
        (can_step g cur d
          && S.lt (S.add (score S g goal st cur) (stride S g goal d))
              (score S g goal st (target g cur d)))
        (λ h.
          let b : IsBetter S g goal s ranked st cur d = record {
            unit = u;
            steps = ground (arith, h);
            lower = ranked.rank-lt _ _ (ground (arith, h));
            chain = k.chain;
          } in
          record {
            sound = improve-IsSound S g goal s ranked st cur d k.sound b;
            chain = improve-chain S g goal s ranked st cur d k.sound b;
            weight_le = omega (arith, k.weight_le, improve-weight st cur d k.sound b);
          })
        (λ _. k)

  pub expand-IsKept :
      (cur w : ℕ) (st : Search S) → IsKept cur w st → IsKept cur w (expand S g goal cur st)
  unfolding expand
  expand-IsKept cur w st k =
      let u : (true ≡ true) × (true ≡ true) × (true ≡ true) = (refl, refl, refl) in
      foldl-keeps (λ t. IsKept cur w t) IsUnit (relax S g goal cur) (λ t d. relax-IsKept cur w t d)
        dirs st (u, (u, (u, (u, (u, (u, (u, (u, tt)))))))) k
