-- ===== src/Nav/Plan/Route.antt =====
-- What astar's search finds (sim/include/botcockpit_sim/nav.hpp).
use bot_cock_pit.Prelude.{
  ℕ, zero, suc, ◌+◌, ◌*◌, ◌≤◌, ◌<◌, ◌≡◌, refl, sym, ap, subst, ◌∙◌, inl, inr, Bool, true, false,
  List, [], ◌∷◌, Option, none, some, arith, ◌==◌, Bool-cases, get_or, length, length-set,
}
use mathlib.Core.Option.{none-ne-some}
use bot_cock_pit.Int.{pos}
use bot_cock_pit.Nav.Grid.{Grid, index}
use bot_cock_pit.Nav.Plan.{
  Singles, Search, Outcome, no_way, way, trace, arrive, loop, expand, take_least, opening, find_way,
  copies,
}
use bot_cock_pit.Nav.Plan.Chain.{Chain, start, next}
use bot_cock_pit.Nav.Plan.Sound.{IsRanked, IsStep, IsSound, came_of}
use bot_cock_pit.Nav.Plan.Run.{weight, take_least-IsTaken, expand-IsKept}

-- A way from `s`, its last cell first.
pub data IsWay (g : Grid) (s : ℕ) : ℕ → List ℕ → Type 0 where
  stay : IsWay g s s (s ∷ [])
  go : {i j : ℕ} {is : List ℕ} → IsStep g j i → IsWay g s j is → IsWay g s i (i ∷ is)

pub data IsDone (g : Grid) (s goal : ℕ) : Outcome → Type 0 where
  none_left : IsDone g s goal no_way
  found : {is : List ℕ} → IsWay g s goal is → IsDone g s goal (way is)

-- What holds of every successor from `b` on holds of every number after `b`.
after-suc {ℓ} : (P : ℕ → Type ℓ) (b : ℕ) → ((n : ℕ) → b ≤ n → P (suc n)) → (n : ℕ) → suc b ≤ n → P n
after-suc P b h zero k = absurd (omega arith)
after-suc P b h (suc n) k = h n (omega arith)

module _ (g : Grid) (s : ℕ) (came : List (Option ℕ)) where
  trace-IsDone :
      {i : ℕ}
      → get_or came s none ≡ none
      → ((i j : ℕ) → get_or came i none ≡ some j → IsStep g j i)
      → Chain (λ i. get_or came i none) s i
      → (b : ℕ) × ((n : ℕ) → b ≤ n → (is : List ℕ) × (trace n came i ≡ some is) × IsWay g s i is)
  unfolding trace
  trace-IsDone rooted steps start =
      let P = λ (n : ℕ). (is : List ℕ) × (trace n came s ≡ some is) × IsWay g s s is in
      (1, after-suc P 0 (λ n h. (s ∷ [], rw (rooted, trace) refl, stay)))
  trace-IsDone rooted steps (next {i} {j} e t) =
      let P = λ (n : ℕ). (is : List ℕ) × (trace n came i ≡ some is) × IsWay g s i is in
      let (b, more) = trace-IsDone rooted steps t in
      (
        suc b,
        after-suc P b (λ n h.
            let (is, eq, w) = more n h in (i ∷ is, rw (e, eq, trace) refl, go (steps i j e) w)),
      )

-- A case on a test, as `loop` does it.
pub elim-intro {ℓ κ} :
    {A : Type ℓ} (P : A → Type κ) (b : Bool) {x y : A}
    → (b ≡ true → P x)
    → (b ≡ false → P y)
    → P (elim b [ true ↦ x | false ↦ y ])
elim-intro P true h k = h refl
elim-intro P false h k = k refl

module _ (S : Singles) (g : Grid) (goal : ℕ × ℕ) (s : ℕ) (ranked : IsRanked S) where
  abbrev goal_cell : ℕ
  goal_cell = index g (pos goal.0) (pos goal.1)

  abbrev Finishes : ℕ → Search S → Type 0
  unfolding loop
  Finishes w st =
      (b : ℕ) × ((rounds n : ℕ)
        → b ≤ rounds
        → w ≤ n
        → IsDone g s goal_cell (loop S g goal rounds n st))

  arrive-IsDone :
      (st : Search S) (i : ℕ)
      → IsSound S g goal s ranked st
      → Chain (came_of S g goal s ranked st) s i
      → i ≡ goal_cell
      → (b : ℕ) × ((rounds : ℕ)
          → b ≤ rounds
          → IsDone g s goal_cell (arrive (trace rounds st.came i)))
  arrive-IsDone st i v c e =
      let (b, more) = trace-IsDone g s st.came v.rooted v.stepped c in
      (
        b,
        λ rounds h.
            let (is, eq, w) = more rounds h in rw (eq) (found (subst (λ k. IsWay g s k is) e w)),
      )

  loop-Finishes :
      (w : ℕ) (came : List (Option ℕ)) (gscore : List S.Single) (queue : List (S.Single × ℕ))
      → IsSound S g goal s ranked (record { came = came; gscore = gscore; queue = queue })
      → weight S ranked (record { came = came; gscore = gscore; queue = queue }) < w
      → Finishes w (record { came = came; gscore = gscore; queue = queue })
  unfolding Finishes
  loop-Finishes zero came gscore queue v h = absurd (omega arith)
  loop-Finishes (suc w) came gscore [] v h =
      let st : Search S = record { came = came; gscore = gscore; queue = [] } in
      let P = λ (rounds n : ℕ). IsDone g s goal_cell (loop S g goal rounds n st) in
      (0, λ rounds n h. after-suc (P rounds) w (λ n k. none_left) n)
  loop-Finishes (suc w) came gscore (q ∷ qs) v h =
      let taken = take_least-IsTaken S _ qs q v.chained.1 v.chained.0 in
      let least = (take_least S qs q).0 in
      let st : Search S = record { came = came; gscore = gscore; queue = (take_least S qs q).1 } in
      let st' : Search S = record { came = came; gscore = gscore; queue = q ∷ qs } in
      let popped : IsSound S g goal s ranked st = record {
        rooted = v.rooted;
        sized_came = v.sized_came;
        sized_score = v.sized_score;
        stepped = v.stepped;
        descends = v.descends;
        chained = taken.others;
      } in
      let next = expand S g goal least.1 st in
      let kept =
        expand-IsKept S g goal s ranked least.1 (weight S ranked st) st
          (record { sound = popped; chain = taken.least; weight_le = omega arith }) in
      let P = λ (rounds n : ℕ). IsDone g s goal_cell (loop S g goal rounds n st') in
      let D = λ (o : Outcome). IsDone g s goal_cell o in
      elim (Bool-cases (least.1 == goal_cell)) [
        | inl same ↦
            let (b, more) = arrive-IsDone st least.1 popped taken.least (ground (arith, same)) in
            (
              b,
              λ rounds n h.
                  after-suc (P rounds) w
                    (λ n k.
                      elim-intro D (least.1 == goal_cell) {x = arrive (trace rounds came least.1)}
                        {y = loop S g goal rounds n next} (λ _. more rounds h)
                        (λ other. absurd (ground (arith, same, other))))
                    n,
            )
        | inr other ↦
            let (b, more) =
              loop-Finishes w next.came next.gscore next.queue kept.sound
                (omega (arith, kept.weight_le, taken.size)) in
            (
              b,
              λ rounds n h.
                  after-suc (P rounds) w
                    (λ n k.
                      elim-intro D (least.1 == goal_cell) {x = arrive (trace rounds came least.1)}
                        {y = loop S g goal rounds n next}
                        (λ same. absurd (ground (arith, same, other))) (λ _. more rounds n h k))
                    n,
            )
      ]

module _ {ℓ} {A : Type ℓ} where
  pub length-copies : (n : ℕ) (a : A) → length (copies n a) ≡ n
  length-copies zero a = refl
  length-copies (suc n) a = ap suc (length-copies n a)

  pub get_or-copies : (n i : ℕ) (a : A) → get_or (copies n a) i a ≡ a
  get_or-copies zero i a = refl
  get_or-copies (suc n) zero a = refl
  get_or-copies (suc n) (suc i) a = get_or-copies n i a

module _ (S : Singles) (ranked : IsRanked S) (g : Grid) (goal start : ℕ × ℕ) where
  abbrev start_cell : ℕ
  start_cell = index g (pos start.0) (pos start.1)

  opening-IsSound : IsSound S g goal start_cell ranked (opening S g goal start)
  unfolding opening
  opening-IsSound =
      let n = g.width * g.height in
      let empty = get_or-copies n in
      record {
        rooted = empty start_cell none;
        sized_came = length-copies n none;
        sized_score =
            length-set (copies n S.infinity) start_cell (S.lit 0 1) ∙ length-copies n S.infinity;
        stepped = λ i j e. absurd (none-ne-some j (sym (empty i none) ∙ e));
        descends = λ i j e. absurd (none-ne-some j (sym (empty i none) ∙ e));
        chained = (Chain.start, tt);
      }

  -- With enough rounds the search ends: it has found a way of legal steps from the start to the goal,
  -- or its queue has run empty.
  pub find_way-IsDone :
      (b : ℕ) × ((rounds : ℕ)
        → b ≤ rounds
        → IsDone g start_cell (index g (pos goal.0) (pos goal.1)) (find_way S g goal rounds start))
  unfolding find_way loop opening
  find_way-IsDone =
      let st = opening S g goal start in
      let w = suc (weight S ranked st) in
      let (b, more) =
        loop-Finishes S g goal start_cell ranked w st.came st.gscore st.queue opening-IsSound
          (omega arith) in
      (b + w, λ rounds h. more rounds rounds (omega arith) (omega arith))
