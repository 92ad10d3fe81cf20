-- ===== src/Nav/Plan/Chain.antt =====
-- Chains of predecessors, as astar's `came` holds them (sim/include/botcockpit_sim/nav.hpp).
use bot_cock_pit.Prelude.{
  ℕ, ◌≤◌, ◌<◌, ◌≡◌, ◌≢◌, sym, ap, ◌∙◌, Option, some, arith, ◌==◌, ==_iff, Bool-cases, inl, inr,
}

-- A cell from which the predecessors lead to `s`.
pub data Chain (c : ℕ → Option ℕ) (s : ℕ) : ℕ → Type 0 where
  start : Chain c s s
  next : {i j : ℕ} → c i ≡ some j → Chain c s j → Chain c s i

-- Predecessors never have a greater rank.
abbrev pub Descends : (ℕ → Option ℕ) → (ℕ → ℕ) → Type 0
Descends c σ = (i j : ℕ) → c i ≡ some j → σ j ≤ σ i

pub Chain-rank : {c : ℕ → Option ℕ} {s i : ℕ} (σ : ℕ → ℕ) → Descends c σ → Chain c s i → σ s ≤ σ i
Chain-rank σ down start = omega arith
Chain-rank σ down (next {i} {j} e t) = omega (arith, down i j e, Chain-rank σ down t)

-- The predecessor of `n` is changed, no other.
pub record Redirects (c c' : ℕ → Option ℕ) (n : ℕ) : Type 0 where
  pub others : (i : ℕ) → n ≢ i → c' i ≡ c i

module _ {c c' : ℕ → Option ℕ} {n : ℕ} (r : Redirects c c' n) where
  -- A chain from a lower rank does not meet the changed cell.
  pub Chain-avoids : {s i : ℕ} (σ : ℕ → ℕ) → Descends c σ → σ i < σ n → Chain c s i → Chain c' s i
  Chain-avoids σ down low start = start
  Chain-avoids σ down low (next {i} {j} e t) =
      next (r.others i (λ h. absurd (omega (arith, ap σ h))) ∙ e)
        (Chain-avoids σ down (omega (arith, down i j e)) t)

  pub Chain-redirected :
      {s i cur : ℕ} → c' n ≡ some cur → Chain c' s cur → Chain c s i → Chain c' s i
  Chain-redirected h to start = start
  Chain-redirected h to (next {i} {j} e t) = elim (Bool-cases (n == i)) [
    | inl same ↦ next (ap c' (sym ((==_iff n i).0 same)) ∙ h) to
    | inr other ↦
        next (r.others i (λ k. absurd (ground (arith, k, other))) ∙ e) (Chain-redirected h to t)
  ]
