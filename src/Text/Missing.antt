-- ===== src/Text/Missing.antt =====
-- A needle that a text does not have.
use bot_cock_pit.Prelude.{
  ℕ, ◌≡◌, ◌≢◌, refl, sym, ◌∙◌, [], ◌∷◌, ◌++◌, some, none, arith, All, inl, inr, Bool-cases,
  Option-cases, ◌==◌,
}
use bot_cock_pit.Text.{Text, strip_prefix, find_after}
use bot_cock_pit.Text.Search.{find_after-append, find_after-skip}

-- It is not at the text's beginning, and not behind it.
record IsMissing (p : Text) (c : ℕ) (s : Text) : Type 0 where
  here : strip_prefix p (c ∷ s) ≡ none
  behind : find_after p s ≡ none

missing : (p : Text) (c : ℕ) (s : Text) → find_after p (c ∷ s) ≡ none → IsMissing p c s
unfolding find_after
missing p c s h = elim (Option-cases (strip_prefix p (c ∷ s))) [
  | inl e ↦
      let same : find_after p (c ∷ s) ≡ find_after p s = rw (e, find_after) refl in
      record { here = e; behind = sym same ∙ h }
  | inr (r, e) ↦ let same : find_after p (c ∷ s) ≡ some r = rw (e, find_after) refl in cc (same, h)
]

found_behind :
    (p : Text) (c : ℕ) (s : Text)
    → strip_prefix p (c ∷ s) ≡ none
    → find_after p (c ∷ s) ≡ find_after p s
unfolding find_after
found_behind p c s e = rw (e, find_after) refl

-- A byte that the needle does not have ends its search at the beginning.
strip_prefix-stop :
    (p s t : Text) (x : ℕ)
    → All (λ c. c ≢ x) p
    → strip_prefix p s ≡ none
    → strip_prefix p (s ++ x ∷ t) ≡ none
unfolding strip_prefix
strip_prefix-stop [] s t x k h = cc h
strip_prefix-stop (a ∷ p) [] t x (k, ks) h = ground (arith, k)
strip_prefix-stop (a ∷ p) (c ∷ s) t x (k, ks) h = elim (Bool-cases (a == c)) [
  | inl e ↦ rw e (strip_prefix-stop p s t x ks (ground (arith, e, h)))
  | inr e ↦ rw e refl
]

strip_prefix-more :
    (p s t r : Text) → strip_prefix p s ≡ some r → strip_prefix p (s ++ t) ≡ some (r ++ t)
unfolding strip_prefix
strip_prefix-more [] s t r h = ground (arith, h)
strip_prefix-more (a ∷ p) [] t r h = cc h
strip_prefix-more (a ∷ p) (c ∷ s) t r h = elim (Bool-cases (a == c)) [
  | inl e ↦ rw e (strip_prefix-more p s t r (ground (arith, e, h)))
  | inr e ↦ absurd (ground (arith, e, h))
]

-- Behind a text that does not have the needle and a byte that the needle does not have, the needle
-- is found where it stands.
pub find_after-stop :
    (a : ℕ) (p s t : Text) (x : ℕ)
    → x ≢ a
    → All (λ c. c ≢ x) (a ∷ p)
    → find_after (a ∷ p) s ≡ none
    → find_after (a ∷ p) (s ++ x ∷ ((a ∷ p) ++ t)) ≡ some t
find_after-stop a p [] t x d k h = find_after-skip a x p _ d ∙ find_after-append (a ∷ p) t
find_after-stop a p (c ∷ s) t x d k h =
    let m = missing (a ∷ p) c s h in
    found_behind (a ∷ p) c _ (strip_prefix-stop (a ∷ p) (c ∷ s) _ x k m.here)
    ∙ find_after-stop a p s t x d k m.behind

-- The beginning of a text that does not have the needle does not have it.
pub find_after-prefix :
    (a : ℕ) (p s t : Text) → find_after (a ∷ p) (s ++ t) ≡ none → find_after (a ∷ p) s ≡ none
unfolding find_after strip_prefix
find_after-prefix a p [] t h = refl
find_after-prefix a p (c ∷ s) t h =
    let m = missing (a ∷ p) c (s ++ t) h in
    elim (Option-cases (strip_prefix (a ∷ p) (c ∷ s))) [
      | inl e ↦ found_behind (a ∷ p) c s e ∙ find_after-prefix a p s t m.behind
      | inr (r, e) ↦ cc (strip_prefix-more (a ∷ p) (c ∷ s) t r e, m.here)
    ]
