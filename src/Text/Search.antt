-- ===== src/Text/Search.antt =====
-- Laws of the search for a needle.
use bot_cock_pit.Prelude.{ℕ, ◌≡◌, refl, ◌∙◌, ◌≢◌, [], ◌∷◌, ◌++◌, some, arith, All}
use bot_cock_pit.Text.{Text, strip_prefix, find_after}

pub strip_prefix-append : (p s : Text) → strip_prefix p (p ++ s) ≡ some s
unfolding strip_prefix
strip_prefix-append [] s = refl
strip_prefix-append (a ∷ p) s = ground (arith, strip_prefix-append p s)

pub find_after-append : (p s : Text) → find_after p (p ++ s) ≡ some s
unfolding find_after
find_after-append [] [] = refl
find_after-append [] (c ∷ s) = refl
find_after-append (a ∷ p) s = rw (find_after, strip_prefix-append (a ∷ p) s)

-- A byte that is not the needle's first one is passed over.
pub find_after-skip :
    (a c : ℕ) (p s : Text) → c ≢ a → find_after (a ∷ p) (c ∷ s) ≡ find_after (a ∷ p) s
unfolding find_after
find_after-skip a c p s h = ground arith

-- So is a text without that byte.
pub find_after-skip-All :
    (a : ℕ) (p t s : Text) → All (λ c. c ≢ a) t → find_after (a ∷ p) (t ++ s) ≡ find_after (a ∷ p) s
find_after-skip-All a p [] s h = refl
find_after-skip-All a p (c ∷ t) s h =
    find_after-skip a c p (t ++ s) h.0 ∙ find_after-skip-All a p t s h.1
