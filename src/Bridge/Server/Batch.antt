-- ===== src/Bridge/Server/Batch.antt =====
-- The frames of one `recv` (bridge/src/tcp_server.cpp, client_loop): the order in which
-- they are handled.
use bot_cock_pit.Prelude.{
  ◌≡◌, refl, Bool, true, false, not, ◌&&◌, List, [], ◌∷◌, ◌++◌, arith, if◌then◌else◌, Bool-cases,
  inl, inr,
}
use bot_cock_pit.Codec.{Frame}
use bot_cock_pit.Bridge.Server.{insert_sorted, stable_sort, estop_first, is_estop}

unfoldable pub filter {ℓ} : {A : Type ℓ} → (A → Bool) → List A → List A
filter p [] = []
filter p (x ∷ xs) = let rest = filter p xs in if p x then x ∷ rest else rest

module _ {ℓ} {A : Type ℓ} (p : A → Bool) where
  abbrev first : A → A → Bool
  first a b = p a && not (p b)

  -- An element that is to be first goes in front of everything.
  insert-first : (x : A) (ys : List A) → p x ≡ true → insert_sorted first x ys ≡ x ∷ ys
  unfolding insert_sorted
  insert-first x [] h = refl
  insert-first x (y ∷ ys) h = ground (arith, h)

  -- One that is not goes behind those that are, and in front of the others.
  insert-rest :
      (x : A) (xs : List A)
      → p x ≡ false
      → insert_sorted first x (filter (λ y. not (p y)) xs) ≡ x ∷ filter (λ y. not (p y)) xs
  unfolding insert_sorted filter
  insert-rest x [] h = refl
  insert-rest x (y ∷ ys) h = ground (arith, h, insert-rest x ys h)

  insert-past :
      (x : A) (xs ys : List A)
      → p x ≡ false
      → insert_sorted first x (filter p xs ++ ys) ≡ filter p xs ++ insert_sorted first x ys
  unfolding insert_sorted filter
  insert-past x [] ys h = refl
  insert-past x (y ∷ xs) ys h = ground (arith, h, insert-past x xs ys h)

  insert-filter :
      (x : A) (xs : List A)
      → insert_sorted first x (filter p xs ++ filter (λ y. not (p y)) xs)
        ≡ filter p (x ∷ xs) ++ filter (λ y. not (p y)) (x ∷ xs)
  unfolding filter
  insert-filter x xs = elim (Bool-cases (p x)) [
    | inl h ↦ rw (insert-first x (filter p xs ++ filter (λ y. not (p y)) xs) h) (rw h refl)
    | inr h ↦
        rw (insert-past x xs (filter (λ y. not (p y)) xs) h) (rw (insert-rest x xs h) (rw h refl))
  ]

  stable_sort-filter :
      (xs : List A) → stable_sort first xs ≡ filter p xs ++ filter (λ y. not (p y)) xs
  unfolding stable_sort filter
  stable_sort-filter [] = refl
  stable_sort-filter (x ∷ xs) = rw (stable_sort-filter xs) (insert-filter x xs)

-- The sorted batch is the emergency stops in the order in which they came, and then the other
-- frames in the order in which they came.
pub estop_first-filter :
    (batch : List Frame)
    → estop_first batch ≡ filter is_estop batch ++ filter (λ f. not (is_estop f)) batch
unfolding estop_first
estop_first-filter batch = stable_sort-filter is_estop batch

module _ {ℓ} {A : Type ℓ} where
  pub filter-append :
      (p : A → Bool) (xs ys : List A) → filter p (xs ++ ys) ≡ filter p xs ++ filter p ys
  unfolding filter
  filter-append p [] ys = refl
  filter-append p (x ∷ xs) ys = ground (arith, filter-append p xs ys)

  -- Filters follow each other as one.
  pub filter-filter :
      (p q r : A → Bool) (xs : List A)
      → ((x : A) → (q x && p x) ≡ r x)
      → filter p (filter q xs) ≡ filter r xs
  unfolding filter
  filter-filter p q r [] h = refl
  filter-filter p q r (x ∷ xs) h = ground (arith, h x, filter-filter p q r xs h)

  pub filter-false : (p : A → Bool) (xs : List A) → ((x : A) → p x ≡ false) → filter p xs ≡ []
  unfolding filter
  filter-false p [] h = refl
  filter-false p (x ∷ xs) h = ground (arith, h x, filter-false p xs h)

  pub filter-yes : (p : A → Bool) (x : A) → p x ≡ true → filter p (x ∷ []) ≡ x ∷ []
  unfolding filter
  filter-yes p x h = rw h refl

  pub filter-no : (p : A → Bool) (x : A) → p x ≡ false → filter p (x ∷ []) ≡ []
  unfolding filter
  filter-no p x h = rw h refl
