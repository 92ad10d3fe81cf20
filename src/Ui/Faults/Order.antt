-- ===== src/Ui/Faults/Order.antt =====
-- The order of the fault table (ui/botcockpit/src/faulttablemodel.cpp, setFaults).
use bot_cock_pit.Prelude.{◌≡◌, Bool, false, List, [], ◌∷◌, All, if-both, length}
use bot_cock_pit.Bridge.Server.Batch.{filter}
use bot_cock_pit.Ui.Faults.{Row, before}

-- No row comes before one that stands above it.
abbrev pub Ordered : (Row → Row → Bool) → List Row → Type 0
Ordered first [] = Unit
Ordered first (x ∷ xs) = All (λ (y : Row). first y x ≡ false) xs × Ordered first xs

-- What `std::sort` promises for a comparison that is an order: the rows are in order, and they are
-- the same rows, each as often as before.
pub record IsSort (sort : (Row → Row → Bool) → List Row → List Row) : Type 0 where
  pub ordered : (xs : List Row) → Ordered before (sort before xs)
  pub kept :
      (p : Row → Bool) (xs : List Row) → length (filter p (sort before xs)) ≡ length (filter p xs)

All-filter : (P : Row → Type 0) (p : Row → Bool) (xs : List Row) → All P xs → All P (filter p xs)
unfolding filter
All-filter P p [] h = h
All-filter P p (x ∷ xs) (h, hs) =
    if-both (All P) (p x) (h, All-filter P p xs hs) (All-filter P p xs hs)

pub Ordered-filter :
    (first : Row → Row → Bool) (p : Row → Bool) (xs : List Row)
    → Ordered first xs
    → Ordered first (filter p xs)
unfolding filter
Ordered-filter first p [] h = h
Ordered-filter first p (x ∷ xs) (h, hs) =
    if-both (Ordered first) (p x) (All-filter _ p xs h, Ordered-filter first p xs hs)
      (Ordered-filter first p xs hs)
