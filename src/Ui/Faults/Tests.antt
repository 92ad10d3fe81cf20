-- ===== src/Ui/Faults/Tests.antt =====
-- The fault table with a sort by insertion.
use bot_cock_pit.Prelude.{
  ◌≡◌, refl, ◌∙◌, inl, inr, Bool, true, false, List, [], ◌∷◌, All, All-map, arith, if-intro,
  if-both, length, Bool-cases,
}
use bot_cock_pit.Text.{Text, codes, text_eq}
use bot_cock_pit.Bridge.Server.{insert_sorted, stable_sort}
use bot_cock_pit.Bridge.Server.Batch.{filter}
use bot_cock_pit.Ui.Worker.Texts.{texts}
use bot_cock_pit.Ui.Faults.{Row, Table, Call, text_ltb, before, run}
use bot_cock_pit.Ui.Faults.Order.{Ordered, IsSort}
use bot_cock_pit.Ui.Faults.Shown.{IsShown, given, run-IsShown}

text_ltb_asym : (s t : Text) → text_ltb s t ≡ true → text_ltb t s ≡ false
unfolding text_ltb
text_ltb_asym s [] h = absurd (ground (arith, h))
text_ltb_asym [] (b ∷ t) h = refl
text_ltb_asym (a ∷ s) (b ∷ t) h = let rest = text_ltb_asym s t in ground (arith, h, rest)

text_ltb_between : (s t u : Text) → text_ltb s u ≡ true → text_ltb s t ≡ false → text_ltb t u ≡ true
unfolding text_ltb
text_ltb_between s t [] h k = absurd (ground (arith, h))
text_ltb_between [] [] (c ∷ u) h k = refl
text_ltb_between [] (b ∷ t) (c ∷ u) h k = absurd (ground (arith, k))
text_ltb_between (a ∷ s) [] (c ∷ u) h k = refl
text_ltb_between (a ∷ s) (b ∷ t) (c ∷ u) h k =
    let rest = text_ltb_between s t u in ground (arith, h, k, rest)

before_asym : (a b : Row) → before a b ≡ true → before b a ≡ false
unfolding before
before_asym a b h = let rest = text_ltb_asym a.code b.code in ground (arith, h, rest)

before_between : (a b c : Row) → before a c ≡ true → before a b ≡ false → before b c ≡ true
unfolding before
before_between a b c h k =
    let rest = text_ltb_between a.code b.code c.code in ground (arith, h, k, rest)

-- What no row above `y` precedes, none above `x` does.
before_trans : (x y z : Row) → before y x ≡ false → before z y ≡ false → before z x ≡ false
before_trans x y z h k = elim (Bool-cases (before z x)) [
  | inl e ↦ absurd (ground (arith, before_between z y x e k, h))
  | inr e ↦ e
]

insert-All :
    (P : Row → Type 0) (x : Row) (xs : List Row)
    → P x
    → All P xs
    → All P (insert_sorted before x xs)
unfolding insert_sorted
insert-All P x [] p h = (p, tt)
insert-All P x (y ∷ ys) p (h, hs) =
    if-both (All P) (before y x) (h, insert-All P x ys p hs) (p, (h, hs))

insert-Ordered :
    (x : Row) (xs : List Row) → Ordered before xs → Ordered before (insert_sorted before x xs)
unfolding insert_sorted
insert-Ordered x [] h = (tt, tt)
insert-Ordered x (y ∷ ys) (h, hs) =
    if-intro (Ordered before) (before y x) {x = y ∷ insert_sorted before x ys} {y = x ∷ y ∷ ys}
      (λ e. (insert-All _ x ys (before_asym y x e) h, insert-Ordered x ys hs))
      (λ e. ((e, All-map _ _ ys (λ z. before_trans x y z e) h), (h, hs)))

insert-kept :
    (p : Row → Bool) (x : Row) (xs : List Row)
    → length (filter p (insert_sorted before x xs)) ≡ length (filter p (x ∷ xs))
unfolding insert_sorted filter
insert-kept p x [] = refl
insert-kept p x (y ∷ ys) =
    if-both (λ (zs : List Row). length (filter p zs) ≡ length (filter p (x ∷ y ∷ ys))) (before y x)
      {x = y ∷ insert_sorted before x ys} {y = x ∷ y ∷ ys}
      (let e = insert-kept p x ys in ground (arith, e)) refl

sort-Ordered : (xs : List Row) → Ordered before (stable_sort before xs)
unfolding stable_sort
sort-Ordered [] = tt
sort-Ordered (x ∷ xs) = insert-Ordered x (stable_sort before xs) (sort-Ordered xs)

sort-kept :
    (p : Row → Bool) (xs : List Row)
    → length (filter p (stable_sort before xs)) ≡ length (filter p xs)
unfolding stable_sort filter
sort-kept p [] = refl
sort-kept p (x ∷ xs) =
    let e = sort-kept p xs in insert-kept p x (stable_sort before xs) ∙ ground (arith, e)

stable_sort-IsSort : IsSort stable_sort
stable_sort-IsSort = record { ordered = sort-Ordered; kept = sort-kept }

abbrev empty : Table
empty = record { all = []; visible = []; level_filter = []; changes = 0 }

abbrev calls : List (Call texts)
calls = Call.faults (codes "a" ∷ codes "b" ∷ []) ∷ Call.level (codes "ERROR") ∷ []

empty-IsShown : IsShown [] [] empty
unfolding filter
empty-IsShown = record {
  held = λ p. refl;
  filtered_by = refl;
  chosen = refl;
  worst_first = tt;
  sorted = tt;
}

run-IsShown_example : IsShown (given calls []) (codes "ERROR") (run stable_sort calls empty)
run-IsShown_example =
    run-IsShown stable_sort stable_sort-IsSort texts calls [] [] empty empty-IsShown

abbrev warning : Row
warning = record { code = codes "W_A"; level = codes "WARN"; node = []; detail = []; active = true }

abbrev late_error : Row
late_error = record {
  code = codes "E_B";
  level = codes "ERROR";
  node = [];
  detail = [];
  active = true;
}

abbrev early_error : Row
early_error = record {
  code = codes "E_A";
  level = codes "ERROR";
  node = [];
  detail = [];
  active = true;
}

worst_first :
    stable_sort before (warning ∷ late_error ∷ early_error ∷ [])
    ≡ early_error ∷ late_error ∷ warning ∷ []
unfolding stable_sort insert_sorted before text_ltb text_eq
worst_first = refl
