-- ===== src/Ui/Faults/Shown.antt =====
-- What the fault table shows (ui/botcockpit/src/faulttablemodel.cpp).
use bot_cock_pit.Prelude.{
  ℕ, ◌≡◌, refl, Bool, true, false, ◌&&◌, ◌||◌, List, [], ◌∷◌, map, length, if-intro, if◌then◌else◌,
  ltb, ◌==◌, All, arith,
}
use bot_cock_pit.Text.{Text, codes, is_empty, text_eq, text_eq→≡}
use bot_cock_pit.Bridge.Server.Batch.{filter}
use bot_cock_pit.Ui.Worker.{Qt}
use bot_cock_pit.Ui.Faults.{
  Row, Table, Call, faults, level, before, text_ltb, rebuild_visible, set_level_filter, set_faults,
  run,
}
use bot_cock_pit.Ui.Faults.Order.{Ordered, IsSort, Ordered-filter}

-- The row of a fault.
abbrev row_in : (Q : Qt) → Q.Object → Row
row_in Q m =
    let text = λ (key : Text). Q.to_text (Q.value m key) in
    record {
      code = text (codes "code");
      level = text (codes "level");
      node = text (codes "node");
      detail = text (codes "detail");
      active =
          if Q.contains m (codes "active") then Q.to_bool (Q.value m (codes "active")) else true;
    }

-- How far down a level stands.
abbrev severity : Text → ℕ
severity name =
    if text_eq name (codes "ERROR") then 0 else if text_eq name (codes "WARN") then 1 else 2

-- `a` is of a worse level than `b`, or of the same and its code comes first.
abbrev pub is_worse : Row → Row → Bool
is_worse a b =
    ltb (severity a.level) (severity b.level)
    || severity a.level == severity b.level && text_ltb a.code b.code

before_worse : (a b : Row) → before a b ≡ false → is_worse a b ≡ false
unfolding before
before_worse a b h = ground (arith, h)

All-worse :
    (x : Row) (ys : List Row)
    → All (λ (y : Row). before y x ≡ false) ys
    → All (λ (y : Row). is_worse y x ≡ false) ys
All-worse x [] h = tt
All-worse x (y ∷ ys) (h, hs) = (before_worse y x h, All-worse x ys hs)

Ordered-worse : (xs : List Row) → Ordered before xs → Ordered is_worse xs
Ordered-worse [] h = tt
Ordered-worse (x ∷ xs) (h, hs) = (All-worse x xs h, Ordered-worse xs hs)

-- The rows given to the last setFaults, and the level chosen last.
abbrev pub given : {Q : Qt} → List (Call Q) → List Row → List Row
given [] rows = rows
given {Q} (faults fs ∷ cs) rows = given cs (map (row_in Q) fs)
given (level l ∷ cs) rows = given cs rows

abbrev pub chosen_level : {Q : Qt} → List (Call Q) → Text → Text
chosen_level [] l = l
chosen_level (faults fs ∷ cs) l = chosen_level cs l
chosen_level (level l' ∷ cs) l = chosen_level cs l'

-- The table holds the rows, each as often as it was given, and shows those of the level, the worst
-- first.
pub record IsShown (rows : List Row) (l : Text) (t : Table) : Type 0 where
  pub held : (p : Row → Bool) → length (filter p t.all) ≡ length (filter p rows)
  pub filtered_by : t.level_filter ≡ l
  pub chosen :
      t.visible ≡ filter (λ r. is_empty t.level_filter || text_eq r.level t.level_filter) t.all
  pub worst_first : Ordered is_worse t.visible
  pub sorted : Ordered before t.all

module _ (sort : (Row → Row → Bool) → List Row → List Row) (sorting : IsSort sort) where
  set_level_filter-IsShown :
      (rows : List Row) (l l' : Text) (t : Table)
      → IsShown rows l t
      → IsShown rows l' (set_level_filter l' t)
  unfolding set_level_filter rebuild_visible
  set_level_filter-IsShown rows l l' t v =
      if-intro (IsShown rows l') (text_eq t.level_filter l')
        (λ e. record {
          held = v.held;
          filtered_by = text_eq→≡ t.level_filter l' e;
          chosen = v.chosen;
          worst_first = v.worst_first;
          sorted = v.sorted;
        })
        (λ _. record {
          held = v.held;
          filtered_by = refl;
          chosen = refl;
          worst_first = Ordered-worse _ (Ordered-filter before _ t.all v.sorted);
          sorted = v.sorted;
        })

  set_faults-IsShown :
      (Q : Qt) (fs : List Q.Object) (rows : List Row) (l : Text) (t : Table)
      → IsShown rows l t
      → IsShown (map (row_in Q) fs) l (set_faults sort Q fs t)
  unfolding set_faults rebuild_visible
  set_faults-IsShown Q fs rows l t v =
      let shown = map (row_in Q) fs in
      record {
        held = λ p. sorting.kept p shown;
        filtered_by = v.filtered_by;
        chosen = refl;
        worst_first =
            Ordered-worse _ (Ordered-filter before _ (sort before shown) (sorting.ordered shown));
        sorted = sorting.ordered shown;
      }

  -- After every list of calls, the table holds the rows of the faults that the last setFaults
  -- was given, each as often, and it shows those of the level that was chosen last, with ERROR
  -- above WARN above every other level, and the codes of one level in order. The table was like
  -- this at the start, for the rows and the level given for it, and the sort puts the rows in
  -- order and keeps them.
  pub run-IsShown :
      (Q : Qt) (cs : List (Call Q)) (rows : List Row) (l : Text) (t : Table)
      → IsShown rows l t
      → IsShown (given cs rows) (chosen_level cs l) (run sort cs t)
  unfolding run
  run-IsShown Q [] rows l t v = v
  run-IsShown Q (faults fs ∷ cs) rows l t v =
      run-IsShown Q cs (map (row_in Q) fs) l _ (set_faults-IsShown Q fs rows l t v)
  run-IsShown Q (level l' ∷ cs) rows l t v =
      run-IsShown Q cs rows l' _ (set_level_filter-IsShown rows l l' t v)
