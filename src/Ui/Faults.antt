-- ===== src/Ui/Faults.antt =====
-- The console's table of faults (ui/botcockpit/src/faulttablemodel.cpp). `std::sort` is a parameter.
pub mod Order
pub mod Shown
pub mod Cells
mod Tests
use bot_cock_pit.Prelude.{
  ℕ, ◌+◌, Bool, true, false, not, ◌&&◌, ◌||◌, List, [], ◌∷◌, map, ltb, ◌==◌, if◌then◌else◌,
}
use bot_cock_pit.Text.{Text, codes, text_eq, is_empty}
use bot_cock_pit.Bridge.Server.Batch.{filter}
use bot_cock_pit.Ui.Worker.{Qt}
use bot_cock_pit.Ui.Worker.Receive.{text_at}

pub record Row : Type 0 where
  pub code : Text
  pub level : Text
  pub node : Text
  pub detail : Text
  pub active : Bool

-- `changes` counts the signals `countChanged`.
pub record Table : Type 0 where
  pub all : List Row
  pub visible : List Row
  pub level_filter : Text
  pub changes : ℕ

abbrev pub rank : Text → ℕ
rank level =
    if text_eq level (codes "ERROR") then 0 else if text_eq level (codes "WARN") then 1 else 2

-- `a < b` of two `QString`s, by their code units.
unfoldable pub text_ltb : Text → Text → Bool
text_ltb s [] = false
text_ltb [] (b ∷ t) = true
text_ltb (a ∷ s) (b ∷ t) = let rest = text_ltb s t in ltb a b || a == b && rest

-- The comparison that `std::sort` is given.
unfoldable pub before : Row → Row → Bool
unfolding text_ltb
before a b =
    if not (rank a.level == rank b.level)
    then ltb (rank a.level) (rank b.level)
    else text_ltb a.code b.code

abbrev pub matches : Text → Row → Bool
matches level r = is_empty level || text_eq r.level level

unfoldable pub rebuild_visible : Table → Table
unfolding filter
rebuild_visible t = record t {
  visible = filter (matches t.level_filter) t.all;
  changes = t.changes + 1;
}

unfoldable pub set_level_filter : Text → Table → Table
unfolding text_eq rebuild_visible
set_level_filter level t =
    if text_eq t.level_filter level then t else rebuild_visible (record t { level_filter = level })

abbrev pub row_of : (Q : Qt) → Q.Object → Row
row_of Q m = record {
  code = text_at Q m (codes "code");
  level = text_at Q m (codes "level");
  node = text_at Q m (codes "node");
  detail = text_at Q m (codes "detail");
  active = if Q.contains m (codes "active") then Q.to_bool (Q.value m (codes "active")) else true;
}

unfoldable pub set_faults :
    ((Row → Row → Bool) → List Row → List Row) → (Q : Qt) → List Q.Object → Table → Table
unfolding before rebuild_visible
set_faults sort Q faults t =
    rebuild_visible (record t { all = sort before (map (row_of Q) faults) })

-- A call of one of the table's slots.
pub data Call (Q : Qt) : Type 0 where
  faults : List Q.Object → Call Q
  level : Text → Call Q

unfoldable pub run :
    ((Row → Row → Bool) → List Row → List Row) → {Q : Qt} → List (Call Q) → Table → Table
unfolding set_faults set_level_filter
run sort [] t = t
run sort {Q} (faults fs ∷ cs) t = run sort cs (set_faults sort Q fs t)
run sort (level l ∷ cs) t = run sort cs (set_level_filter l t)
