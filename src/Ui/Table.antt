-- ===== src/Ui/Table.antt =====
-- What the console's table models share (ui/botcockpit/src/nodetablemodel.cpp and
-- faulttablemodel.cpp).
use bot_cock_pit.Prelude.{
  ℕ, zero, suc, Bool, not, ◌||◌, List, [], ◌∷◌, Option, none, some, length, leb, if◌then◌else◌,
}
use bot_cock_pit.Int.{ℤ, pos, pos_part, ltb_ℤ}
use bot_cock_pit.Text.{Text}

-- `QModelIndex`.
pub record Index : Type 0 where
  pub is_valid : Bool
  pub row : ℤ
  pub column : ℕ

-- The `QVariant` of a cell.
pub data Cell : Type 0 where
  empty : Cell
  text : Text → Cell
  number : ℤ → Cell
  flag : Bool → Cell

abbrev pub get_elem? {ℓ} : {A : Type ℓ} → List A → ℕ → Option A
get_elem? [] i = none
get_elem? (x ∷ xs) zero = some x
get_elem? (x ∷ xs) (suc i) = get_elem? xs i

-- The row of an index, if it is one of the table's.
unfoldable pub row_at {ℓ} : {A : Type ℓ} → List A → Index → Option A
row_at rows i =
    if not i.is_valid || ltb_ℤ i.row (pos 0) || leb (length rows) (pos_part i.row)
    then none
    else get_elem? rows (pos_part i.row)
