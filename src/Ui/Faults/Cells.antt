-- ===== src/Ui/Faults/Cells.antt =====
-- The cells of the console's table of faults (ui/botcockpit/src/faulttablemodel.cpp).
use bot_cock_pit.Prelude.{ℕ, Bool, List, [], ◌∷◌, none, some, length, ◌==◌, if◌then◌else◌}
use bot_cock_pit.Text.{Text, codes}
use bot_cock_pit.Ui.Table.{Index, Cell, empty, text, flag, row_at}
use bot_cock_pit.Ui.Faults.{Row, Table}

pub data FaultRole : Type 0 where
  display code_role level_role node_role detail_role active_role other : FaultRole

abbrev pub fault_row_count : Bool → Table → ℕ
fault_row_count parent_is_valid t = if parent_is_valid then 0 else length t.visible

abbrev pub fault_column_count : Bool → ℕ
fault_column_count parent_is_valid = if parent_is_valid then 0 else 4

abbrev pub column_text : ℕ → Row → Text
column_text column r =
    if column == 1
    then r.level
    else if column == 2
    then r.node
    else if column == 3
    then r.detail
    else r.code

abbrev pub fault_cell_of : FaultRole → ℕ → Row → Cell
fault_cell_of display column r = text (column_text column r)
fault_cell_of code_role column r = text (column_text column r)
fault_cell_of level_role column r = text r.level
fault_cell_of node_role column r = text r.node
fault_cell_of detail_role column r = text r.detail
fault_cell_of active_role column r = flag r.active
fault_cell_of other column r = empty

-- `data`.
unfoldable pub fault_cell : Index → FaultRole → Table → Cell
unfolding row_at
fault_cell i role t = elim (row_at t.visible i) [
  | none ↦ empty
  | some r ↦ fault_cell_of role i.column r
]

abbrev pub fault_role_names : List (FaultRole × Text)
fault_role_names =
    (code_role, codes "code")
    ∷ (level_role, codes "level")
    ∷ (node_role, codes "node")
    ∷ (detail_role, codes "detail")
    ∷ (active_role, codes "active")
    ∷ []

abbrev pub fault_header_name : ℕ → Text
fault_header_name section =
    if section == 0
    then codes "code"
    else if section == 1
    then codes "level"
    else if section == 2
    then codes "node"
    else if section == 3
    then codes "detail"
    else []
