-- ===== src/Ui/Nodes.antt =====
-- The console's table of nodes (ui/botcockpit/src/nodetablemodel.cpp).
use bot_cock_pit.Prelude.{ℕ, Bool, List, [], ◌∷◌, map, none, some, length, ◌==◌, if◌then◌else◌}
use bot_cock_pit.Int.{ℤ}
use bot_cock_pit.Text.{Text, codes}
use bot_cock_pit.Ui.Remote.{Variants}
use bot_cock_pit.Ui.Remote.Nav.{text_in}
use bot_cock_pit.Ui.Table.{Index, Cell, empty, text, number, row_at}

pub record NodeRow : Type 0 where
  pub name : Text
  pub status : Text
  pub last_hb : ℤ

pub data Role : Type 0 where
  display name_role status_role last_hb_role other : Role

abbrev pub row_count : Bool → List NodeRow → ℕ
row_count parent_is_valid rows = if parent_is_valid then 0 else length rows

abbrev pub column_count : Bool → ℕ
column_count parent_is_valid = if parent_is_valid then 0 else 3

abbrev pub column_of : ℕ → NodeRow → Cell
column_of column row =
    if column == 0
    then text row.name
    else if column == 1
    then text row.status
    else number row.last_hb

abbrev pub cell_of : Role → ℕ → NodeRow → Cell
cell_of display column row = column_of column row
cell_of name_role column row = text row.name
cell_of status_role column row = text row.status
cell_of last_hb_role column row = number row.last_hb
cell_of other column row = empty

-- `data`.
unfoldable pub cell : Index → Role → List NodeRow → Cell
unfolding row_at
cell i role rows = elim (row_at rows i) [ none ↦ empty | some row ↦ cell_of role i.column row ]

abbrev pub role_names : List (Role × Text)
role_names =
    (name_role, codes "name")
    ∷ (status_role, codes "status")
    ∷ (last_hb_role, codes "lastHbMs")
    ∷ []

abbrev pub header_name : ℕ → Text
header_name section =
    if section == 0
    then codes "name"
    else if section == 1
    then codes "status"
    else if section == 2
    then codes "last_hb"
    else []

abbrev pub node_row : (V : Variants) → V.Value → NodeRow
node_row V item =
    let m = V.to_map item in
    record {
      name = text_in V m (codes "name");
      status = text_in V m (codes "status");
      last_hb = V.to_long (V.value m (codes "last_hb_ms"));
    }

-- The table's rows after a call.
unfoldable pub set_nodes : (V : Variants) → List V.Value → List NodeRow
set_nodes V nodes = map (node_row V) nodes
