-- ===== src/Tests/Rows.antt =====
-- The table for the management system of wsm/aodv.c at concrete inputs.
use ajou_etri_project.Base.{ℕ, ◌≡◌, ◌≢◌, refl, find_index, replicate, [], ◌∷◌, All, arith}
use ajou_etri_project.Nms.{Table, Config, blank_row, row, channel_or, insert, perr_update}
use ajou_etri_project.Nms.Membership.{NotIn, IsRow, perr_update-NotIn}
use ajou_etri_project.Nms.Insert.{insert_known}

abbrev settings : Config
settings = record { receiving_channel = 172; data_rate = 12; metric = 1 }

-- A row with neighbours 5 and 6, reached through 5, and a free row.
abbrev two_rows : Table
two_rows =
    record blank_row {
      addr = 7;
      metric = 1;
      neighbor_node = 5 ∷ 6 ∷ replicate 6 0;
      uplink_path = 5 ∷ 7 ∷ replicate 6 0;
    }
    ∷ blank_row
    ∷ []

rows_ok : All (IsRow 5) two_rows
rows_ok = (
  record { neighbors = omega arith; uplinks = omega arith; once = ground arith },
  (record { neighbors = omega arith; uplinks = omega arith; once = ground arith }, tt),
)

perr_update-NotIn_example :
    All (λ r. NotIn 5 r.neighbor_node × NotIn 5 r.uplink_path) (perr_update two_rows 5)
perr_update-NotIn_example = perr_update-NotIn two_rows 5 (λ e. omega arith) rows_ok

-- The second device of the list: the free row is 1 and so is its place.
insert_known_example :
    let u = insert settings two_rows 0x00e04c363420 7 0 1 0 in
    ((row u 1).addr ≡ 0x00e04c363420)
    × ((row u 1).node_state ≡ 1)
    × ((row u 1).receiving_channel ≡ channel_or settings 0)
    × ((j : ℕ) → 1 ≢ j → row u j ≡ row two_rows j)
unfolding find_index
insert_known_example =
    insert_known settings two_rows 0x00e04c363420 7 0 1 0 1 {k = 1} refl refl (omega arith)
