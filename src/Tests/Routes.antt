-- ===== src/Tests/Routes.antt =====
-- The routing table of wsm/aodv.c at concrete inputs.
use ajou_etri_project.Base.{
  ℕ, suc, zero, ◌<◌, ◌≡◌, ◌≢◌, ◌↔◌, refl, find_index, none, some, [], ◌∷◌, length, arith, All, ◌⊎◌,
  Ensures, replicate,
}
use ajou_etri_project.Timer.{Timeval}
use ajou_etri_project.Route.{
  Table, NewRoute, blank, entry, find, get_index, insert, free_slot, fill,
}
use ajou_etri_project.Route.Lookup.{Leads, IsUnique, find-Leads, get_index-find}
use ajou_etri_project.Route.Insert.{Inserted, insert-Inserted, insert-none, find-insert}

-- Two entries: a neighbour, 5, and a free one.
abbrev two_routes : Table
two_routes =
    record blank { dest_addr = 5; dest_ip = 10; source_addr = 1; next_hop = 5; hcnt = 1; state = 1 }
    ∷ blank
    ∷ []

abbrev noon : Timeval
noon = record { tv_sec = 43200; tv_usec = 0 }

abbrev to_six : NewRoute
to_six = record {
  dest = 6;
  next = 5;
  source = 1;
  prev_exist = 0;
  prev = 0;
  hcnt = 2;
  ip = 11;
  hello_cnt = 0;
  alm = 0;
  seqno = 4;
}

abbrev with_six : Table
with_six =
    record blank { dest_addr = 5; dest_ip = 10; source_addr = 1; next_hop = 5; hcnt = 1; state = 1 }
    ∷ fill noon to_six blank
    ∷ []

inserted : insert noon two_routes to_six ≡ some (some 1, with_six)
unfolding insert free_slot
inserted = refl

find-Leads_example :
    ((i : ℕ) × (find two_routes 5 1 1 ≡ some i) × (i < 2) × Leads (entry two_routes i) 5 1 1)
    ⊎ ((find two_routes 5 1 1 ≡ none) × All (λ r. ¬ Leads r 5 1 1) two_routes)
find-Leads_example = find-Leads two_routes 5 1 1

only_five : IsUnique two_routes 5
only_five zero zero p q e f = refl
only_five zero (suc zero) p q e f = absurd (cc)
only_five (suc zero) zero p q e f = absurd (cc)
only_five (suc zero) (suc zero) p q e f = refl
only_five (suc (suc i)) j p q e f = absurd (omega arith)
only_five zero (suc (suc j)) p q e f = absurd (omega arith)
only_five (suc zero) (suc (suc j)) p q e f = absurd (omega arith)

get_index-find_example : get_index two_routes 5 ≡ find two_routes 5 0 5
get_index-find_example = get_index-find two_routes 5 5 only_five

insert-Inserted_example : Inserted noon two_routes to_six (1, with_six)
insert-Inserted_example = insert-Inserted noon two_routes to_six inserted

-- A table of ten, all in use.
abbrev ten_routes : Table
ten_routes = replicate 10 (entry two_routes 0)

insert-none_example :
    ((insert noon ten_routes to_six ≡ none)
      ↔ ((j : ℕ) → j < length ten_routes → (entry ten_routes j).state ≢ 0))
    × Ensures (λ r. (i : ℕ) × (r.0 ≡ some i)) (insert noon ten_routes to_six)
insert-none_example = insert-none noon ten_routes to_six refl

find-insert_example : find with_six 6 0 6 ≡ some 1
unfolding find find_index
find-insert_example = find-insert noon two_routes to_six 6 refl inserted
