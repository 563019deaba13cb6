-- ===== src/Nms/Insert.antt =====
-- Where a row goes, and what it holds.
use ajou_etri_project.Base.{
  ℕ, ◌<◌, ◌≡◌, ◌≢◌, ap, none, some, arith, Option-cases, inl, inr, find_index, length, modify,
  get_or-modify_self, get_or-modify_ne,
}
use ajou_etri_project.Msg.{Addr}
use ajou_etri_project.Nms.{
  Row, Table, Config, mac_list, place, row, blank_row, is_unused, channel_or, filled, insert,
}

-- For an address outside the device list nothing changes.
insert_unknown :
    (c : Config) (t : Table) (a neighbor : Addr) (r_ch state is_hello : ℕ)
    → place a mac_list ≡ none
    → insert c t a neighbor r_ch state is_hello ≡ t
unfolding insert
insert_unknown c t a neighbor r_ch state is_hello e = elim (Option-cases (find_index is_unused t)) [
  | inl f ↦ rw (f, insert)
  | inr (i, f) ↦ rw (f, insert) (rw (e, insert))
]

insert-modify :
    (c : Config) (t : Table) (a neighbor : Addr) (r_ch state is_hello free : ℕ) {k : ℕ}
    → find_index is_unused t ≡ some free
    → place a mac_list ≡ some k
    → insert c t a neighbor r_ch state is_hello
      ≡ modify t k (filled c a neighbor r_ch state is_hello)
unfolding insert
insert-modify c t a neighbor r_ch state is_hello free f p = ground arith

-- Where a row is free, the row that a known device is written to is the one at its place in the
-- device list, in whatever state that row is; no other row changes.
pub insert_known :
    (c : Config) (t : Table) (a neighbor : Addr) (r_ch state is_hello free : ℕ) {k : ℕ}
    → find_index is_unused t ≡ some free
    → place a mac_list ≡ some k
    → k < length t
    → let u = insert c t a neighbor r_ch state is_hello in
      ((row u k).addr ≡ a)
      × ((row u k).node_state ≡ state)
      × ((row u k).receiving_channel ≡ channel_or c r_ch)
      × ((j : ℕ) → k ≢ j → row u j ≡ row t j)
insert_known c t a neighbor r_ch state is_hello free {k} f p h =
    let w = filled c a neighbor r_ch state is_hello in
    let e = get_or-modify_self t k w blank_row h in
    rw (insert-modify c t a neighbor r_ch state is_hello free f p) (
      ap (λ (r : Row). r.addr) e,
      ap (λ (r : Row). r.node_state) e,
      ap (λ (r : Row). r.receiving_channel) e,
      λ j n. get_or-modify_ne t w blank_row n,
    )
