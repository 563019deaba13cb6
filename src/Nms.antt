-- ===== src/Nms.antt =====
-- The table that the root keeps for the network management system, of wsm/aodv.c: nms_table_empty,
-- nms_table_find, nms_table_perr_update, nms_table_update, nms_table_insert and
-- nms_table_uplink_insert. No caller looks at the `int` that the last three return, and it is left
-- out. `none` is a read or write outside an object.
pub mod Membership
pub mod Insert
pub mod Size
use ajou_etri_project.Base.{
  ℕ, zero, suc, ◌+◌, ◌%◌, Bool, true, false, ◌||◌, ◌&&◌, Option, none, some, List, [], ◌∷◌, map,
  ◌==◌, ltb, leb, if◌then◌else◌, ◌>>=◌, find_index, get_elem?, get_or, modify, set, replicate,
}
use ajou_etri_project.Msg.{Addr, blank_addr}
use ajou_etri_project.Timer.{Timeval, zero_time}

pub record Row : Type 0 where
  pub addr : Addr
  pub receiving_channel : ℕ
  pub node_state : ℕ
  pub metric : ℕ
  pub data_rate : ℕ
  pub neighbor_node : List Addr
  pub uplink_path : List Addr
  pub alm_next_hop : ℕ
  pub last_rann_ack_time : Timeval

abbrev pub row_count : ℕ
row_count = 12

abbrev pub Table : Type 0
Table = List Row

-- The devices of the testbed, `mac_list`.
abbrev pub mac_list : List Addr
mac_list = 0x00bfbaa44400 ∷ 0x00e04c363420 ∷ 0x006336779a00 ∷ 0x00365b95a000 ∷ []

-- The first place of an address in a list, and whether it has one.
abbrev pub place : Addr → List Addr → Option ℕ
place a l = find_index (λ b. a == b) l

abbrev pub contains : List Addr → Addr → Bool
contains [] a = false
contains (b ∷ l) a = a == b || contains l a

-- The configuration that rows take over.
pub record Config : Type 0 where
  pub receiving_channel : ℕ
  pub data_rate : ℕ
  pub metric : ℕ

-- memset of 118 bytes: all but the microseconds of the last time, which are never read.
abbrev pub cleared : Row → Row
cleared r = record {
  addr = 0;
  receiving_channel = 0;
  node_state = 0;
  metric = 0;
  data_rate = 0;
  neighbor_node = replicate 8 blank_addr;
  uplink_path = replicate 8 blank_addr;
  alm_next_hop = 0;
  last_rann_ack_time = record { tv_sec = 0; tv_usec = r.last_rann_ack_time.tv_usec };
}

abbrev pub blank_row : Row
blank_row = record {
  addr = 0;
  receiving_channel = 0;
  node_state = 0;
  metric = 0;
  data_rate = 0;
  neighbor_node = replicate 8 blank_addr;
  uplink_path = replicate 8 blank_addr;
  alm_next_hop = 0;
  last_rann_ack_time = zero_time;
}

abbrev pub row : Table → ℕ → Row
row t i = get_or t i blank_row

-- With 12, the only index that is passed: every row cleared, and the first is the node's own. Another
-- index below 12 writes past the end of its row.
unfoldable pub empty_rows : Config → Addr → Table → ℕ → Option Table
empty_rows c my_mac t index =
    if index == row_count
    then some (
        modify (map cleared t) 0 (λ r. record r {
          addr = my_mac;
          node_state = 1;
          receiving_channel = c.receiving_channel;
          data_rate = c.data_rate;
          metric = c.metric;
          alm_next_hop = 0;
        }))
    else if ltb row_count index
    then some t
    else none

abbrev pub is_row_of : Addr → Row → Bool
is_row_of a r = a == r.addr

unfoldable pub find : Table → Addr → Option ℕ
find t a = find_index (is_row_of a) t

abbrev pub channel_or : Config → ℕ → ℕ
channel_or c r_ch = if r_ch == 0 then c.receiving_channel else r_ch

-- A known neighbour that is not listed yet takes the first free place, if there is one.
add_neighbor : Addr → List Addr → List Addr
add_neighbor a l =
    if contains l a then l else elim (place blank_addr l) [ none ↦ l | some i ↦ set l i a ]

unfoldable pub update : Config → Row → Addr → ℕ → ℕ → ℕ → Row
unfolding add_neighbor
update c r neighbor r_ch state is_hello = record r {
  node_state = state;
  receiving_channel = channel_or c r_ch;
  uplink_path = if is_hello == 1 then set r.uplink_path 0 r.addr else r.uplink_path;
  neighbor_node =
      if contains mac_list neighbor then add_neighbor neighbor r.neighbor_node else r.neighbor_node;
}

abbrev pub is_unused : Row → Bool
is_unused r = r.metric == 0

-- The writes of nms_table_insert to its row. `metric` is cut to the row's `uint8_t`.
abbrev pub filled : Config → Addr → Addr → ℕ → ℕ → ℕ → Row → Row
filled c a neighbor r_ch state is_hello r = record r {
  addr = a;
  neighbor_node = set r.neighbor_node 0 neighbor;
  node_state = state;
  receiving_channel = channel_or c r_ch;
  metric = c.metric % 256;
  data_rate = c.data_rate;
  uplink_path = if is_hello == 1 then set r.uplink_path 0 a else r.uplink_path;
}

-- The scan for a free row and the scan of `mac_list` share the variable `i`: the row that is filled
-- is the one at the device's place in `mac_list`.
unfoldable pub insert : Config → Table → Addr → Addr → ℕ → ℕ → ℕ → Table
insert c t a neighbor r_ch state is_hello = elim (find_index is_unused t) [
  | none ↦ t
  | some _ ↦ elim (place a mac_list) [
    | none ↦ t
    | some i ↦ modify t i (filled c a neighbor r_ch state is_hello)
  ]
]

-- The tail moved one place up; the last place keeps what it held.
shift : List Addr → List Addr
shift [] = []
shift (a ∷ []) = a ∷ []
shift (a ∷ b ∷ l) = b ∷ shift (b ∷ l)

-- The entry at `j` cleared, and what follows it moved up.
unfoldable pub close_gap : List Addr → ℕ → List Addr
unfolding shift
close_gap [] j = []
close_gap (a ∷ []) zero = blank_addr ∷ []
close_gap (a ∷ b ∷ l) zero = shift (a ∷ b ∷ l)
close_gap (a ∷ l) (suc j) = a ∷ close_gap l j

-- The round `j` of the inner loop of nms_table_perr_update.
unfoldable pub perr_round : Addr → ℕ → Row → Row
perr_round timeout j r = record r {
  uplink_path =
      if get_or r.uplink_path j blank_addr == timeout
      then replicate 8 blank_addr
      else r.uplink_path;
  neighbor_node =
      if get_or r.neighbor_node j blank_addr == timeout
      then close_gap r.neighbor_node j
      else r.neighbor_node;
}

-- Rounds `j`, …, `j + n - 1`.
unfoldable pub perr_rounds : Addr → ℕ → ℕ → Row → Row
perr_rounds timeout zero j r = r
perr_rounds timeout (suc n) j r = perr_rounds timeout n (j + 1) (perr_round timeout j r)

unfoldable pub perr_update : Table → Addr → Table
perr_update t timeout = map (perr_rounds timeout 8 0) (elim (find t timeout) [
  | none ↦ t
  | some i ↦ modify t i (λ r. record r {
    neighbor_node = replicate 8 blank_addr;
    node_state = 0;
    uplink_path = replicate 8 blank_addr;
  })
])

-- The loop of nms_table_uplink_insert from round `i` on, `n` rounds left, over the addresses behind
-- the message.
uplink_rounds : ℕ → ℕ → List Addr → List Addr → Option (List Addr)
uplink_rounds zero i ext path = some path
uplink_rounds (suc n) i [] path = none
uplink_rounds (suc n) i (a ∷ ext) path =
    let known = contains mac_list a in
    let rest = uplink_rounds n (i + 1) ext (if known then set path i a else path) in
    if known && leb 8 i then none else rest

unfoldable pub uplink_insert : Row → List Addr → ℕ → Option Row
unfolding uplink_rounds
uplink_insert r ext ext_length = do
  let fresh = replicate 8 blank_addr
  path ← uplink_rounds ext_length 0 ext (if ext_length == 0 then set fresh 0 r.addr else fresh)
  some (record r { uplink_path = path })
