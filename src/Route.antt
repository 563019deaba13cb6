-- ===== src/Route.antt =====
-- The routing table of wsm/aodv.c: rt_table_empty, rt_table_find, rt_table_find_IP,
-- rt_table_get_index, rt_table_update and rt_table_insert. A `struct rt_table *` into the table is an
-- index, NULL is `none`. `ifindex`, which no code reads, is left out.
pub mod Lookup
pub mod Slots
pub mod Insert
use ajou_etri_project.Base.{
  ℕ, zero, suc, ◌+◌, ◌<◌, Bool, true, false, ◌&&◌, Option, none, some, List, [], ◌∷◌, ◌==◌, ltb,
  if◌then◌else◌, find_index, find_last, get_or, get_elem?, ◌>>=◌, modify, replicate,
}
use ajou_etri_project.Msg.{Addr}
use ajou_etri_project.Timer.{Timeval, zero_time}

pub record Route : Type 0 where
  pub dest_addr : Addr
  pub dest_ip : ℕ
  pub source_addr : Addr
  pub prev_addr : Addr
  pub seqno : ℕ
  pub next_hop : Addr
  pub hcnt : ℕ
  pub state : ℕ
  pub first_hello_time : Timeval
  pub last_hello_time : Timeval
  pub hello_cnt : ℕ
  pub alm : ℕ
  pub alm_next_hop : ℕ
  pub sch_hello_cnt : ℕ
  pub alm_buffer : List ℕ
  pub alm_buffer_pointer : ℕ
  pub sch_hello_detector : ℕ

abbrev pub table_size : ℕ
table_size = 10

-- The entry after `memset(…, 0, sizeof(struct rt_table))`.
abbrev pub blank : Route
blank = record {
  dest_addr = 0;
  dest_ip = 0;
  source_addr = 0;
  prev_addr = 0;
  seqno = 0;
  next_hop = 0;
  hcnt = 0;
  state = 0;
  first_hello_time = zero_time;
  last_hello_time = zero_time;
  hello_cnt = 0;
  alm = 0;
  alm_next_hop = 0;
  sch_hello_cnt = 0;
  alm_buffer = replicate 10 0;
  alm_buffer_pointer = 0;
  sch_hello_detector = 0;
}

abbrev pub Table : Type 0
Table = List Route

abbrev pub entry : Table → ℕ → Route
entry t i = get_or t i blank

-- The part of rt_table_empty on the routing table; `Node` has the rest.
unfoldable pub empty_route : Table → ℕ → Table
empty_route t index =
    if index == 10
    then replicate table_size blank
    else if ltb 10 index
    then t
    else modify t index (λ r. blank)

abbrev pub is_route_to : Addr → Route → Bool
is_route_to dest r = dest == r.dest_addr && r.state == 1

abbrev pub is_route_from : Addr → Addr → Route → Bool
is_route_from dest source r = dest == r.dest_addr && source == r.source_addr && r.state == 1

unfoldable pub find : Table → Addr → ℕ → Addr → Option ℕ
find t dest source_consider source =
    if source_consider == 0
    then find_index (is_route_to dest) t
    else find_index (is_route_from dest source) t

abbrev pub is_route_to_ip : ℕ → Route → Bool
is_route_to_ip ip r = ip == r.dest_ip && r.state == 1

unfoldable pub find_ip : Table → ℕ → Option ℕ
find_ip t ip = find_index (is_route_to_ip ip) t

-- `none` is the result -1.
unfoldable pub get_index : Table → Addr → Option ℕ
get_index t dest = find_last (is_route_to dest) t

-- `&now` is the address of the pointer parameter: what is copied to `last_hello_time` is whatever
-- lies there, here `stack`.
unfoldable pub update : Timeval → Route → Addr → ℕ → ℕ → ℕ → Route
update stack r next hcnt alm seqno = record r {
  next_hop = next;
  last_hello_time = stack;
  hcnt = hcnt;
  alm = alm;
  state = 1;
  seqno = seqno;
}

-- The arguments of rt_table_insert but the times.
pub record NewRoute : Type 0 where
  pub dest : Addr
  pub next : Addr
  pub source : Addr
  pub prev_exist : ℕ
  pub prev : Addr
  pub hcnt : ℕ
  pub ip : ℕ
  pub hello_cnt : ℕ
  pub alm : ℕ
  pub seqno : ℕ

abbrev pub fill : Timeval → NewRoute → Route → Route
fill now a r = record r {
  dest_addr = a.dest;
  next_hop = a.next;
  source_addr = a.source;
  prev_addr = if ltb 0 a.prev_exist then a.prev else r.prev_addr;
  first_hello_time = now;
  last_hello_time = now;
  hcnt = a.hcnt;
  state = 1;
  hello_cnt = a.hello_cnt;
  dest_ip = a.ip;
  alm = a.alm;
  seqno = a.seqno;
}

abbrev pub is_free : Route → Bool
is_free r = r.state == 0

-- The first free entry from `i` on, with `k` rounds of the loop left; where they run out, the place behind
-- the last one tested. `none` is the read of an entry that is not there.
unfoldable pub free_slot : (k i : ℕ) → Table → Option ℕ
free_slot zero i t = some i
free_slot (suc k) i t = do
  r ← get_elem? t i
  let rest = free_slot k (i + 1) t
  if is_free r then some i else rest

-- The loop tests entries 0 to 10, though a table has ten. The result is the index, or `none` for -1, where
-- the loop has run to its end.
unfoldable pub insert : Timeval → Table → NewRoute → Option (Option ℕ × Table)
insert now t a = do
  i ← free_slot 11 0 t
  some (if i == 11 then (none, t) else (some i, modify t i (fill now a)))
