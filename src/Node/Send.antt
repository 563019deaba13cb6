-- ===== src/Node/Send.antt =====
-- What the node sends by itself, and what it passes on: Hello_send, SCH_Hello_send, Data_Count,
-- Rann_send, Rann_ack_send, Prep_send, Prep_start, the functions *_start and *_forward of wsm/aodv.c.
pub mod Passing
pub mod Path
pub mod Destination
use ajou_etri_project.Base.{
  ℕ, zero, suc, ◌+◌, ◌*◌, ◌%◌, Bool, true, false, ◌&&◌, Option, none, some, List, [], ◌∷◌, ◌++◌,
  ◌==◌, ltb, leb, if◌then◌else◌, ◌>>=◌, get_elem?, get_or, modify,
}
use ajou_etri_project.Msg.{
  Addr, Msg, Frame, Preq, Prep, Rann, PerrUni, aodv, rann, preq, prep, perr_uni, sizeof_preq,
  sizeof_prep, sizeof_ext, sizeof_rann, sizeof_perr_uni,
}
use ajou_etri_project.Route
use ajou_etri_project.Nms
use ajou_etri_project.Node.{
  Node, Env, Handler, hello_send, sch_hello_send, data_count, rann_send, prep_send, hello_timer,
  sch_hello_timer, sch_hello_check_timer, rann_timer, alm_timer, hello_timeout_timer, data_timer,
  route_select_timer, broadcast, unicast, cch, send, send_to, set_timeout, start_timer, stop_timer,
  timer_used, rann_period, config_time, find_route, route, set_tmp_used, nms_insert,
}
use ajou_etri_project.Node.Make.{
  take_ext, make_hello, make_sch_hello, make_rann, make_rann_ack, make_prep, make_data,
}

-- Data_Count.
unfoldable pub count_data : Env → Node → Option Node
count_data env n = set_timeout env data_timer 10000 (
    if n.data_cnt == n.b_data_cnt && ltb 0 n.data_cnt
    then record n { data_cnt = 0; b_data_cnt = 0 }
    else record n { b_data_cnt = n.data_cnt })

-- The root enters itself in the table for the management system.
abbrev pub enter_root : Node → Node
enter_root n =
    if n.root_node == 1
    then elim (Nms.find n.nms_t n.my_mac) [
      | none ↦ nms_insert n.my_mac 0 n.receiving_channel 1 0 n
      | some i ↦ n
    ]
    else n

-- The end of the configuration phase: every timer but the data timer stops.
unfoldable pub end_config : Env → Node → Option Node
end_config env n = do
  let a = stop_timer hello_timer n
  let b = stop_timer sch_hello_check_timer (stop_timer sch_hello_timer a)
  let c = stop_timer hello_timeout_timer (stop_timer alm_timer (stop_timer rann_timer b))
  m ← start_timer data_timer data_count (record (stop_timer data_timer c) { config_end = true })
  count_data env m

unfoldable pub send_hello : Env → Node → Option Node
send_hello env n = do
  m ← make_hello n
  let k = enter_root (record m { timer_cnt = (m.timer_cnt + 1) % 4294967296 })
  if leb k.timer_cnt (config_time * 100)
      then (set_timeout env hello_timer 2000 k >>= λ l. some (record l { command_on = true }))
      else end_config env k

unfoldable pub send_sch_hello : Env → Node → Option Node
send_sch_hello env n = do
  m ← make_sch_hello n
  let k = enter_root (record m { timer_cnt = (m.timer_cnt + 1) % 4294967296 })
  if leb k.timer_cnt (config_time * 2000)
      then (set_timeout env sch_hello_timer 1000 k >>= λ l. some (record l { command_on = true }))
      else some k

unfoldable pub send_rann : Env → Node → Option Node
send_rann env n = do
  m ← make_rann 0 (record n { rann_order = (n.rann_order + 1) % 4294967296 })
  set_timeout env rann_timer (rann_period m.update_cycle) m

abbrev pub restart_count : Node → Node
restart_count n = record (stop_timer data_timer (record n { config_end = false; timer_cnt = 0 })) {
  data_cnt = 0;
  b_data_cnt = 0;
}

unfoldable pub hello_start : Env → Node → Option Node
hello_start env n = do
  let m = restart_count n
  if timer_used m hello_timer
      then some m
      else start_timer hello_timer hello_send m >>= send_hello env

unfoldable pub sch_hello_start : Env → Node → Option Node
sch_hello_start env n = do
  let m = restart_count n
  if timer_used m sch_hello_timer
      then some m
      else start_timer sch_hello_timer sch_hello_send m >>= send_sch_hello env

-- `random` is the value of `rand()`.
unfoldable pub rann_start : Env → ℕ → Node → Option Node
rann_start env random n = do
  let m = record n { rann_id = random % 256; root_addr = n.my_mac }
  if timer_used m rann_timer then some m else start_timer rann_timer rann_send m >>= send_rann env

unfoldable pub send_rann_ack : Node → Option Node
send_rann_ack n = elim (find_route n n.root_addr 1 n.my_mac) [
  | none ↦ some n
  | some i ↦
      let next = (route n i).next_hop in
      elim (find_route n next 0 n.my_mac) [
        | none ↦ some n
        | some j ↦ make_rann_ack n.my_mac next 0 n
      ]
]

-- Prep_start: the answer to the PREQ kept at `index` is sent three seconds later.
unfoldable pub prep_start : Env → ℕ → Node → Option Node
prep_start env index n =
    if timer_used n (route_select_timer index)
    then some n
    else start_timer (route_select_timer index) (prep_send index) n
      >>= set_timeout env (route_select_timer index) 3000

-- The root's row for the node that a route was selected to.
unfoldable pub nms_uplink : Addr → Preq → List Addr → Node → Option Node
nms_uplink dest p ext n = elim (Nms.find n.nms_t dest) [
  | none ↦ some (nms_insert dest dest n.receiving_channel 1 0 n)
  | some i ↦ do
    r ← Nms.uplink_insert (Nms.row n.nms_t i) ext p.hcnt
    some (record n { nms_t = modify n.nms_t i (λ _. r) })
]

-- Prep_send.
unfoldable pub send_prep : Preq → List Addr → Node → Option Node
unfolding nms_uplink
send_prep p ext n = do
  m ←
      make_prep p ext
        (elim (Route.get_index n.rt_t p.orig_addr) [ none ↦ n | some i ↦ set_tmp_used i false n ])
  if m.root_node == 1 then nms_uplink p.orig_addr p ext m else some m

unfoldable pub preq_forward : Preq → List Addr → Node → Option Node
preq_forward p ext n = do
  let ttl = (p.ttl + 255) % 256
  let hcnt = (p.hcnt + 1) % 256
  if ttl == 0
      then some n
      else take_ext p.hcnt ext >>= λ path.
          send (sizeof_preq + sizeof_ext * hcnt)
            (aodv (preq (record p { ttl = ttl; hcnt = hcnt }) (path ++ n.my_mac ∷ []))) broadcast
            cch n

-- With the first address behind the message zero it is dropped; otherwise the last address is the
-- next hop, and the others travel on.
unfoldable pub prep_forward : Prep → List Addr → Node → Option Node
prep_forward p ext n = do
  let ext_length = (p.ext_length + 255) % 256
  first ← get_elem? ext 0
  if first == 0
      then some n
      else take_ext ext_length ext >>= λ path. get_elem? ext ext_length >>= λ next.
          send_to next (sizeof_prep + sizeof_ext * ext_length)
            (aodv (prep (record p { ext_length = ext_length }) path)) unicast cch n

unfoldable pub perr_forward : PerrUni → Node → Option Node
perr_forward p n = elim (find_route n n.root_addr 1 p.orig_addr) [
  | none ↦ some n
  | some i ↦ send_to (route n i).next_hop sizeof_perr_uni (aodv (perr_uni p)) unicast cch n
]

unfoldable pub rann_forward : Rann → Node → Option Node
rann_forward r n =
    send sizeof_rann (aodv (rann (record r { ttl = (r.ttl + 255) % 256 }))) broadcast cch n

-- Data_forward.
unfoldable pub data_forward : ℕ → ℕ → List ℕ → Node → Option Node
data_forward dst_ip size body n = elim (Route.find_ip n.rt_t dst_ip) [
  | none ↦ some n
  | some i ↦ do
    m ← make_data (route n i).next_hop size body n
    some (record m { data_cnt = (m.data_cnt + 1) % 4294967296 })
]
