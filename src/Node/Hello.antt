-- ===== src/Node/Hello.antt =====
-- Hello_process, SCH_Hello_process and Hello_timeout_process of wsm/aodv.c.
use ajou_etri_project.Base.{
  ℕ, zero, suc, ◌+◌, ◌%◌, Bool, true, false, ◌&&◌, not, Option, none, some, ◌==◌, ltb,
  if◌then◌else◌, ◌>>=◌, modify,
}
use ajou_etri_project.Msg.{Addr, Hello}
use ajou_etri_project.Timer.{Timeval}
use ajou_etri_project.Route
use ajou_etri_project.Nms
use ajou_etri_project.Node.{
  Node, Env, Cycle, half, one, one_half, hello_timeout_timer, find_route, route, rt_table_empty,
  nms_record, set_timeout,
}
use ajou_etri_project.Node.Make.{make_perr, perr_unicast}

abbrev pub modify_route : ℕ → (Route.Route → Route.Route) → Node → Node
modify_route i f n = record n { rt_t = modify n.rt_t i f }

-- rt_table_insert on the node's table.
unfoldable pub insert_route : Env → Route.NewRoute → Node → Option (Option ℕ × Node)
insert_route env a n = do r ← Route.insert env.now n.rt_t a; some (r.0, record n { rt_t = r.1 })

abbrev heard : Timeval → ℕ → Route.Route → Route.Route
heard now ip r = record r {
  hello_cnt = (r.hello_cnt + 1) % 4294967296;
  last_hello_time = now;
  dest_ip = if r.dest_ip == 0 && not (ip == 0) then ip else r.dest_ip;
}

abbrev neighbor_route : Addr → Addr → ℕ → Route.NewRoute
neighbor_route dest my_mac ip = record {
  dest = dest;
  next = dest;
  source = my_mac;
  prev_exist = 0;
  prev = my_mac;
  hcnt = 1;
  ip = ip;
  hello_cnt = 1;
  alm = 0;
  seqno = 0;
}

unfoldable pub hear_neighbor : Env → Hello → Node → Option Node
hear_neighbor env h n = elim (find_route n h.orig_addr 0 h.orig_addr) [
  | some i ↦ some (modify_route i (heard env.now h.orig_ip) n)
  | none ↦
      if h.orig_ip == 0
      then some n
      else insert_route env (neighbor_route h.orig_addr n.my_mac h.orig_ip) n >>= λ r. some r.1
]

unfoldable pub hello_process : Env → Hello → Node → Option Node
hello_process env h n = do
  m ← hear_neighbor env h n
  if m.root_node == 1
      then some (
          nms_record h.orig_addr m.my_mac m.receiving_channel 1 1
            (nms_record m.my_mac h.orig_addr h.r_ch 1 0 m))
      else some m

unfoldable pub sch_hello_process : Env → Hello → Node → Option Node
sch_hello_process env h n = elim (find_route n h.orig_addr 0 h.orig_addr) [
  | none ↦ some n
  | some i ↦ some (
      modify_route i
        (λ r. record r {
          sch_hello_cnt = (r.sch_hello_cnt + 1) % 4294967296;
          sch_hello_detector = (r.sch_hello_detector + 1) % 256;
          last_hello_time = env.now;
        })
        n)
]

-- (int)(10 * update_cycle), in seconds.
abbrev pub hello_limit : Cycle → ℕ
hello_limit half = 5
hello_limit one = 10
hello_limit one_half = 15

-- The entries through the dead neighbour, from `j` on, `k` rounds left. The first one that led to the
-- root is reported.
unfoldable pub drop_next_hop : Addr → ℕ → ℕ → ℕ → Bool → Node → Option Node
drop_next_hop t i zero j sent n = some n
drop_next_hop t i (suc k) j sent n =
    let hit = not (j == i) && (route n j).next_hop == t in
    let report = hit && (route n j).dest_addr == n.root_addr && not sent in
    (if report then make_perr t n.my_mac n else some n) >>= λ m.
    drop_next_hop t i k (j + 1) (if report then true else sent)
      (if hit then rt_table_empty j m else m)

-- The entries of which the address that `f` reads is the dead neighbour.
unfoldable pub drop_by : (Route.Route → Addr) → Addr → ℕ → ℕ → ℕ → Node → Node
drop_by f t i zero j n = n
drop_by f t i (suc k) j n =
    drop_by f t i k (j + 1) (if not (j == i) && f (route n j) == t then rt_table_empty j n else n)

unfoldable pub time_out : Env → ℕ → Node → Option Node
time_out env i n = do
  let t = (route n i).dest_addr
  a ← make_perr t t n
  b ← drop_next_hop t i 10 0 false a
  let c = drop_by (λ r. r.source_addr) t i 10 0 b
  let d = rt_table_empty i (drop_by (λ r. r.prev_addr) t i 10 0 c)
  if d.root_node == 1
      then some (record d { nms_t = Nms.perr_update d.nms_t t })
      else elim (find_route d d.root_addr 1 d.my_mac) [
        | none ↦ some d
        | some _ ↦ perr_unicast env t d
      ]

-- A neighbour whose last hello is older than the limit, in whole seconds.
abbrev pub is_late : Env → Cycle → Route.Route → Bool
is_late env c r = ltb 0 r.hello_cnt && ltb (r.last_hello_time.tv_sec + hello_limit c) env.now.tv_sec

unfoldable pub time_out_rounds : Env → ℕ → ℕ → Node → Option Node
time_out_rounds env zero i n = some n
time_out_rounds env (suc k) i n =
    (if is_late env n.update_cycle (route n i) then time_out env i n else some n)
    >>= time_out_rounds env k (i + 1)

unfoldable pub hello_timeout_process : Env → Node → Option Node
hello_timeout_process env n = do
  m ← time_out_rounds env 10 0 (record n { timer_cnt = (n.timer_cnt + 1) % 4294967296 })
  if ltb m.timer_cnt 1000
      then set_timeout env hello_timeout_timer 5000 m
      else some (record m { timer_cnt = 0 })
