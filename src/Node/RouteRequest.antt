-- ===== src/Node/RouteRequest.antt =====
-- Preq_process of wsm/aodv.c.
pub mod Answer
pub mod Choice
pub mod Copies
pub mod Fewest
pub mod Places
pub mod Waiting
use ajou_etri_project.Base.{
  ℕ, zero, suc, ◌+◌, ◌-◌, ◌*◌, ◌%◌, Bool, true, false, ◌&&◌, not, Option, none, some, List, [], ◌∷◌,
  ◌==◌, ltb, if◌then◌else◌, ◌>>=◌, get_elem?, get_or, modify,
}
use ajou_etri_project.Msg.{Addr, Preq, preq, sizeof_preq, sizeof_ext}
use ajou_etri_project.Route
use ajou_etri_project.Nms
use ajou_etri_project.Node.{
  Node, Env, Tmp, perr_rann_timer, find_route, route, timer_used, nms_record, nms_insert,
}
use ajou_etri_project.Node.Log.{log_if_on}
use ajou_etri_project.Node.Make.{take_ext}
use ajou_etri_project.Node.Send.{prep_start, preq_forward}
use ajou_etri_project.Node.Hello.{modify_route, insert_route}

abbrev blank_preq : Preq
blank_preq = record {
  hcnt = 0;
  dest_addr = 0;
  orig_addr = 0;
  ttl = 0;
  r_ch = 0;
  seqno = 0;
  orig_ip = 0;
  alm = 0;
}

abbrev pub tmp_at : Node → ℕ → Tmp
tmp_at n i = get_or n.tmp_preq i (record { used = false; t_preq = blank_preq; t_ext = [] })

-- The PREQ and the addresses behind it copied to `tmp_preq[index]`, which has room for five.
unfoldable pub keep_preq : ℕ → Preq → List Addr → Node → Option Node
keep_preq index p ext n =
    if ltb 5 p.hcnt
    then none
    else take_ext p.hcnt ext >>= λ path. some (record n {
      tmp_preq = modify n.tmp_preq index (λ t. record t { t_preq = p; t_ext = path });
    })

abbrev use_tmp : ℕ → Node → Node
use_tmp index n = record n { tmp_preq = modify n.tmp_preq index (λ t. record t { used = true }) }

-- The route that a PREQ for this node asks for.
abbrev pub asked_route : Preq → Node → Route.NewRoute
asked_route p n = record {
  dest = p.orig_addr;
  next = n.src_mac_addr;
  source = n.my_mac;
  prev_exist = 0;
  prev = n.my_mac;
  hcnt = p.hcnt;
  ip = p.orig_ip;
  hello_cnt = 0;
  alm = p.alm;
  seqno = p.seqno;
}

-- With the result -1 of rt_table_insert it writes in front of `tmp_preq`.
unfoldable pub first_preq : Env → Preq → List Addr → Node → Option Node
first_preq env p ext n = do
  r ← insert_route env (asked_route p n) n
  index ← r.0
  m ← keep_preq index p ext (use_tmp index r.1)
  prep_start env index m

-- The route at `i` replaced by the one that the PREQ came on.
abbrev pub reroute : Env → ℕ → Preq → Node → Node
reroute env i p n =
    modify_route i (λ r. Route.update env.stack r n.src_mac_addr p.hcnt p.alm p.seqno) n

-- Kept and rerouted; if nothing waited at `index`, the answer is scheduled too.
unfoldable pub better_preq : Env → ℕ → ℕ → Preq → List Addr → Node → Option Node
better_preq env i index p ext n =
    if (tmp_at n index).used
    then (keep_preq index p ext n >>= λ m. some (reroute env i p m))
    else keep_preq index p ext (use_tmp index n) >>= λ m. prep_start env index (reroute env i p m)

-- A PREQ on a route that is not better is answered anew if it is later and nothing waits.
unfoldable pub later_preq : Env → ℕ → ℕ → Preq → List Addr → Node → Option Node
later_preq env i index p ext n =
    if ltb (route n i).seqno p.seqno && not (tmp_at n index).used
    then better_preq env i index p ext n
    else some n

-- Metric 1 prefers fewer hops, metric 2 a larger link measure.
abbrev pub is_better : ℕ → Preq → Route.Route → Bool
is_better metric p r = if metric == 1 then ltb p.hcnt r.hcnt else metric == 2 && ltb r.alm p.alm

unfoldable pub compare_preq : Env → ℕ → ℕ → Preq → List Addr → Node → Option Node
compare_preq env i index p ext n =
    if is_better n.metric p (route n i)
    then better_preq env i index p ext n
    else if n.metric == 1
    then later_preq env i index p ext n
    else if n.metric == 2
    then later_preq env i index p ext n
    else some n

-- The choice of the route back to the node that asks. A neighbour's route is left alone.
unfoldable pub select_route : Env → Preq → List Addr → Node → Option Node
select_route env p ext n = elim (find_route n p.orig_addr 0 p.orig_addr) [
  | none ↦ first_preq env p ext n
  | some i ↦ if (route n i).hcnt == 1 then some n else elim (Route.get_index n.rt_t p.orig_addr) [
    | none ↦ some n
    | some index ↦ compare_preq env i index p ext n
  ]
]

-- The pairs of adjacent addresses behind the PREQ, from number `i` on, `k` left: each is the other's
-- neighbour. The channel of the first is known.
unfoldable pub record_path : ℕ → ℕ → ℕ → List Addr → Node → Option Node
record_path r_ch zero i ext n = some n
record_path r_ch (suc k) i ext n = do
  a ← get_elem? ext i
  b ← get_elem? ext (i + 1)
  record_path r_ch k (i + 1) ext
      (nms_record b a 0 1 0 (nms_record a b (if i == 0 then r_ch else 0) 1 0 n))

-- A PREQ for this node.
unfoldable pub preq_here : Env → Preq → List Addr → Node → Option Node
preq_here env p ext n = do
  a ← log_if_on (sizeof_preq + sizeof_ext * p.hcnt) (preq p ext) n
  let b =
      (if timer_used a perr_rann_timer && p.orig_addr == a.perr_rann_node
        then record a { perr_rann_check = 1 }
        else a)
  c ← select_route env p ext b
  let d =
      (if p.hcnt == 1
        then elim (Nms.find c.nms_t p.orig_addr) [
          | none ↦ nms_insert p.orig_addr c.my_mac p.r_ch 1 0 c
          | some _ ↦ c
        ]
        else c)
  record_path p.r_ch (p.hcnt - 1) 0 ext d

-- The search for this node among the addresses behind the PREQ. Round `i` moves the pointer `i`
-- places on from where it stood, so the places looked at are 0, 1, 3, 6, …
unfoldable pub is_repeated : Addr → ℕ → ℕ → ℕ → List Addr → Option Bool
is_repeated my_mac zero i position ext = some false
is_repeated my_mac (suc k) i position ext = do
  a ← get_elem? ext (position + i)
  let rest = is_repeated my_mac k (i + 1) (position + i) ext
  if my_mac == a then some true else rest

-- A PREQ for another node.
unfoldable pub preq_there : Preq → List Addr → Node → Option Node
preq_there p ext n = do
  repeated ← is_repeated n.my_mac p.hcnt 0 0 ext
  if repeated
      then some n
      else (log_if_on (sizeof_preq + sizeof_ext * p.hcnt) (preq p ext) n >>= preq_forward p ext)

-- The measure of the link that the PREQ came on is added to it.
abbrev pub add_alm : Preq → Node → Preq
add_alm p n = elim (find_route n n.src_mac_addr 0 n.src_mac_addr) [
  | none ↦ p
  | some i ↦ record p { alm = (p.alm + (route n i).alm) % 4294967296 }
]

unfoldable pub preq_process : Env → Preq → List Addr → Node → Option Node
preq_process env p ext n = do
  let q = add_alm p n
  if n.my_mac == q.dest_addr then preq_here env q ext n else preq_there q ext n
