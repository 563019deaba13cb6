-- ===== src/Node/Rann.antt =====
-- Rann_process and Rann_ack_process of wsm/aodv.c.
pub mod Again
pub mod Period
pub mod Steps
use ajou_etri_project.Base.{
  ℕ, ◌+◌, ◌%◌, Bool, true, false, ◌&&◌, ◌||◌, not, Option, none, some, ◌==◌, ltb, if◌then◌else◌,
  ◌>>=◌, modify,
}
use ajou_etri_project.Msg.{Addr, Rann, RannAck, rann, sizeof_rann}
use ajou_etri_project.Nms
use ajou_etri_project.Route
use ajou_etri_project.Node.{
  Node, Env, api_reset_timer, find_route, route, rt_nms_reset, set_timeout,
}
use ajou_etri_project.Node.Log.{log_if_on}
use ajou_etri_project.Node.Make.{make_preq, make_rann_ack}
use ajou_etri_project.Node.Send.{rann_forward, send_rann_ack}
use ajou_etri_project.Node.Hello.{modify_route}

-- A value that the root announces is taken over where it is set and differs.
abbrev pub is_change : ℕ → ℕ → Bool
is_change new old = not (new == old) && not (new == 0)

unfoldable pub take_metric : Rann → Node → Option Node
take_metric r n =
    if is_change r.metric n.metric
    then rt_nms_reset (record n { config = record (n.config) { metric = r.metric } })
    else some n

-- The radio is opened again a second later.
unfoldable pub reopen : Env → Node → Option Node
reopen env n =
    set_timeout env api_reset_timer 1000 (record n { api_reset_flag = 1 }) >>= rt_nms_reset

unfoldable pub take_channel : Env → Rann → Node → Option Node
take_channel env r n =
    if is_change r.recv_channel n.receiving_channel
    then reopen env (record n { config = record (n.config) { receiving_channel = r.recv_channel } })
    else some n

unfoldable pub take_data_rate : Env → Rann → Node → Option Node
take_data_rate env r n =
    if is_change r.data_rate n.data_rate
    then reopen env (record n { config = record (n.config) { data_rate = r.data_rate } })
    else some n

-- The update period is compared and not assigned: `update_cycle == 0.5;` has no effect.
unfoldable pub take_commands : Env → Rann → Node → Option Node
take_commands env r n = do
  a ← if r.reset == 1 then rt_nms_reset n else some n
  let b = record a { nms_log_on = r.log == 2 }
  if b.my_mac == r.reset_addr
      then set_timeout env api_reset_timer 1000 (record b { reboot_flag = 1 })
      else some b

unfoldable pub answer_rann : Node → Option Node
answer_rann n = elim (find_route n n.root_addr 1 n.my_mac) [
  | none ↦ make_preq n.root_addr n.rann_order n
  | some _ ↦ send_rann_ack n
]

-- A node other than the root, on an announcement that is new.
unfoldable pub follow_rann : Env → Rann → Node → Option Node
follow_rann env r n = do
  a ← log_if_on sizeof_rann (rann r) (record n { rann_order = r.order; root_addr = r.orig_addr })
  b ← if ltb 1 r.ttl then rann_forward r a else some a
  c ← take_metric r b
  d ← take_channel env r c
  e ← take_data_rate env r d
  f ← take_commands env r e
  answer_rann f

unfoldable pub rann_process : Env → Rann → Node → Option Node
rann_process env r n = do
  m ←
      if r.rann_id == n.rann_id
      then some n
      else rt_nms_reset (record n { rann_id = r.rann_id; rann_order = 0 })
  if ltb m.rann_order r.order && not (m.root_node == 1) then follow_rann env r m else some m

-- The root's part of Rann_ack_process.
unfoldable pub record_alm : Env → Addr → ℕ → Node → Node
record_alm env source alm n = elim (Nms.find n.nms_t source) [
  | none ↦ n
  | some i ↦
      if alm == 0
      then n
      else let m = record n {
        nms_t =
            modify n.nms_t i (λ r. record r { alm_next_hop = alm; last_rann_ack_time = env.now });
      } in
        elim (find_route m source 0 source) [
          | none ↦ m
          | some j ↦
              if (route m j).hcnt == 1
              then m
              else modify_route j (λ r. record r { alm_next_hop = alm }) m
        ]
]

unfoldable pub pass_alm : Env → Addr → ℕ → Node → Option Node
pass_alm env source alm n =
    if n.root_node == 1
    then some (record_alm env source alm n)
    else elim (find_route n n.root_addr 1 source) [
      | none ↦ some n
      | some i ↦ make_rann_ack source (route n i).next_hop alm n
    ]

-- The first node on the way puts in its own measure of the link to the sender.
unfoldable pub rann_ack_process : Env → RannAck → Node → Option Node
rann_ack_process env k n = elim (find_route n k.orig_addr 0 k.orig_addr) [
  | none ↦ some n
  | some i ↦
      if n.my_mac == k.next_addr
      then pass_alm env k.orig_addr
          (if (route n i).hcnt == 1 then (route n i).alm_next_hop else k.alm_next_hop) n
      else some n
]
