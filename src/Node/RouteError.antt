-- ===== src/Node/RouteError.antt =====
-- Perr_process, Perr_unicast_process, Perr_unicast_state_process and Perr_rann_mechanism of
-- wsm/aodv.c.
pub mod Dropped
use ajou_etri_project.Base.{
  ℕ, zero, suc, ◌+◌, Bool, true, false, ◌||◌, Option, none, some, ◌==◌, if◌then◌else◌, ◌>>=◌,
  modify,
}
use ajou_etri_project.Msg.{Addr, Perr, PerrUni, perr, sizeof_perr}
use ajou_etri_project.Route
use ajou_etri_project.Nms
use ajou_etri_project.Node.{Node, Env, perr_rann_timer, route, rt_table_empty, stop_timer}
use ajou_etri_project.Node.Log.{log_if_on}
use ajou_etri_project.Node.Make.{make_perr}
use ajou_etri_project.Node.Send.{perr_forward}

-- The entry leads to the address, goes through it, starts at it or came from it.
abbrev pub mentions : Addr → Route.Route → Bool
mentions a r = a == r.dest_addr || a == r.next_hop || a == r.source_addr || a == r.prev_addr

-- Round `i` of the loop. Where the message names the same node twice the sender's own way to the root
-- is intact; otherwise an entry through the named node is dropped only if it leads to the root, and
-- that is reported.
unfoldable pub perr_round : Perr → ℕ → Node → Option Node
perr_round p i n =
    if p.timeout_addr == p.dest_addr
    then some (if mentions p.timeout_addr (route n i) then rt_table_empty i n else n)
    else if p.dest_addr == (route n i).next_hop
    then if n.root_addr == (route n i).dest_addr
      then (make_perr p.timeout_addr n.my_mac n >>= λ m. some (rt_table_empty i m))
      else some n
    else some (if mentions p.timeout_addr (route n i) then rt_table_empty i n else n)

unfoldable pub perr_rounds : Perr → ℕ → ℕ → Node → Option Node
perr_rounds p zero i n = some n
perr_rounds p (suc k) i n = perr_round p i n >>= perr_rounds p k (i + 1)

unfoldable pub perr_process : Perr → Node → Option Node
perr_process p n = do m ← log_if_on sizeof_perr (perr p) n; perr_rounds p 10 0 m

unfoldable pub perr_unicast_process : PerrUni → Node → Option Node
perr_unicast_process p n =
    if n.root_node == 1
    then some (record n { nms_t = Nms.perr_update n.nms_t p.timeout_addr })
    else perr_forward p n

unfoldable pub perr_rann_mechanism_run : Node → Option Node
perr_rann_mechanism_run n = do
  m ←
      if n.perr_rann_check == 0
      then (Nms.find n.nms_t n.perr_rann_node >>= λ i.
          some (record n { nms_t = modify n.nms_t i (λ r. record r { node_state = 0 }) }))
      else some n
  some (record (stop_timer perr_rann_timer m) { perr_rann_check = 0; perr_rann_node = 0 })
