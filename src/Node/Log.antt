-- ===== src/Node/Log.antt =====
-- The log that travels to the network management system: NMS_log_add, NMS_log_send, NMS_log_reset,
-- NMS_log_send_nms, NMS_logging, NMS_log_forward and NMS_log_process of wsm/aodv.c. The log buffer is
-- the messages in it, beside their number of bytes.
use ajou_etri_project.Base.{
  ℕ, ◌+◌, Option, none, some, List, [], ◌∷◌, ◌++◌, ◌==◌, ltb, if◌then◌else◌, ◌>>=◌,
}
use ajou_etri_project.Msg.{Addr, Msg, nms_log, sizeof_nms_log_info}
use ajou_etri_project.TxQueue.{max_frame_len}
use ajou_etri_project.Node.{Node, to_nms, unicast, cch, find_route, route, send_to}

unfoldable pub log_add : ℕ → Msg → Node → Option Node
log_add size msg n =
    if ltb max_frame_len (n.log_size + size)
    then none
    else some (record n { log_buff = n.log_buff ++ msg ∷ []; log_size = n.log_size + size })

unfoldable pub log_reset : Node → Node
log_reset n = record n { log_buff = []; log_size = 0 }

-- NMS_log_send: with no route to the root the log is kept.
unfoldable pub log_send : Node → Option Node
log_send n = elim (find_route n n.root_addr 1 n.my_mac) [
  | none ↦ some n
  | some i ↦ do
    let frame = nms_log n.my_mac n.log_size n.log_buff
    let len = n.log_size + sizeof_nms_log_info
    m ← if ltb max_frame_len len then none else send_to (route n i).next_hop len frame unicast cch n
    some (log_reset m)
]

-- NMS_log_send_nms, from the root to the management system.
unfoldable pub log_send_nms : Addr → ℕ → List Msg → Node → Option Node
log_send_nms orig size msgs n =
    if n.nms_connection == 0
    then some n
    else if ltb max_frame_len (size + sizeof_nms_log_info)
    then none
    else some (record n { out = to_nms orig size msgs ∷ n.out })

unfoldable pub nms_logging : ℕ → Msg → Node → Option Node
nms_logging size msg n = do
  m ← log_add size msg n
  if m.root_node == 1
      then (log_send_nms m.log_orig m.log_size m.log_buff m >>= λ k. some (log_reset k))
      else log_send m

-- `if (nms_log_on == true) NMS_logging(…)`
unfoldable pub log_if_on : ℕ → Msg → Node → Option Node
log_if_on size msg n = if n.nms_log_on then nms_logging size msg n else some n

unfoldable pub log_forward : Addr → ℕ → List Msg → Node → Option Node
log_forward source size msgs n = elim (find_route n n.root_addr 1 source) [
  | none ↦ some n
  | some i ↦
      send_to (route n i).next_hop (sizeof_nms_log_info + size) (nms_log source size msgs) unicast
        cch n
]

-- NMS_log_process, on the log of another node.
unfoldable pub log_process : Addr → ℕ → List Msg → Node → Option Node
log_process source size msgs n =
    if n.root_node == 1 then log_send_nms source size msgs n else log_forward source size msgs n
