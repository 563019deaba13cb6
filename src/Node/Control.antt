-- ===== src/Node/Control.antt =====
-- The commands of the network management system: the switch of NMS_TCP_recv_func of
-- wsm/wsm-mesh.c, nms_control_msg_process and API_reset_process of wsm/aodv.c.
pub mod Allowed
use ajou_etri_project.Base.{
  ℕ, ◌+◌, ◌%◌, Bool, true, false, ◌&&◌, ◌||◌, not, Option, none, some, ◌∷◌, ◌==◌, ltb, leb,
  if◌then◌else◌, ◌>>=◌, modify,
}
use ajou_etri_project.Msg.{Addr}
use ajou_etri_project.Nms
use ajou_etri_project.Node.{
  Node, Env, Cycle, half, one, one_half, Output, api_reset, reboot, rann_timer, rann_period,
  rt_nms_reset, set_timeout,
}
use ajou_etri_project.Node.Make.{make_rann}

-- By the type byte: 0, 1, 2, 3, 99, and any other.
pub data Command : Type 0 where
  change : (metric data_rate recv_channel : ℕ) → Command
  log_switch reset update_period : ℕ → Command
  reboot_node : Addr → Command
  unknown : ℕ → Command

abbrev pub modify_row : ℕ → (Nms.Row → Nms.Row) → Node → Node
modify_row i f n = record n { nms_t = modify n.nms_t i f }

-- Case 0 of nms_control_msg_process, at the node's own row `i`.
unfoldable pub apply_change : ℕ → ℕ → Node → Option Node
apply_change new_metric i n = do
  a ←
      if n.receiving_channel == (Nms.row n.nms_t i).receiving_channel
      then some n
      else rt_nms_reset (modify_row i (λ r. record r { receiving_channel = n.receiving_channel }) n)
  b ←
      if a.data_rate == (Nms.row a.nms_t i).data_rate
      then some a
      else rt_nms_reset (modify_row i (λ r. record r { data_rate = a.data_rate }) a)
  if b.metric == new_metric
      then some b
      else rt_nms_reset (
          modify_row i (λ r. record r { metric = new_metric % 256 })
            (record b { config = record (b.config) { metric = new_metric } }))

unfoldable pub control : Env → Command → Node → Option Node
control env (change new_metric new_rate new_channel) n = elim (Nms.find n.nms_t n.my_mac) [
  | none ↦ some n
  | some i ↦ apply_change new_metric i n
]
control env (log_switch v) n = some (record n { nms_log_on = v == 2 })
control env (reset v) n =
    if v == 1 then (rt_nms_reset n >>= λ m. some (record m { route_reset = 1 })) else some n
control env (update_period v) n =
    make_rann 0 n >>= λ m. set_timeout env rann_timer (rann_period m.update_cycle) m
control env (reboot_node a) n =
    make_rann a (record n { rann_order = (n.rann_order + 1) % 4294967296 }) >>= λ m.
    set_timeout env rann_timer (rann_period m.update_cycle) m
control env (unknown t) n = some n

-- What is kept of a requested value: 0 and values that are not allowed leave the current one.
abbrev pub accepted_metric : ℕ → ℕ → ℕ
accepted_metric v current =
    if v == 0 || v == current then current else if ltb 0 v && ltb v 4 then v else current

abbrev pub accepted_rate : ℕ → ℕ → ℕ
accepted_rate v current =
    if v == 0 || v == current then current else if v == 12 || v == 18 || v == 24 then v else current

abbrev pub is_channel : ℕ → Bool
is_channel v = v == 172 || v == 174 || v == 176 || v == 180 || v == 182 || v == 184

abbrev pub accepted_channel : ℕ → ℕ → ℕ
accepted_channel v current =
    if v == 0 || v == current then current else if is_channel v then v else current

-- Reset(): the radio is closed and opened with the new settings.
abbrev pub reopened : Node → Node
reopened n = record n { out = api_reset ∷ n.out }

abbrev pub take_rate : ℕ → Node → Node
take_rate v n =
    if n.data_rate == v
    then n
    else reopened (record n { config = record (n.config) { data_rate = v } })

abbrev pub take_recv_channel : ℕ → Node → Node
take_recv_channel v n =
    if n.receiving_channel == v
    then n
    else reopened (record n { config = record (n.config) { receiving_channel = v } })

abbrev pub cycle_of : ℕ → Cycle
cycle_of v = if v == 0 then one else if v == 1 then one_half else if v == 2 then half else one

-- A command as it is received.
unfoldable pub receive_command : Env → Command → Node → Option Node
receive_command env (change v_metric v_rate v_channel) n =
    let new_metric = accepted_metric v_metric n.metric in
    let rate = accepted_rate v_rate n.data_rate in
    let channel = accepted_channel v_channel n.receiving_channel in
    control env (change new_metric rate channel) (take_recv_channel channel (take_rate rate n))
receive_command env (log_switch v) n =
    control env (log_switch (if v == 0 then (if n.nms_log_on then 2 else 1) else v)) n
receive_command env (reset v) n = control env (reset (if v == 0 || v == 1 then v else 0)) n
receive_command env (update_period v) n =
    control env (update_period v) (record n { update_cycle = cycle_of v })
receive_command env (reboot_node a) n =
    if n.my_mac == a
    then some (record n { out = reboot ∷ n.out })
    else control env (reboot_node a) n
receive_command env (unknown t) n = some n

-- API_reset_process, a second after an announcement changed the radio or asked for a restart.
unfoldable pub api_reset_run : Node → Node
api_reset_run n =
    if n.api_reset_flag == 1
    then record (reopened n) { api_reset_flag = 0 }
    else if n.reboot_flag == 1
    then record n { out = reboot ∷ n.out }
    else n
