-- ===== src/Node/Start.antt =====
-- The start of the daemon: rt_table_init, Hello_timeout_start, API_reset_timer_start,
-- Perr_rann_mechanism_timer and Timer_Reset of wsm/aodv.c, and the calls of Hello_Rann_thread_func of
-- wsm/wsm-mesh.c before its loop.
use ajou_etri_project.Base.{ℕ, zero, suc, ◌+◌, ◌-◌, ◌^◌, Option, some, ◌==◌, if◌then◌else◌, ◌>>=◌}
use ajou_etri_project.Msg.{Addr}
use ajou_etri_project.TxQueue
use ajou_etri_project.Nms
use ajou_etri_project.Node.{
  Node, Env, hello_timeout_process, perr_rann_mechanism, api_reset_process, hello_timer,
  sch_hello_timer, sch_hello_check_timer, rann_timer, alm_timer, data_timer, hello_timeout_timer,
  perr_rann_timer, api_reset_timer, route_select_timer, set_timeout, start_timer, stop_timer,
  timer_used, rt_table_empty,
}
use ajou_etri_project.Node.Hello
use ajou_etri_project.Node.Send.{hello_start, sch_hello_start, rann_start}
use ajou_etri_project.Node.Alm.{alm_start, start_once}

-- `mac` is what mesh_get_mac_address finds. The address of the log, which `main` copied from `my_mac`
-- before this call, stays as it was.
unfoldable pub rt_table_init : Addr → Node → Option Node
rt_table_init mac n = do
  let m = record (rt_table_empty 10 n) {
    src_ip = n.my_ip;
    dst_ip = 2 ^ 32 - 1;
    my_mac = mac;
    src_mac_addr = mac;
    dest_mac_addr = 2 ^ 48 - 1;
  }
  t ← Nms.empty_rows m.config m.my_mac m.nms_t 12
  some (record m { nms_t = t; tq = TxQueue.init_q })

unfoldable pub hello_timeout_start : Env → Node → Option Node
hello_timeout_start env =
    start_once hello_timeout_timer hello_timeout_process (Hello.hello_timeout_process env)

-- The timer is given its handler, and no time.
unfoldable pub api_reset_timer_start : Node → Option Node
api_reset_timer_start = start_once api_reset_timer api_reset_process some

unfoldable pub perr_rann_mechanism_timer : Env → Addr → Node → Option Node
perr_rann_mechanism_timer env timeout_addr n =
    if timer_used n perr_rann_timer
    then some n
    else start_timer perr_rann_timer perr_rann_mechanism
        (record n { perr_rann_node = timeout_addr })
      >>= set_timeout env perr_rann_timer 20000

-- The first `k` timers for the choice of a route.
abbrev pub stop_selections : ℕ → ℕ → Node → Node
stop_selections zero i n = n
stop_selections (suc k) i n = stop_selections k (i + 1) (stop_timer (route_select_timer i) n)

-- Timer_Reset; the timers `nms_alm_timer` and `perr_rann_timer` go on.
unfoldable pub timer_reset : Node → Node
timer_reset n =
    let a =
      stop_timer sch_hello_check_timer (stop_timer sch_hello_timer (stop_timer hello_timer n)) in
    let b = stop_timer data_timer (stop_timer alm_timer (stop_timer rann_timer a)) in
    let c = stop_timer data_timer (stop_timer hello_timeout_timer b) in
    stop_selections 10 0 (stop_timer api_reset_timer c)

-- Hello_Rann_thread_func before it waits for timers; `random` is the value of `rand()`.
unfoldable pub start_thread : Env → ℕ → Node → Option Node
start_thread env random n = do
  a ← hello_start env n
  b ← hello_timeout_start env a
  c ← sch_hello_start env b
  d ← alm_start env c
  e ← api_reset_timer_start d
  if e.root_node == 1 then rann_start env random e else some e
