-- ===== src/Node/Run.antt =====
-- The second loop of Timer_timeout of wsm/aodv.c: the handlers of the expired timers run in order.
use ajou_etri_project.Base.{ℕ, zero, suc, false, Option, none, some, List, [], ◌∷◌, ◌>>=◌, length}
use ajou_etri_project.Timer
use ajou_etri_project.Node.{
  Node, Env, Handler, hello_send, sch_hello_send, sch_hello_check, rann_send, alm_calculator,
  nms_alm_calculator, data_count, hello_timeout_process, perr_rann_mechanism, api_reset_process,
  prep_send,
}
use ajou_etri_project.Node.Send.{send_hello, send_sch_hello, send_rann, send_prep, count_data}
use ajou_etri_project.Node.Hello
use ajou_etri_project.Node.RouteRequest.{tmp_at}
use ajou_etri_project.Node.RouteError.{perr_rann_mechanism_run}
use ajou_etri_project.Node.Alm.{check_sch_hello, calculate_alm, calculate_nms_alm}
use ajou_etri_project.Node.Control.{api_reset_run}

unfoldable pub handle : Env → Handler → Node → Option Node
handle env hello_send n = send_hello env n
handle env sch_hello_send n = send_sch_hello env n
handle env sch_hello_check n = check_sch_hello env n
handle env rann_send n = send_rann env n
handle env alm_calculator n = calculate_alm env n
handle env nms_alm_calculator n = calculate_nms_alm env n
handle env data_count n = count_data env n
handle env hello_timeout_process n = Hello.hello_timeout_process env n
handle env perr_rann_mechanism n = perr_rann_mechanism_run n
handle env api_reset_process n = some (api_reset_run n)
handle env (prep_send i) n = send_prep (tmp_at n i).t_preq (tmp_at n i).t_ext n

-- One round: the first expired timer is unlinked, is not in use any more, and its handler runs.
unfoldable pub run_first : Env → ℕ → List ℕ → Node → Option Node
run_first env i rest n =
    let t = Timer.set_used (record (n.timers) { exp_tq = rest }) i false in
    let m = record n { timers = t } in
    elim (Timer.timer_at t i).handler [ none ↦ some m | some f ↦ handle env f m ]

-- `fuel` rounds at most.
unfoldable pub run_expired : Env → ℕ → Node → Option Node
run_expired env zero n = some n
run_expired env (suc fuel) n = elim n.timers.exp_tq [
  | [] ↦ some n
  | i ∷ rest ↦ run_first env i rest n >>= run_expired env fuel
]

-- Timer_timeout. No handler adds to the expired list, so that its length is enough fuel.
unfoldable pub timer_timeout : Env → Node → Option Node
timer_timeout env n =
    let m = record n { timers = Timer.expire env.now n.timers } in
    run_expired env (length m.timers.exp_tq) m
