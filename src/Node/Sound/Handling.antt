-- ===== src/Node/Sound/Handling.antt =====
-- Every handler that a timer runs keeps the invariant.
use ajou_etri_project.Base.{
  ℕ, zero, suc, ◌+◌, ◌*◌, ◌%◌, ◌/◌, refl, ◌∙◌, modify, length-modify, List, false, none, some, ◌==◌,
  ltb, leb, ◌&&◌, not, Ensures, Ensures-bind, Ensures-if, Ensures-elim, Ensures-any, Option-elim,
  if-elim, ends, arith,
}
use ajou_etri_project.Msg.{Addr, Preq}
use ajou_etri_project.Route
use ajou_etri_project.Nms
use ajou_etri_project.Nms.Size.{length-map}
use ajou_etri_project.Node.{
  Node, Env, Handler, hello_send, sch_hello_send, sch_hello_check, rann_send, alm_calculator,
  nms_alm_calculator, data_count, hello_timeout_process, perr_rann_mechanism, api_reset_process,
  prep_send, find_route, hello_timer, sch_hello_timer, sch_hello_check_timer, rann_timer, alm_timer,
  nms_alm_timer, hello_timeout_timer, data_timer, perr_rann_timer, set_tmp_used, config_time,
  rann_period,
}
use ajou_etri_project.Node.Make.Keeping.{
  make_hello-Keeps, make_sch_hello-Keeps, make_rann-Keeps, make_prep-Keeps,
}
use ajou_etri_project.Node.Send.{
  count_data, enter_root, end_config, send_hello, send_sch_hello, send_rann, send_prep, nms_uplink,
}
use ajou_etri_project.Node.RouteRequest.{tmp_at}
use ajou_etri_project.Node.RouteError.{perr_rann_mechanism_run}
use ajou_etri_project.Node.Alm.{
  note_second, check_sch_hello, measure_route, calculate_alm, fade_rounds, calculate_nms_alm,
}
use ajou_etri_project.Node.Control.{api_reset_run}
use ajou_etri_project.Node.Run.{handle}
use ajou_etri_project.Node.Sound.TimingOut.{hello_timeout-IsSound}
use ajou_etri_project.Node.Sound.{
  IsSound, same_parts, kept, with_routes, with_waiting, set_timeout-IsSound, start_timer-IsSound,
  stop_timer-IsSound, modify_route-IsSound, modify_row-IsSound, nms_insert-IsSound,
}

module _ {owed : ℕ} where
  count_data-IsSound :
      (env : Env) {n : Node} → IsSound owed n → Ensures (IsSound owed) (count_data env n)
  unfolding count_data
  count_data-IsSound env {n} v = set_timeout-IsSound env data_timer 10000 (omega arith) (
      if-elim (IsSound owed) (n.data_cnt == n.b_data_cnt && ltb 0 n.data_cnt) (same_parts v refl)
        (same_parts v refl))

  enter_root-IsSound : {n : Node} → IsSound owed n → IsSound owed (enter_root n)
  enter_root-IsSound {n} v =
      if-elim (IsSound owed) (n.root_node == 1)
        (Option-elim (IsSound owed) (Nms.find n.nms_t n.my_mac)
          (nms_insert-IsSound n.my_mac 0 n.receiving_channel 1 0 v) (λ _. v))
        v

  end_config-IsSound :
      (env : Env) {n : Node} → IsSound owed n → Ensures (IsSound owed) (end_config env n)
  unfolding end_config
  end_config-IsSound env {n} v =
      let a = stop_timer-IsSound hello_timer v in
      let b = stop_timer-IsSound sch_hello_check_timer (stop_timer-IsSound sch_hello_timer a) in
      let c =
        stop_timer-IsSound hello_timeout_timer
          (stop_timer-IsSound alm_timer (stop_timer-IsSound rann_timer b)) in
      Ensures-bind
        (start_timer-IsSound data_timer data_count
          (same_parts (stop_timer-IsSound data_timer c) refl))
        (λ m w. count_data-IsSound env w)

  pub send_hello-IsSound :
      (env : Env) {n : Node} → IsSound owed n → Ensures (IsSound owed) (send_hello env n)
  unfolding send_hello
  send_hello-IsSound env {n} v = Ensures-bind (kept v (make_hello-Keeps n)) (λ m w.
      let k : Node = record m { timer_cnt = (m.timer_cnt + 1) % 4294967296 } in
      let u : IsSound owed (enter_root k) = enter_root-IsSound (same_parts w refl) in
      Ensures-if (leb (enter_root k).timer_cnt (config_time * 100))
        (Ensures-bind (set_timeout-IsSound env hello_timer 2000 (omega arith) u)
          (λ l x. ends (same_parts x refl)))
        (end_config-IsSound env u))

  pub send_sch_hello-IsSound :
      (env : Env) {n : Node} → IsSound owed n → Ensures (IsSound owed) (send_sch_hello env n)
  unfolding send_sch_hello
  send_sch_hello-IsSound env {n} v = Ensures-bind (kept v (make_sch_hello-Keeps n)) (λ m w.
      let k : Node = record m { timer_cnt = (m.timer_cnt + 1) % 4294967296 } in
      let u : IsSound owed (enter_root k) = enter_root-IsSound (same_parts w refl) in
      Ensures-if (leb (enter_root k).timer_cnt (config_time * 2000))
        (Ensures-bind (set_timeout-IsSound env sch_hello_timer 1000 (omega arith) u)
          (λ l x. ends (same_parts x refl)))
        (ends u))

  pub send_rann-IsSound :
      (env : Env) {n : Node} → IsSound owed n → Ensures (IsSound owed) (send_rann env n)
  unfolding send_rann
  send_rann-IsSound env {n} v =
      Ensures-bind (kept (same_parts v refl) (make_rann-Keeps 0 _))
        (λ m w. set_timeout-IsSound env rann_timer (rann_period m.update_cycle) (omega arith) w)

  pub check_sch_hello-IsSound :
      (env : Env) {n : Node} → IsSound owed n → Ensures (IsSound owed) (check_sch_hello env n)
  unfolding check_sch_hello
  check_sch_hello-IsSound env {n} v =
      set_timeout-IsSound env sch_hello_check_timer 1000 (omega arith)
        (with_routes v (length-map note_second n.rt_t ∙ v.routes))

  pub calculate_alm-IsSound :
      (env : Env) {n : Node} → IsSound owed n → Ensures (IsSound owed) (calculate_alm env n)
  unfolding calculate_alm
  calculate_alm-IsSound env {n} v =
      set_timeout-IsSound env alm_timer 1000 (omega arith)
        (with_routes v (length-map (measure_route env.now.tv_sec) n.rt_t ∙ v.routes))

  fade_rounds-IsSound :
      (env : Env) (k i : ℕ) {n : Node} → IsSound owed n → IsSound owed (fade_rounds env k i n)
  unfolding fade_rounds
  fade_rounds-IsSound env zero i v = v
  fade_rounds-IsSound env (suc k) i {n} v =
      let a : Addr = (Nms.row n.nms_t i).addr in
      let m : Node = record n {
        nms_t = modify n.nms_t i (λ x. record x { alm_next_hop = x.alm_next_hop / 2 });
      } in
      let w : IsSound owed m = modify_row-IsSound i _ v in
      fade_rounds-IsSound env k (i + 1) (
        if-elim (IsSound owed)
          (not (a == 0)
            && not (a == n.my_mac)
            && ltb ((Nms.row n.nms_t i).last_rann_ack_time.tv_sec + 10) env.now.tv_sec
            && not ((Nms.row n.nms_t i).alm_next_hop == 0))
          (Option-elim (IsSound owed) (find_route m a 0 a) w (λ j. modify_route-IsSound j _ w)) v)

  pub calculate_nms_alm-IsSound :
      (env : Env) {n : Node} → IsSound owed n → Ensures (IsSound owed) (calculate_nms_alm env n)
  unfolding calculate_nms_alm
  calculate_nms_alm-IsSound env v =
      set_timeout-IsSound env nms_alm_timer 5000 (omega arith) (fade_rounds-IsSound env 10 0 v)

  perr_rann_mechanism-IsSound :
      {n : Node} → IsSound owed n → Ensures (IsSound owed) (perr_rann_mechanism_run n)
  unfolding perr_rann_mechanism_run
  perr_rann_mechanism-IsSound {n} v =
      Ensures-bind {P = IsSound owed}
        (Ensures-if (n.perr_rann_check == 0)
          (Ensures-bind
            (Ensures-any {P = λ _. Unit {0}} (Nms.find n.nms_t n.perr_rann_node) (λ _. tt))
            (λ i _. ends (modify_row-IsSound i _ v)))
          (ends v))
        (λ m w. ends (same_parts (stop_timer-IsSound perr_rann_timer w) refl))

  pub api_reset-IsSound : {n : Node} → IsSound owed n → IsSound owed (api_reset_run n)
  unfolding api_reset_run
  api_reset-IsSound {n} v =
      if-elim (IsSound owed) (n.api_reset_flag == 1) (same_parts v refl)
        (if-elim (IsSound owed) (n.reboot_flag == 1) (same_parts v refl) v)

  send_prep-IsSound :
      (p : Preq) (ext : List Addr) {n : Node}
      → IsSound owed n
      → Ensures (IsSound owed) (send_prep p ext n)
  unfolding send_prep nms_uplink
  send_prep-IsSound p ext {n} v =
      let freed : Node = elim (Route.get_index n.rt_t p.orig_addr) [
        | none ↦ n
        | some i ↦ set_tmp_used i false n
      ] in
      let w : IsSound owed freed =
        Option-elim (IsSound owed) (Route.get_index n.rt_t p.orig_addr) v
          (λ i. with_waiting v (length-modify n.tmp_preq i _ ∙ v.waiting)) in
      Ensures-bind (kept w (make_prep-Keeps p ext freed)) (λ m u.
        Ensures-if (m.root_node == 1)
          (Ensures-elim (Nms.find m.nms_t p.orig_addr)
            (ends (nms_insert-IsSound p.orig_addr p.orig_addr m.receiving_channel 1 0 u))
            (λ i.
              Ensures-bind
                (Ensures-any {P = λ _. Unit {0}} (Nms.uplink_insert (Nms.row m.nms_t i) ext p.hcnt)
                  (λ _. tt))
                (λ r _. ends (modify_row-IsSound i _ u))))
          (ends u))

  -- Whatever timer's handler runs, a node whose variables are as the invariant says still has them so,
  -- unless the handler faults.
  pub handle-IsSound :
      (env : Env) (h : Handler) {n : Node}
      → IsSound owed n
      → Ensures (IsSound owed) (handle env h n)
  unfolding handle
  handle-IsSound env hello_send v = send_hello-IsSound env v
  handle-IsSound env sch_hello_send v = send_sch_hello-IsSound env v
  handle-IsSound env sch_hello_check v = check_sch_hello-IsSound env v
  handle-IsSound env rann_send v = send_rann-IsSound env v
  handle-IsSound env alm_calculator v = calculate_alm-IsSound env v
  handle-IsSound env nms_alm_calculator v = calculate_nms_alm-IsSound env v
  handle-IsSound env data_count v = count_data-IsSound env v
  handle-IsSound env hello_timeout_process v = hello_timeout-IsSound env v
  handle-IsSound env perr_rann_mechanism v = perr_rann_mechanism-IsSound v
  handle-IsSound env api_reset_process v = ends (api_reset-IsSound v)
  handle-IsSound env (prep_send i) {n} v =
      send_prep-IsSound (tmp_at n i).t_preq (tmp_at n i).t_ext v
