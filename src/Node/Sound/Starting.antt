-- ===== src/Node/Sound/Starting.antt =====
-- The start of the daemon and the stop of its timers keep the invariant.
use ajou_etri_project.Base.{
  ℕ, zero, suc, ◌+◌, ◌-◌, ◌^◌, ◌∙◌, refl, false, ◌==◌, Option, Ensures, Ensures-bind, Ensures-if,
  ends, arith,
}
use ajou_etri_project.Msg.{Addr}
use ajou_etri_project.TxQueue.Refine.{init_q-IsValid}
use ajou_etri_project.Nms
use ajou_etri_project.Nms.Size.{empty_rows-length}
use ajou_etri_project.Node.{
  Node, Env, Handler, timer_used, rt_table_empty, rann_send, hello_send, sch_hello_send,
  hello_timer, sch_hello_timer, rann_timer, perr_rann_timer, perr_rann_mechanism,
  route_select_timer, sch_hello_check, alm_calculator, nms_alm_calculator, hello_timeout_process,
  api_reset_process, sch_hello_check_timer, alm_timer, nms_alm_timer, hello_timeout_timer,
  api_reset_timer, data_timer,
}
use ajou_etri_project.Node.Send.{hello_start, sch_hello_start, rann_start, restart_count}
use ajou_etri_project.Node.Alm.{alm_start, start_once}
use ajou_etri_project.Node.Start.{
  rt_table_init, hello_timeout_start, api_reset_timer_start, perr_rann_mechanism_timer,
  stop_selections, timer_reset, start_thread,
}
use ajou_etri_project.Node.Sound.{
  IsSound, same_parts, with_rows, with_queue, set_timeout-IsSound, start_timer-IsSound,
  stop_timer-IsSound, rt_table_empty-IsSound,
}
use ajou_etri_project.Node.Sound.Handling.{
  send_hello-IsSound, send_sch_hello-IsSound, send_rann-IsSound, check_sch_hello-IsSound,
  calculate_alm-IsSound, calculate_nms_alm-IsSound,
}
use ajou_etri_project.Node.Sound.TimingOut.{hello_timeout-IsSound}

module _ {owed : ℕ} where
  start_once-IsSound :
      (timer : ℕ) (f : Handler) (run : Node → Option Node) {n : Node}
      → ((m : Node) → IsSound owed m → Ensures (IsSound owed) (run m))
      → IsSound owed n
      → Ensures (IsSound owed) (start_once timer f run n)
  start_once-IsSound timer f run {n} h v =
      Ensures-if (timer_used n timer) (ends v) (Ensures-bind (start_timer-IsSound timer f v) h)

  restart_count-IsSound : {n : Node} → IsSound owed n → IsSound owed (restart_count n)
  restart_count-IsSound {n} v =
      let m : Node = record n { config_end = false; timer_cnt = 0 } in
      let w : IsSound owed m = same_parts v refl in
      same_parts (stop_timer-IsSound data_timer w) refl

  pub hello_start-IsSound :
      (env : Env) {n : Node} → IsSound owed n → Ensures (IsSound owed) (hello_start env n)
  unfolding hello_start
  hello_start-IsSound env v =
      start_once-IsSound hello_timer hello_send _ (λ m w. send_hello-IsSound env w)
        (restart_count-IsSound v)

  sch_hello_start-IsSound :
      (env : Env) {n : Node} → IsSound owed n → Ensures (IsSound owed) (sch_hello_start env n)
  unfolding sch_hello_start
  sch_hello_start-IsSound env v =
      start_once-IsSound sch_hello_timer sch_hello_send _ (λ m w. send_sch_hello-IsSound env w)
        (restart_count-IsSound v)

  rann_start-IsSound :
      (env : Env) (random : ℕ) {n : Node}
      → IsSound owed n
      → Ensures (IsSound owed) (rann_start env random n)
  unfolding rann_start
  rann_start-IsSound env random v =
      start_once-IsSound rann_timer rann_send _ (λ m w. send_rann-IsSound env w) (same_parts v refl)

  alm_start-IsSound :
      (env : Env) {n : Node} → IsSound owed n → Ensures (IsSound owed) (alm_start env n)
  unfolding alm_start
  alm_start-IsSound env v =
      Ensures-bind
        (start_once-IsSound sch_hello_check_timer sch_hello_check _
          (λ m w. check_sch_hello-IsSound env w) v)
        (λ a va.
          Ensures-bind
            (start_once-IsSound alm_timer alm_calculator _ (λ m w. calculate_alm-IsSound env w) va)
            (λ b vb.
              Ensures-if (b.root_node == 1)
                (start_once-IsSound nms_alm_timer nms_alm_calculator _
                  (λ m w. calculate_nms_alm-IsSound env w) vb)
                (ends vb)))

  pub hello_timeout_start-IsSound :
      (env : Env) {n : Node} → IsSound owed n → Ensures (IsSound owed) (hello_timeout_start env n)
  unfolding hello_timeout_start
  hello_timeout_start-IsSound env v =
      start_once-IsSound hello_timeout_timer hello_timeout_process _
        (λ m w. hello_timeout-IsSound env w) v

  api_reset_timer_start-IsSound :
      {n : Node} → IsSound owed n → Ensures (IsSound owed) (api_reset_timer_start n)
  unfolding api_reset_timer_start
  api_reset_timer_start-IsSound v =
      start_once-IsSound api_reset_timer api_reset_process _ (λ m w. ends w) v

  pub perr_rann_timer-IsSound :
      (env : Env) (a : Addr) {n : Node}
      → IsSound owed n
      → Ensures (IsSound owed) (perr_rann_mechanism_timer env a n)
  unfolding perr_rann_mechanism_timer
  perr_rann_timer-IsSound env a {n} v = Ensures-if (timer_used n perr_rann_timer) (ends v) (
      Ensures-bind (start_timer-IsSound perr_rann_timer perr_rann_mechanism (same_parts v refl))
        (λ m w. set_timeout-IsSound env perr_rann_timer 20000 (omega arith) w))

  stop_selections-IsSound :
      (k i : ℕ) {n : Node} → IsSound owed n → IsSound owed (stop_selections k i n)
  stop_selections-IsSound zero i v = v
  stop_selections-IsSound (suc k) i v =
      stop_selections-IsSound k (i + 1) (stop_timer-IsSound (route_select_timer i) v)

  pub timer_reset-IsSound : {n : Node} → IsSound owed n → IsSound owed (timer_reset n)
  unfolding timer_reset
  timer_reset-IsSound v =
      let a = stop_timer-IsSound sch_hello_timer (stop_timer-IsSound hello_timer v) in
      let b = stop_timer-IsSound rann_timer (stop_timer-IsSound sch_hello_check_timer a) in
      let c = stop_timer-IsSound data_timer (stop_timer-IsSound alm_timer b) in
      let d = stop_timer-IsSound data_timer (stop_timer-IsSound hello_timeout_timer c) in
      stop_selections-IsSound 10 0 (stop_timer-IsSound api_reset_timer d)

  pub start_thread-IsSound :
      (env : Env) (random : ℕ) {n : Node}
      → IsSound owed n
      → Ensures (IsSound owed) (start_thread env random n)
  unfolding start_thread
  start_thread-IsSound env random v = Ensures-bind (hello_start-IsSound env v) (λ a va.
      Ensures-bind (hello_timeout_start-IsSound env va) (λ b vb.
        Ensures-bind (sch_hello_start-IsSound env vb) (λ c vc.
          Ensures-bind (alm_start-IsSound env vc) (λ d vd.
            Ensures-bind (api_reset_timer_start-IsSound vd) (λ e ve.
              Ensures-if (e.root_node == 1) (rann_start-IsSound env random ve) (ends ve))))))

  pub rt_table_init-IsSound :
      (mac : Addr) {n : Node} → IsSound owed n → Ensures (IsSound owed) (rt_table_init mac n)
  unfolding rt_table_init Nms.empty_rows rt_table_empty
  rt_table_init-IsSound mac {n} v =
      let m : Node = record (rt_table_empty 10 n) {
        src_ip = n.my_ip;
        dst_ip = 2 ^ 32 - 1;
        my_mac = mac;
        src_mac_addr = mac;
        dest_mac_addr = 2 ^ 48 - 1;
      } in
      let w : IsSound owed m = same_parts (rt_table_empty-IsSound 10 v) refl in
      Ensures-bind (empty_rows-length m.config m.my_mac m.nms_t 12) (λ t h.
        let u : IsSound owed (record m { nms_t = t }) = with_rows w (h ∙ w.rows) in
        ends (with_queue u init_q-IsValid))
