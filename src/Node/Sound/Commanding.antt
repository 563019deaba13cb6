-- ===== src/Node/Sound/Commanding.antt =====
-- The commands of the management system and the console keep the invariant.
use ajou_etri_project.Base.{
  ℕ, refl, none, some, List, ◌==◌, ltb, ◌>>=◌, Ensures, Ensures-bind, Ensures-if, Ensures-elim,
  if-elim, ends, arith, ℤ, pos, negsuc,
}
use ajou_etri_project.Msg.{Addr}
use ajou_etri_project.TxQueue.Refine.{init_q-IsValid}
use ajou_etri_project.Nms
use ajou_etri_project.Node.Make.{make_rann}
use ajou_etri_project.Node.{set_timeout, Node, Env, rann_timer, rann_period, sch, cch}
use ajou_etri_project.Node.Keeps.{send_to-Keeps}
use ajou_etri_project.Node.Make.Keeping.{make_rann-Keeps, data_start2-Keeps}
use ajou_etri_project.Node.Control.{
  Command, change, log_switch, reset, update_period, reboot_node, unknown, apply_change, control,
  receive_command, accepted_rate, accepted_channel, accepted_metric, take_rate,
}
use ajou_etri_project.Node.Console
use ajou_etri_project.Node.Console.{
  Choice, start_config, preq_prep, hello_timeout, delete_route, new_root, print_tables, send_data,
  channel_change, rate_change, metric_change, prep_cch, prep_sch, data_cch, root_reboot, leave,
  other, data_start3, prep_test, choose, if_root, watched, delete_index, first_dest, counted,
}
use ajou_etri_project.Node.Sound.{
  IsSound, same_parts, kept, with_queue, set_timeout-IsSound, rt_table_empty-IsSound,
  rt_nms_reset-IsSound, modify_row-IsSound,
}
use ajou_etri_project.Node.Sound.Starting.{
  hello_start-IsSound, hello_timeout_start-IsSound, timer_reset-IsSound,
}

module _ {owed : ℕ} where
  apply_change-IsSound :
      (new_metric i : ℕ) {n : Node}
      → IsSound owed n
      → Ensures (IsSound owed) (apply_change new_metric i n)
  unfolding apply_change
  apply_change-IsSound new_metric i {n} v =
      Ensures-bind
        (Ensures-if (n.receiving_channel == (Nms.row n.nms_t i).receiving_channel) (ends v)
          (rt_nms_reset-IsSound (modify_row-IsSound i _ v)))
        (λ a va.
          Ensures-bind
            (Ensures-if (a.data_rate == (Nms.row a.nms_t i).data_rate) (ends va)
              (rt_nms_reset-IsSound (modify_row-IsSound i _ va)))
            (λ b vb.
              let c : Node = record b { config = record (b.config) { metric = new_metric } } in
              let w : IsSound owed c = same_parts vb refl in
              Ensures-if (b.metric == new_metric) (ends vb)
                (rt_nms_reset-IsSound (modify_row-IsSound i _ w))))

  announce-IsSound :
      (env : Env) (a : Addr) {n : Node}
      → IsSound owed n
      → Ensures
          (IsSound owed)
          (make_rann a n >>= λ m. set_timeout env rann_timer (rann_period m.update_cycle) m)
  announce-IsSound env a {n} v =
      Ensures-bind (kept v (make_rann-Keeps a n))
        (λ m w. set_timeout-IsSound env rann_timer (rann_period m.update_cycle) (omega arith) w)

  control-IsSound :
      (env : Env) (c : Command) {n : Node}
      → IsSound owed n
      → Ensures (IsSound owed) (control env c n)
  unfolding control
  control-IsSound env (change a b c) {n} v =
      Ensures-elim (Nms.find n.nms_t n.my_mac) (ends v) (λ i. apply_change-IsSound a i v)
  control-IsSound env (log_switch x) v = ends (same_parts v refl)
  control-IsSound env (reset x) v =
      Ensures-if (x == 1) (Ensures-bind (rt_nms_reset-IsSound v) (λ m w. ends (same_parts w refl)))
        (ends v)
  control-IsSound env (update_period x) v = announce-IsSound env 0 v
  control-IsSound env (reboot_node a) v = announce-IsSound env a (same_parts v refl)
  control-IsSound env (unknown t) v = ends v

  -- Whatever the management system sends.
  pub receive_command-IsSound :
      (env : Env) (c : Command) {n : Node}
      → IsSound owed n
      → Ensures (IsSound owed) (receive_command env c n)
  unfolding receive_command
  receive_command-IsSound env (change a b c) {n} v =
      let rate = accepted_rate b n.data_rate in
      let channel = accepted_channel c n.receiving_channel in
      let w : IsSound owed (take_rate rate n) =
        if-elim (IsSound owed) (n.data_rate == rate) v (same_parts v refl) in
      control-IsSound env (change (accepted_metric a n.metric) rate channel) (
        if-elim (IsSound owed) ((take_rate rate n).receiving_channel == channel) w
          (same_parts w refl))
  receive_command-IsSound env (log_switch x) {n} v = control-IsSound env _ v
  receive_command-IsSound env (reset x) v = control-IsSound env _ v
  receive_command-IsSound env (update_period x) v = control-IsSound env _ (same_parts v refl)
  receive_command-IsSound env (reboot_node a) {n} v =
      Ensures-if (n.my_mac == a) (ends (same_parts v refl)) (control-IsSound env _ v)
  receive_command-IsSound env (unknown t) v = ends v

  prep_test-IsSound :
      (chan : ℕ) (a : Addr) {n : Node}
      → IsSound owed n
      → Ensures (IsSound owed) (prep_test chan a n)
  unfolding prep_test
  prep_test-IsSound chan a {n} v = kept v (send_to-Keeps _ _ _ _ _ n)

  watched-IsSound : {n : Node} → IsSound owed n → IsSound owed (watched n)
  watched-IsSound {n} v =
      let m : Node = record n { print_time = 1 } in
      let w : IsSound owed m = same_parts v refl in with_queue w init_q-IsValid

  data_start3-IsSound :
      (a : Addr) (size : ℕ) (body : List ℕ) {n : Node}
      → IsSound owed n
      → Ensures (IsSound owed) (data_start3 a size body n)
  unfolding data_start3
  data_start3-IsSound a size body {n} v = kept v (send_to-Keeps _ _ _ _ _ n)

  delete_index-IsSound : (i : ℤ) {n : Node} → IsSound owed n → IsSound owed (delete_index i n)
  delete_index-IsSound (pos i) v = if-elim (IsSound owed) (ltb 10 i) v (rt_table_empty-IsSound i v)
  delete_index-IsSound (negsuc i) v = v

  -- Whatever is chosen at the console.
  pub choose-IsSound :
      (env : Env) (c : Choice) {n : Node} → IsSound owed n → Ensures (IsSound owed) (choose env c n)
  unfolding choose
  choose-IsSound env start_config v =
      hello_start-IsSound env (same_parts (rt_table_empty-IsSound 10 (timer_reset-IsSound v)) refl)
  choose-IsSound env preq_prep v = ends (same_parts v refl)
  choose-IsSound env hello_timeout v = hello_timeout_start-IsSound env (timer_reset-IsSound v)
  choose-IsSound env (delete_route i) v = ends (delete_index-IsSound i v)
  choose-IsSound env (new_root none) v = ends v
  choose-IsSound env (new_root (some a)) v = ends (same_parts v refl)
  choose-IsSound env print_tables v = ends v
  choose-IsSound env send_data {n} v =
      kept (watched-IsSound v) (data_start2-Keeps _ _ _ (watched n))
  choose-IsSound env Console.reset v = ends (same_parts v refl)
  choose-IsSound env channel_change {n} v =
      Ensures-if (n.root_node == 1) (control-IsSound env _ (same_parts v refl)) (ends v)
  choose-IsSound env rate_change {n} v =
      Ensures-if (n.root_node == 1) (control-IsSound env _ (same_parts v refl)) (ends v)
  choose-IsSound env metric_change {n} v =
      Ensures-if (n.root_node == 1) (control-IsSound env _ (same_parts v refl)) (ends v)
  choose-IsSound env prep_cch {n} v =
      Ensures-if (n.root_node == 1) (prep_test-IsSound cch _ v) (ends v)
  choose-IsSound env prep_sch {n} v =
      Ensures-if (n.root_node == 1) (prep_test-IsSound sch _ v) (ends v)
  choose-IsSound env data_cch {n} v =
      Ensures-if (n.root_node == 1) (data_start3-IsSound _ _ _ (watched-IsSound v)) (ends v)
  choose-IsSound env root_reboot {n} v =
      Ensures-if (n.root_node == 1) (ends (same_parts v refl)) (ends v)
  choose-IsSound env leave v = ends (timer_reset-IsSound v)
  choose-IsSound env other v = ends v
