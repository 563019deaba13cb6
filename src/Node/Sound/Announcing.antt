-- ===== src/Node/Sound/Announcing.antt =====
-- Announcements of the root and their answers keep the invariant.
use ajou_etri_project.Base.{
  ℕ, refl, ◌==◌, ltb, ◌&&◌, not, Ensures, Ensures-bind, Ensures-if, Ensures-elim, Option-elim,
  if-elim, modify, ends, arith,
}
use ajou_etri_project.Msg.{Addr, Rann, RannAck, rann, sizeof_rann}
use ajou_etri_project.Nms
use ajou_etri_project.Node.{Node, Env, find_route, route, api_reset_timer}
use ajou_etri_project.Node.Keeps.{log_if_on-Keeps}
use ajou_etri_project.Node.Make.Keeping.{make_preq-Keeps, make_rann_ack-Keeps}
use ajou_etri_project.Node.Send.Passing.{rann_forward-Keeps, send_rann_ack-Keeps}
use ajou_etri_project.Node.Rann.{
  is_change, take_metric, reopen, take_channel, take_data_rate, take_commands, answer_rann,
  follow_rann, rann_process, record_alm, pass_alm, rann_ack_process,
}
use ajou_etri_project.Node.Sound.{
  IsSound, same_parts, kept, set_timeout-IsSound, rt_nms_reset-IsSound, modify_row-IsSound,
  modify_route-IsSound,
}

module _ {owed : ℕ} where
  reopen-IsSound : (env : Env) {n : Node} → IsSound owed n → Ensures (IsSound owed) (reopen env n)
  unfolding reopen
  reopen-IsSound env {n} v =
      Ensures-bind (set_timeout-IsSound env api_reset_timer 1000 (omega arith) (same_parts v refl))
        (λ m w. rt_nms_reset-IsSound w)

  take_metric-IsSound :
      (r : Rann) {n : Node} → IsSound owed n → Ensures (IsSound owed) (take_metric r n)
  unfolding take_metric
  take_metric-IsSound r {n} v =
      Ensures-if (is_change r.metric n.metric) (rt_nms_reset-IsSound (same_parts v refl)) (ends v)

  take_channel-IsSound :
      (env : Env) (r : Rann) {n : Node}
      → IsSound owed n
      → Ensures (IsSound owed) (take_channel env r n)
  unfolding take_channel
  take_channel-IsSound env r {n} v =
      Ensures-if (is_change r.recv_channel n.receiving_channel)
        (reopen-IsSound env (same_parts v refl)) (ends v)

  take_data_rate-IsSound :
      (env : Env) (r : Rann) {n : Node}
      → IsSound owed n
      → Ensures (IsSound owed) (take_data_rate env r n)
  unfolding take_data_rate
  take_data_rate-IsSound env r {n} v =
      Ensures-if (is_change r.data_rate n.data_rate) (reopen-IsSound env (same_parts v refl))
        (ends v)

  take_commands-IsSound :
      (env : Env) (r : Rann) {n : Node}
      → IsSound owed n
      → Ensures (IsSound owed) (take_commands env r n)
  unfolding take_commands
  take_commands-IsSound env r {n} v =
      Ensures-bind (Ensures-if (r.reset == 1) (rt_nms_reset-IsSound v) (ends v)) (λ a w.
        Ensures-if (a.my_mac == r.reset_addr)
          (set_timeout-IsSound env api_reset_timer 1000 (omega arith) (same_parts w refl))
          (ends (same_parts w refl)))

  answer_rann-IsSound : {n : Node} → IsSound owed n → Ensures (IsSound owed) (answer_rann n)
  unfolding answer_rann
  answer_rann-IsSound {n} v =
      Ensures-elim (find_route n n.root_addr 1 n.my_mac)
        (kept v (make_preq-Keeps n.root_addr n.rann_order n)) (λ _. kept v (send_rann_ack-Keeps n))

  follow_rann-IsSound :
      (env : Env) (r : Rann) {n : Node}
      → IsSound owed n
      → Ensures (IsSound owed) (follow_rann env r n)
  unfolding follow_rann
  follow_rann-IsSound env r {n} v =
      Ensures-bind (kept (same_parts v refl) (log_if_on-Keeps sizeof_rann (rann r) _)) (λ a va.
        Ensures-bind (Ensures-if (ltb 1 r.ttl) (kept va (rann_forward-Keeps r a)) (ends va))
          (λ b vb. Ensures-bind (take_metric-IsSound r vb) (λ c vc.
            Ensures-bind (take_channel-IsSound env r vc) (λ d vd.
              Ensures-bind (take_data_rate-IsSound env r vd) (λ e ve.
                Ensures-bind (take_commands-IsSound env r ve) (λ f vf. answer_rann-IsSound vf))))))

  pub rann_process-IsSound :
      (env : Env) (r : Rann) {n : Node}
      → IsSound owed n
      → Ensures (IsSound owed) (rann_process env r n)
  unfolding rann_process
  rann_process-IsSound env r {n} v =
      Ensures-bind
        (Ensures-if (r.rann_id == n.rann_id) (ends v) (rt_nms_reset-IsSound (same_parts v refl)))
        (λ m w.
          Ensures-if (ltb m.rann_order r.order && not (m.root_node == 1))
            (follow_rann-IsSound env r w) (ends w))

  record_alm-IsSound :
      (env : Env) (source : Addr) (alm : ℕ) {n : Node}
      → IsSound owed n
      → IsSound owed (record_alm env source alm n)
  unfolding record_alm
  record_alm-IsSound env source alm {n} v =
      Option-elim (IsSound owed) (Nms.find n.nms_t source) v (λ i.
        if-elim (IsSound owed) (alm == 0) v (
          Option-elim (IsSound owed) (find_route (confirmed i) source 0 source)
            (modify_row-IsSound i _ v)
            (λ j.
              if-elim (IsSound owed) ((route (confirmed i) j).hcnt == 1) (modify_row-IsSound i _ v)
                (modify_route-IsSound j _ (modify_row-IsSound i _ v)))))
    where
      confirmed : ℕ → Node
      confirmed i = record n {
        nms_t =
            modify n.nms_t i (λ r. record r { alm_next_hop = alm; last_rann_ack_time = env.now });
      }

  pub rann_ack_process-IsSound :
      (env : Env) (k : RannAck) {n : Node}
      → IsSound owed n
      → Ensures (IsSound owed) (rann_ack_process env k n)
  unfolding rann_ack_process pass_alm
  rann_ack_process-IsSound env k {n} v =
      Ensures-elim (find_route n k.orig_addr 0 k.orig_addr) (ends v) (λ i.
        Ensures-if (n.my_mac == k.next_addr)
          (Ensures-if (n.root_node == 1) (ends (record_alm-IsSound env k.orig_addr _ v)) (
            Ensures-elim (find_route n n.root_addr 1 k.orig_addr) (ends v)
              (λ j. kept v (make_rann_ack-Keeps k.orig_addr (route n j).next_hop _ n))))
          (ends v))
