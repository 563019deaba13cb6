-- ===== src/Node/Rann/Steps.antt =====
-- What following an announcement leaves as it is: the update period, the role, and which announcement is
-- the last.
use ajou_etri_project.Base.{
  ℕ, ◌≡◌, ◌∙◌, ap, Option, some, ◌==◌, ltb, if◌then◌else◌, Ensures, Ensures-bind, Ensures-any,
  Ensures-map, Ensures-elim, Ensures-if, ends,
}
use ajou_etri_project.Msg.{Rann, rann, sizeof_rann}
use ajou_etri_project.Timer
use ajou_etri_project.Timer.{Timers}
use ajou_etri_project.Nms
use ajou_etri_project.Node.{
  Node, Env, Cycle, set_timeout, rt_nms_reset, rt_table_empty, find_route, route, api_reset_timer,
}
use ajou_etri_project.Node.Keeps.{Keeps, log_if_on-Keeps, send-Keeps}
use ajou_etri_project.Node.Make.Keeping.{make_preq-Keeps, make_rann_ack-Keeps}
use ajou_etri_project.Node.Send.{rann_forward, send_rann_ack}
use ajou_etri_project.Node.Rann.{
  is_change, take_metric, reopen, take_channel, take_data_rate, take_commands, answer_rann,
  follow_rann,
}

module _ (c : Cycle) (role id order : ℕ) where
  -- The node has this update period, this role, and followed this announcement last.
  abbrev pub At : Node → Type 0
  At n = (n.update_cycle ≡ c) × (n.root_node ≡ role) × (n.rann_id ≡ id) × (n.rann_order ≡ order)

  kept : {o : Option Node} (n : Node) → At n → Ensures (Keeps n) o → Ensures At o
  kept n h e = Ensures-map e (λ m k. (
    ap (λ x. x.cycle) k.same ∙ h.0,
    ap (λ x. x.role) k.same ∙ h.1,
    ap (λ x. x.announcement) k.same ∙ h.2,
    ap (λ x. x.order) k.same ∙ h.3,
  ))

  set_timeout-At :
      (env : Env) (timer msec : ℕ) (n : Node) → At n → Ensures At (set_timeout env timer msec n)
  unfolding set_timeout
  set_timeout-At env timer msec n h =
      let trivial : Ensures (λ _. Unit {0}) (Timer.timer_set_timeout env.now n.timers timer msec) =
        Ensures-any (Timer.timer_set_timeout env.now n.timers timer msec) (λ _. tt) in
      Ensures-bind trivial (λ t _. ends h)

  pub rt_nms_reset-At : (n : Node) → At n → Ensures At (rt_nms_reset n)
  unfolding rt_nms_reset rt_table_empty
  rt_nms_reset-At n h =
      let trivial : Ensures (λ _. Unit {0})
          (if n.root_node == 1 then Nms.empty_rows n.config n.my_mac n.nms_t 12 else some n.nms_t) =
        Ensures-any _ (λ _. tt) in
      Ensures-bind trivial (λ t _. ends h)

  reopen-At : (env : Env) (n : Node) → At n → Ensures At (reopen env n)
  unfolding reopen
  reopen-At env n h =
      Ensures-bind (set_timeout-At env api_reset_timer 1000 (record n { api_reset_flag = 1 }) h)
        (λ m k. rt_nms_reset-At m k)

  take_metric-At : (r : Rann) (n : Node) → At n → Ensures At (take_metric r n)
  unfolding take_metric
  take_metric-At r n h = Ensures-if (is_change r.metric n.metric) (rt_nms_reset-At _ h) (ends h)

  take_channel-At : (env : Env) (r : Rann) (n : Node) → At n → Ensures At (take_channel env r n)
  unfolding take_channel
  take_channel-At env r n h =
      Ensures-if (is_change r.recv_channel n.receiving_channel) (reopen-At env _ h) (ends h)

  take_data_rate-At : (env : Env) (r : Rann) (n : Node) → At n → Ensures At (take_data_rate env r n)
  unfolding take_data_rate
  take_data_rate-At env r n h =
      Ensures-if (is_change r.data_rate n.data_rate) (reopen-At env _ h) (ends h)

  take_commands-At : (env : Env) (r : Rann) (n : Node) → At n → Ensures At (take_commands env r n)
  unfolding take_commands
  take_commands-At env r n h =
      Ensures-bind (Ensures-if (r.reset == 1) (rt_nms_reset-At n h) (ends h)) (λ a k.
        Ensures-if (a.my_mac == r.reset_addr) (set_timeout-At env api_reset_timer 1000 _ k)
          (ends k))

  answer_rann-At : (n : Node) → At n → Ensures At (answer_rann n)
  unfolding answer_rann send_rann_ack
  answer_rann-At n h =
      Ensures-elim (find_route n n.root_addr 1 n.my_mac)
        (kept n h (make_preq-Keeps n.root_addr n.rann_order n))
        (λ _. Ensures-elim (find_route n n.root_addr 1 n.my_mac) (ends h) (λ i.
          Ensures-elim (find_route n (route n i).next_hop 0 n.my_mac) (ends h)
            (λ _. kept n h (make_rann_ack-Keeps n.my_mac (route n i).next_hop 0 n))))

  pub follow_rann-At :
      (env : Env) (r : Rann) (n : Node)
      → At (record n { rann_order = r.order; root_addr = r.orig_addr })
      → Ensures At (follow_rann env r n)
  unfolding follow_rann rann_forward
  follow_rann-At env r n h =
      Ensures-bind (kept _ h (log_if_on-Keeps sizeof_rann (rann r) _)) (λ a ha.
        Ensures-bind (Ensures-if (ltb 1 r.ttl) (kept a ha (send-Keeps _ _ _ _ a)) (ends ha))
          (λ b hb. Ensures-bind (take_metric-At r b hb) (λ d hd.
            Ensures-bind (take_channel-At env r d hd) (λ e he.
              Ensures-bind (take_data_rate-At env r e he) (λ f hf.
                Ensures-bind (take_commands-At env r f hf) (λ g hg. answer_rann-At g hg))))))
