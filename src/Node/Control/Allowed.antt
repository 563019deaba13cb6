-- ===== src/Node/Control/Allowed.antt =====
-- The settings that commands of the management system can lead to.
use ajou_etri_project.Base.{
  ℕ, ◌+◌, ◌%◌, ◌≤◌, ◌≡◌, ◌⊎◌, ap, sym, subst, true, ◌==◌, ◌||◌, if◌then◌else◌, Option, some, ◌>>=◌,
  inl, inr, Bool-cases, Ensures, Ensures-bind, Ensures-if, Ensures-map, Ensures-any, Ensures-elim,
  if-elim, ends, arith,
}
use ajou_etri_project.Msg.{Addr}
use ajou_etri_project.Timer
use ajou_etri_project.Nms
use ajou_etri_project.Node.{
  Node, Env, rt_nms_reset, rt_table_empty, set_timeout, rann_timer, rann_period,
}
use ajou_etri_project.Node.Keeps.{Keeps}
use ajou_etri_project.Node.Make.{make_rann}
use ajou_etri_project.Node.Make.Keeping.{make_rann-Keeps}
use ajou_etri_project.Node.Control.{
  Command, change, log_switch, reset, update_period, reboot_node, unknown, apply_change, control,
  accepted_metric, take_rate, take_recv_channel, is_channel, accepted_rate, accepted_channel,
  receive_command, cycle_of,
}

-- A metric that is known, a rate in half Mbit/s and a service channel that the radio takes.
pub record IsAllowed (c : Nms.Config) : Type 0 where
  pub known_metric : c.metric ≤ 3
  pub known_rate : (c.data_rate ≡ 12) ⊎ ((c.data_rate ≡ 18) ⊎ (c.data_rate ≡ 24))
  pub known_channel : is_channel c.receiving_channel ≡ true

metric_lem : (v c : ℕ) → c ≤ 3 → accepted_metric v c ≤ 3
metric_lem v c h = ground arith

rate_lem :
    (v c : ℕ)
    → (c ≡ 12) ⊎ ((c ≡ 18) ⊎ (c ≡ 24))
    → (accepted_rate v c ≡ 12) ⊎ ((accepted_rate v c ≡ 18) ⊎ (accepted_rate v c ≡ 24))
rate_lem v c h = ground arith

channel_lem : (v c : ℕ) → is_channel c ≡ true → is_channel (accepted_channel v c) ≡ true
channel_lem v c h = elim (Bool-cases (v == 0 || v == c)) [
  | inl b ↦ rw b h
  | inr b ↦ rw b (elim (Bool-cases (is_channel v)) [ inl k ↦ rw k k | inr k ↦ rw k h ])
]

abbrev Ok : Node → Type 0
Ok n = IsAllowed n.config

kept : {n : Node} {o : Option Node} → Ok n → Ensures (Keeps n) o → Ensures Ok o
kept v h = Ensures-map h (λ m k. subst IsAllowed (sym (ap (λ c. c.settings) k.same)) v)

set_timeout-Ok :
    (env : Env) (timer msec : ℕ) (n : Node) → Ok n → Ensures Ok (set_timeout env timer msec n)
unfolding set_timeout
set_timeout-Ok env timer msec n h =
    Ensures-bind
      (Ensures-any {P = λ _. Unit {0}} (Timer.timer_set_timeout env.now n.timers timer msec)
        (λ _. tt))
      (λ t _. ends h)

rt_nms_reset-Ok : (n : Node) → Ok n → Ensures Ok (rt_nms_reset n)
unfolding rt_nms_reset rt_table_empty
rt_nms_reset-Ok n h =
    Ensures-bind
      (Ensures-any {P = λ _. Unit {0}}
        (if n.root_node == 1 then Nms.empty_rows n.config n.my_mac n.nms_t 12 else some n.nms_t)
        (λ _. tt))
      (λ t _. ends h)

apply_change-Ok : (v i : ℕ) (n : Node) → v ≤ 3 → Ok n → Ensures Ok (apply_change v i n)
unfolding apply_change
apply_change-Ok v i n l h =
    Ensures-bind
      (Ensures-if (n.receiving_channel == (Nms.row n.nms_t i).receiving_channel) (ends h)
        (rt_nms_reset-Ok _ h))
      (λ a ha.
        Ensures-bind
          (Ensures-if (a.data_rate == (Nms.row a.nms_t i).data_rate) (ends ha)
            (rt_nms_reset-Ok _ ha))
          (λ b hb. Ensures-if (b.metric == v) (ends hb) (
            rt_nms_reset-Ok _ (record {
              known_metric = l;
              known_rate = hb.known_rate;
              known_channel = hb.known_channel;
            }))))

again-Ok :
    (env : Env) (a : Addr) (n : Node)
    → Ok n
    → Ensures Ok (make_rann a n >>= λ m. set_timeout env rann_timer (rann_period m.update_cycle) m)
again-Ok env a n h =
    Ensures-bind (kept h (make_rann-Keeps a n)) (λ m k. set_timeout-Ok env rann_timer _ m k)

-- Whatever command the management system sends, a node whose metric is at most 3 and whose rate and
-- channel are ones that its radio takes still has such settings, unless the command makes it fault.
pub receive_command-IsAllowed :
    (env : Env) (c : Command) (n : Node)
    → IsAllowed n.config
    → Ensures (λ m. IsAllowed m.config) (receive_command env c n)
unfolding receive_command control
receive_command-IsAllowed env (change v w x) n h =
    let rate = accepted_rate w n.data_rate in
    let channel = accepted_channel x n.receiving_channel in
    let a = take_rate rate n in
    let ha : Ok a = if-elim Ok (n.data_rate == rate) h (record {
      known_metric = h.known_metric;
      known_rate = rate_lem w n.data_rate h.known_rate;
      known_channel = h.known_channel;
    }) in
    let hb : Ok (take_recv_channel channel a) =
      if-elim Ok (a.receiving_channel == channel) ha (record {
        known_metric = ha.known_metric;
        known_rate = ha.known_rate;
        known_channel = channel_lem x n.receiving_channel h.known_channel;
      }) in
    Ensures-elim (Nms.find (take_recv_channel channel a).nms_t (take_recv_channel channel a).my_mac)
      (ends hb)
      (λ i.
        apply_change-Ok (accepted_metric v n.metric) i (take_recv_channel channel a)
          (metric_lem v n.metric h.known_metric) hb)
receive_command-IsAllowed env (log_switch v) n h = ends h
receive_command-IsAllowed env (reset v) n h =
    Ensures-if ((if v == 0 || v == 1 then v else 0) == 1)
      (Ensures-bind (rt_nms_reset-Ok n h) (λ m k. ends k)) (ends h)
receive_command-IsAllowed env (update_period v) n h =
    again-Ok env 0 (record n { update_cycle = cycle_of v }) h
receive_command-IsAllowed env (reboot_node a) n h =
    Ensures-if (n.my_mac == a) (ends h)
      (again-Ok env a (record n { rann_order = (n.rann_order + 1) % 4294967296 }) h)
receive_command-IsAllowed env (unknown t) n h = ends h
