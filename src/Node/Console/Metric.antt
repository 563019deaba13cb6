-- ===== src/Node/Console/Metric.antt =====
-- The change of the metric from the console.
use ajou_etri_project.Base.{ℕ, ◌≡◌, ◌∙◌, true, some, arith, ◌==◌, ==_refl}
use ajou_etri_project.Nms
use ajou_etri_project.Node.{Node, Env}
use ajou_etri_project.Node.Control.{change, control, apply_change}
use ajou_etri_project.Node.Console.{metric_change, choose}

apply_change-same :
    (n : Node) (i : ℕ)
    → n.receiving_channel ≡ (Nms.row n.nms_t i).receiving_channel
    → n.data_rate ≡ (Nms.row n.nms_t i).data_rate
    → apply_change n.metric i n ≡ some n
unfolding apply_change
apply_change-same n i c d =
    let h : (n.receiving_channel == (Nms.row n.nms_t i).receiving_channel) ≡ true = ground arith in
    let k : (n.data_rate == (Nms.row n.nms_t i).data_rate) ≡ true = ground arith in
    rw h (rw k (rw (==_refl n.metric)))

control-row :
    (env : Env) (n : Node) {i : ℕ} (metric rate channel : ℕ)
    → Nms.find n.nms_t n.my_mac ≡ some i
    → control env (change metric rate channel) n ≡ apply_change metric i n
unfolding control
control-row env n metric rate channel e = rw (e, control)

-- On a root whose own row says what its channel and its rate are, the console's change of the metric
-- sets the metric to 2 and nothing else: routes, rows and waiting requests of the old metric stay.
choose-metric_change :
    (env : Env) (n : Node) {i : ℕ}
    → n.root_node ≡ 1
    → Nms.find n.nms_t n.my_mac ≡ some i
    → n.receiving_channel ≡ (Nms.row n.nms_t i).receiving_channel
    → n.data_rate ≡ (Nms.row n.nms_t i).data_rate
    → choose env metric_change n ≡ some (record n { config = record (n.config) { metric = 2 } })
unfolding choose
choose-metric_change env n {i} h e c d =
    let m : Node = record n { config = record (n.config) { metric = 2 } } in
    let r : (n.root_node == 1) ≡ true = ground arith in
    rw r (control-row env m 2 n.data_rate n.receiving_channel e ∙ apply_change-same m i c d)
