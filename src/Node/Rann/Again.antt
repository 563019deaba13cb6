-- ===== src/Node/Rann/Again.antt =====
-- An announcement that was received before.
use ajou_etri_project.Base.{
  ℕ, ◌≡◌, refl, ◌∙◌, some, ◌==◌, ltb, if◌then◌else◌, not, ◌&&◌, Ensures, Ensures-bind, Ensures-map,
  ends, ◌≢◌, ◌≤◌, true, false, Bool-cases, inl, inr, Ensures-result, arith,
}
use ajou_etri_project.Msg.{Rann}
use ajou_etri_project.Node.{Node, Env, rt_nms_reset}
use ajou_etri_project.Node.Rann.{follow_rann, rann_process}
use ajou_etri_project.Node.Rann.Steps.{follow_rann-At, rt_nms_reset-At}

-- A node, not the root, that has followed the announcements with this number up to this order.
abbrev pub Followed : ℕ → ℕ → Node → Type 0
Followed id order m = (m.rann_id ≡ id) × (order ≤ m.rann_order)

rann_process-Followed :
    (env : Env) (r : Rann) (n : Node)
    → (n.root_node == 1) ≡ false
    → Ensures (Followed r.rann_id r.order) (rann_process env r n)
unfolding rann_process
rann_process-Followed env r n e =
    Ensures-bind {P = λ (m : Node). (m.rann_id ≡ r.rann_id) × (m.root_node ≡ n.root_node)}
      {o = if r.rann_id == n.rann_id
        then some n
        else rt_nms_reset (record n { rann_id = r.rann_id; rann_order = 0 })}
      {f = λ (m : Node).
        if ltb m.rann_order r.order && not (m.root_node == 1) then follow_rann env r m else some m}
      (elim (Bool-cases (r.rann_id == n.rann_id)) [
        | inl b ↦ rw b (ends (ground arith, refl))
        | inr b ↦ rw b (
            Ensures-map
              (rt_nms_reset-At n.update_cycle n.root_node r.rann_id 0 _ (refl, refl, refl, refl))
              (λ m k. (k.2, k.1)))
      ])
      (λ (m : Node) k. elim (Bool-cases (ltb m.rann_order r.order && not (m.root_node == 1))) [
        | inl b ↦ rw b (
            Ensures-map
              (follow_rann-At m.update_cycle m.root_node m.rann_id r.order env r m
                (refl, refl, refl, refl))
              (λ x h. (h.2 ∙ k.0, omega (arith, h.3))))
        | inr b ↦ rw b (ends (k.0, ground (arith, k.1)))
      ])

-- A node other than the root follows an announcement at most once: after it, the same announcement or an
-- earlier one with its number changes nothing, so that none is passed on twice in a row.
pub rann_process-again :
    (env env' : Env) (r s : Rann) (n m : Node)
    → n.root_node ≢ 1
    → rann_process env r n ≡ some m
    → s.rann_id ≡ r.rann_id
    → s.order ≤ r.order
    → rann_process env' s m ≡ some m
unfolding rann_process
rann_process-again env env' r s n m e run i o =
    let f = Ensures-result (rann_process-Followed env r n (ground arith)) run in
    let a : (s.rann_id == m.rann_id) ≡ true = ground arith in
    let b : ltb m.rann_order s.order ≡ false = ground arith in rw a (rw b refl)
