-- ===== src/Node/Rann/Period.antt =====
-- The update period through Rann_process.
use ajou_etri_project.Base.{
  ◌≡◌, refl, ◌==◌, ltb, not, ◌&&◌, Ensures, Ensures-bind, Ensures-map, Ensures-if, ends,
}
use ajou_etri_project.Msg.{Rann}
use ajou_etri_project.Node.{Node, Env}
use ajou_etri_project.Node.Rann.{rann_process}
use ajou_etri_project.Node.Rann.Steps.{follow_rann-At, rt_nms_reset-At}

rann_process-At :
    (env : Env) (r : Rann) (n : Node)
    → Ensures (λ m. m.update_cycle ≡ n.update_cycle) (rann_process env r n)
unfolding rann_process
rann_process-At env r n =
    Ensures-bind {P = λ m. m.update_cycle ≡ n.update_cycle}
      (Ensures-if (r.rann_id == n.rann_id) (ends refl) (
        Ensures-map
          (rt_nms_reset-At n.update_cycle n.root_node r.rann_id 0 _ (refl, refl, refl, refl))
          (λ m k. k.0)))
      (λ m k.
        Ensures-if (ltb m.rann_order r.order && not (m.root_node == 1))
          (Ensures-map
            (follow_rann-At n.update_cycle m.root_node m.rann_id r.order env r m
              (k, refl, refl, refl))
            (λ x h. h.0))
          (ends k))

-- Whatever update period an announcement carries, the receiving node keeps its own, where it
-- does not fault.
pub rann_process-update_cycle :
    (env : Env) (r : Rann) (n : Node)
    → Ensures (λ m. m.update_cycle ≡ n.update_cycle) (rann_process env r n)
rann_process-update_cycle env r n = rann_process-At env r n
