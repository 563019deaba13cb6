-- ===== src/Node/Sound/Answering.antt =====
-- Route replies keep the invariant.
use ajou_etri_project.Base.{
  ℕ, ◌+◌, ◌-◌, ◌*◌, List, get_elem?, ◌==◌, Ensures, Ensures-bind, Ensures-if, Ensures-elim,
  Ensures-any, ends, faults,
}
use ajou_etri_project.Msg.{Addr, Prep, prep, sizeof_prep, sizeof_ext}
use ajou_etri_project.Node.{Node, Env, find_route}
use ajou_etri_project.Node.Keeps.{log_if_on-Keeps}
use ajou_etri_project.Node.Send.Passing.{prep_forward-Keeps}
use ajou_etri_project.Node.RouteReply.{last_ext, uplink, downlink, prep_process}
use ajou_etri_project.Node.Sound.{IsSound, kept, modify_route-IsSound, insert_route-IsSound}

module _ {owed : ℕ} where
  uplink-IsSound :
      (env : Env) (p : Prep) (prev : Addr) {n : Node}
      → IsSound owed n
      → Ensures (IsSound owed) (uplink env p prev n)
  unfolding uplink
  uplink-IsSound env p prev {n} v =
      Ensures-elim (find_route n p.orig_addr 1 p.dest_addr)
        (Ensures-if (n.my_mac == p.orig_addr) faults
          (Ensures-bind (insert_route-IsSound env _ v) (λ r w. ends w.1)))
        (λ i. ends (modify_route-IsSound i _ v))

  downlink-IsSound :
      (env : Env) (p : Prep) (ext : List Addr) {n : Node}
      → IsSound owed n
      → Ensures (IsSound owed) (downlink env p ext n)
  unfolding downlink
  downlink-IsSound env p ext {n} v =
      Ensures-bind
        (Ensures-any {P = λ _. Unit {0}} (get_elem? ext ((p.ext_length - 1) + (p.ext_length - 1)))
          (λ _. tt))
        (λ next _.
          Ensures-elim (find_route n p.dest_addr 0 p.dest_addr)
            (Ensures-bind (insert_route-IsSound env _ v) (λ r w. ends w.1)) (λ _. ends v))

  pub prep_process-IsSound :
      (env : Env) (p : Prep) (ext : List Addr) {n : Node}
      → IsSound owed n
      → Ensures (IsSound owed) (prep_process env p ext n)
  unfolding prep_process
  prep_process-IsSound env p ext {n} v =
      Ensures-bind
        (kept v (log_if_on-Keeps (sizeof_prep + p.ext_length * sizeof_ext) (prep p ext) n))
        (λ a va.
          Ensures-bind (Ensures-any {P = λ _. Unit {0}} (last_ext p ext) (λ _. tt)) (λ prev _.
            Ensures-bind (uplink-IsSound env p prev va) (λ b vb.
              Ensures-if (p.ext_length == 0) (ends vb) (
                Ensures-bind (downlink-IsSound env p ext vb)
                  (λ c vc. kept vc (prep_forward-Keeps _ ext c))))))
