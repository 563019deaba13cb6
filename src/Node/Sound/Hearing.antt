-- ===== src/Node/Sound/Hearing.antt =====
-- Hellos keep the invariant.
use ajou_etri_project.Base.{ℕ, ◌==◌, Ensures, Ensures-bind, Ensures-if, Ensures-elim, ends}
use ajou_etri_project.Msg.{Hello}
use ajou_etri_project.Node.{Node, Env, find_route}
use ajou_etri_project.Node.Hello.{hear_neighbor, hello_process, sch_hello_process}
use ajou_etri_project.Node.Sound.{
  IsSound, modify_route-IsSound, insert_route-IsSound, nms_record-IsSound,
}

module _ {owed : ℕ} where
  hear_neighbor-IsSound :
      (env : Env) (h : Hello) {n : Node}
      → IsSound owed n
      → Ensures (IsSound owed) (hear_neighbor env h n)
  unfolding hear_neighbor
  hear_neighbor-IsSound env h {n} v =
      Ensures-elim (find_route n h.orig_addr 0 h.orig_addr)
        (Ensures-if (h.orig_ip == 0) (ends v)
          (Ensures-bind (insert_route-IsSound env _ v) (λ r w. ends w.1)))
        (λ i. ends (modify_route-IsSound i _ v))

  pub hello_process-IsSound :
      (env : Env) (h : Hello) {n : Node}
      → IsSound owed n
      → Ensures (IsSound owed) (hello_process env h n)
  unfolding hello_process
  hello_process-IsSound env h {n} v = Ensures-bind (hear_neighbor-IsSound env h v) (λ m w.
      Ensures-if (m.root_node == 1)
        (ends (
          nms_record-IsSound h.orig_addr m.my_mac m.receiving_channel 1 1
            (nms_record-IsSound m.my_mac h.orig_addr h.r_ch 1 0 w)))
        (ends w))

  pub sch_hello_process-IsSound :
      (env : Env) (h : Hello) {n : Node}
      → IsSound owed n
      → Ensures (IsSound owed) (sch_hello_process env h n)
  unfolding sch_hello_process
  sch_hello_process-IsSound env h {n} v =
      Ensures-elim (find_route n h.orig_addr 0 h.orig_addr) (ends v)
        (λ i. ends (modify_route-IsSound i _ v))
