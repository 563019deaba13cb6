-- ===== src/Node/Send/Passing.antt =====
-- Passing a message on leaves the daemon's routes, rows, timers and settings alone.
use ajou_etri_project.Base.{
  ℕ, ◌+◌, ◌%◌, refl, List, ◌==◌, get_elem?, Ensures, Ensures-bind, Ensures-any, Ensures-elim,
  Ensures-if, ends,
}
use ajou_etri_project.Msg.{Addr, Preq, Prep, PerrUni, Rann}
use ajou_etri_project.Route
use ajou_etri_project.Node.{Node, find_route, route}
use ajou_etri_project.Node.Keeps.{Keeps, Keeps-bind, send-Keeps, send_to-Keeps}
use ajou_etri_project.Node.Make.{take_ext}
use ajou_etri_project.Node.Make.Keeping.{make_data-Keeps, make_rann_ack-Keeps}
use ajou_etri_project.Node.Send.{
  preq_forward, prep_forward, perr_forward, rann_forward, data_forward, send_rann_ack,
}

pub preq_forward-Keeps :
    (p : Preq) (ext : List Addr) (n : Node) → Ensures (Keeps n) (preq_forward p ext n)
unfolding preq_forward
preq_forward-Keeps p ext n =
    Ensures-if ((p.ttl + 255) % 256 == 0) (ends (record { same = refl; queued = λ q. q })) (
      Ensures-bind (Ensures-any {P = λ _. Unit {0}} (take_ext p.hcnt ext) (λ _. tt))
        (λ path _. send-Keeps _ _ _ _ n))

pub prep_forward-Keeps :
    (p : Prep) (ext : List Addr) (n : Node) → Ensures (Keeps n) (prep_forward p ext n)
unfolding prep_forward
prep_forward-Keeps p ext n =
    let k = (p.ext_length + 255) % 256 in
    Ensures-bind (Ensures-any {P = λ _. Unit {0}} (get_elem? ext 0) (λ _. tt)) (λ first _.
      Ensures-if (first == 0) (ends (record { same = refl; queued = λ q. q })) (
        Ensures-bind (Ensures-any {P = λ _. Unit {0}} (take_ext k ext) (λ _. tt)) (λ path _.
          Ensures-bind (Ensures-any {P = λ _. Unit {0}} (get_elem? ext k) (λ _. tt))
            (λ next _. send_to-Keeps next _ _ _ _ n))))

pub perr_forward-Keeps : (p : PerrUni) (n : Node) → Ensures (Keeps n) (perr_forward p n)
unfolding perr_forward
perr_forward-Keeps p n =
    Ensures-elim (find_route n n.root_addr 1 p.orig_addr)
      (ends (record { same = refl; queued = λ q. q })) (λ i. send_to-Keeps _ _ _ _ _ n)

pub rann_forward-Keeps : (r : Rann) (n : Node) → Ensures (Keeps n) (rann_forward r n)
unfolding rann_forward
rann_forward-Keeps r n = send-Keeps _ _ _ _ n

pub send_rann_ack-Keeps : (n : Node) → Ensures (Keeps n) (send_rann_ack n)
unfolding send_rann_ack
send_rann_ack-Keeps n =
    Ensures-elim (find_route n n.root_addr 1 n.my_mac)
      (ends (record { same = refl; queued = λ q. q }))
      (λ i.
        Ensures-elim (find_route n (route n i).next_hop 0 n.my_mac)
          (ends (record { same = refl; queued = λ q. q }))
          (λ j. make_rann_ack-Keeps n.my_mac (route n i).next_hop 0 n))

pub data_forward-Keeps :
    (dst_ip size : ℕ) (body : List ℕ) (n : Node)
    → Ensures (Keeps n) (data_forward dst_ip size body n)
unfolding data_forward
data_forward-Keeps dst_ip size body n =
    Ensures-elim (Route.find_ip n.rt_t dst_ip) (ends (record { same = refl; queued = λ q. q }))
      (λ i.
        Keeps-bind (make_data-Keeps (route n i).next_hop size body n)
          (λ m. ends (record { same = refl; queued = λ q. q })))
