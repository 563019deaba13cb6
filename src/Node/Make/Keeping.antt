-- ===== src/Node/Make/Keeping.antt =====
-- Building and queueing a message leaves the daemon's routes, rows, timers and settings alone.
use ajou_etri_project.Base.{
  ℕ, ◌+◌, ◌%◌, refl, List, get_elem?, Ensures, Ensures-bind, Ensures-any, Ensures-map, ends,
}
use ajou_etri_project.Msg.{Addr, Preq}
use ajou_etri_project.Node.{Node, Env, find_route}
use ajou_etri_project.Node.Keeps.{Keeps, Keeps-bind, send-Keeps, send_to-Keeps, log_if_on-Keeps}
use ajou_etri_project.Node.Make.{
  make_hello, make_sch_hello, make_rann, make_rann_ack, make_preq, make_prep, make_perr,
  make_perr_unicast, perr_unicast, make_data, data_start2, take_ext,
}

pub make_hello-Keeps : (n : Node) → Ensures (Keeps n) (make_hello n)
unfolding make_hello
make_hello-Keeps n = send-Keeps _ _ _ _ n

pub make_sch_hello-Keeps : (n : Node) → Ensures (Keeps n) (make_sch_hello n)
unfolding make_sch_hello
make_sch_hello-Keeps n = send-Keeps _ _ _ _ n

pub make_rann-Keeps : (a : Addr) (n : Node) → Ensures (Keeps n) (make_rann a n)
unfolding make_rann
make_rann-Keeps a n =
    Ensures-map (send-Keeps _ _ _ _ (record n { route_reset = 0 }))
      (λ m h. record { same = h.same; queued = h.queued })

pub make_rann_ack-Keeps :
    (origin next : Addr) (alm : ℕ) (n : Node) → Ensures (Keeps n) (make_rann_ack origin next alm n)
unfolding make_rann_ack
make_rann_ack-Keeps origin next alm n = send_to-Keeps _ _ _ _ _ n

pub make_preq-Keeps :
    (dest : Addr) (order : ℕ) (n : Node) → Ensures (Keeps n) (make_preq dest order n)
unfolding make_preq
make_preq-Keeps dest order n = send-Keeps _ _ _ _ n

pub make_perr-Keeps :
    (timeout dest : Addr) (n : Node) → Ensures (Keeps n) (make_perr timeout dest n)
unfolding make_perr
make_perr-Keeps timeout dest n = Keeps-bind (send-Keeps _ _ _ _ n) (λ m. log_if_on-Keeps _ _ m)

take_ext-any : (k : ℕ) (ext : List Addr) → Ensures (λ _. Unit {0}) (take_ext k ext)
take_ext-any k ext = Ensures-any (take_ext k ext) (λ _. tt)

at-any : (ext : List Addr) (k : ℕ) → Ensures (λ _. Unit {0}) (get_elem? ext k)
at-any ext k = Ensures-any (get_elem? ext k) (λ _. tt)

pub make_prep-Keeps :
    (p : Preq) (ext : List Addr) (n : Node) → Ensures (Keeps n) (make_prep p ext n)
unfolding make_prep
make_prep-Keeps p ext n =
    let k = (p.hcnt + 255) % 256 in
    Ensures-bind (take_ext-any k ext)
      (λ path _. Ensures-bind (at-any ext k) (λ next _. send_to-Keeps next _ _ _ _ n))

pub make_data-Keeps :
    (dest : Addr) (size : ℕ) (body : List ℕ) (n : Node)
    → Ensures (Keeps n) (make_data dest size body n)
unfolding make_data
make_data-Keeps dest size body n = send_to-Keeps dest _ _ _ _ n

pub data_start2-Keeps :
    (dest : Addr) (size : ℕ) (body : List ℕ) (n : Node)
    → Ensures (Keeps n) (data_start2 dest size body n)
unfolding data_start2
data_start2-Keeps dest size body n = send_to-Keeps dest _ _ _ _ n

pub perr_unicast-Keeps :
    (env : Env) (a : Addr) (n : Node) → Ensures (Keeps n) (perr_unicast env a n)
unfolding perr_unicast make_perr_unicast
perr_unicast-Keeps env a n =
    Keeps-bind
      (Ensures-bind
        (Ensures-any {P = λ _. Unit {0}} (find_route n n.root_addr 1 n.my_mac) (λ _. tt))
        (λ i _. send_to-Keeps _ _ _ _ _ n))
      (λ m. ends (record { same = refl; queued = λ q. q }))
