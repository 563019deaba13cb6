-- ===== src/Node/RouteRequest/Copies.antt =====
-- The copies of a request that reach the root one after the other.
use ajou_etri_project.Base.{
  ℕ, ◌+◌, ◌*◌, ◌-◌, ◌≤◌, ◌≡◌, refl, sym, subst, ◌∙◌, true, false, Option, some, List, ◌==◌, ◌&&◌,
  length, arith, Option-elim, if-elim, if◌then◌else◌,
}
use ajou_etri_project.Msg.{Addr, Preq, preq, aodv, sizeof_preq, sizeof_ext}
use ajou_etri_project.Node.{Node, Env, find_route, perr_rann_timer, timer_used}
use ajou_etri_project.Node.Log.{log_if_on}
use ajou_etri_project.Node.Receive.{receive, receive_from}
use ajou_etri_project.Node.RouteRequest.{preq_here, preq_process, add_alm}
use ajou_etri_project.Node.RouteRequest.Waiting.{view, record_path-view}
use ajou_etri_project.Node.RouteRequest.Choice.{Candidate, better, Awaits, select-step}

-- A copy: what the clock says, the neighbour that it came from, and the message.
pub record Copy : Type 0 where
  pub env : Env
  pub from : Addr
  pub request : Preq
  pub ext : List Addr

abbrev pub candidate : Copy → Candidate
candidate c = record { hops = c.request.hcnt; path = c.ext; next = c.from }

-- A request of `orig` for the node, over two to five hops, with as many addresses behind it.
pub record IsCopy (address orig : Addr) (c : Copy) : Type 0 where
  pub mine : c.request.dest_addr ≡ address
  pub asker : c.request.orig_addr ≡ orig
  pub far : 2 ≤ c.request.hcnt
  pub near : c.request.hcnt ≤ 5
  pub whole : length c.ext ≡ c.request.hcnt

log_if_on-quiet :
    (size : ℕ) (p : Preq) (ext : List Addr) (n : Node)
    → n.nms_log_on ≡ false
    → log_if_on size (preq p ext) n ≡ some n
unfolding log_if_on
log_if_on-quiet size p ext n e = rw e refl

-- The state after the first steps of `preq_here`.
abbrev checked : Preq → Node → Node
checked p n =
    if timer_used n perr_rann_timer && p.orig_addr == n.perr_rann_node
    then record n { perr_rann_check = 1 }
    else n

checked-view :
    (p : Preq) (n : Node)
    → (view (checked p n) ≡ view n) × ((checked p n).src_mac_addr ≡ n.src_mac_addr)
checked-view p n =
    if-elim (λ (m : Node). (view m ≡ view n) × (m.src_mac_addr ≡ n.src_mac_addr))
      (timer_used n perr_rann_timer && p.orig_addr == n.perr_rann_node) (refl, refl) (refl, refl)

preq_here-step :
    (env : Env) (q : Preq) (ext : List Addr) (n : Node) (me orig : Addr) (i : ℕ) (b : Candidate)
    → Awaits (view n) me orig i b
    → q.orig_addr ≡ orig
    → 2 ≤ q.hcnt
    → q.hcnt ≤ 5
    → length ext ≡ q.hcnt
    → (m : Node) × (preq_here env q ext n ≡ some m)
      × Awaits
          (view m)
          me
          orig
          i
          (better b (record { hops = q.hcnt; path = ext; next = n.src_mac_addr }))
unfolding preq_here
preq_here-step env q ext n me orig i b w o h k l =
    let (v, s) = checked-view q n in
    let (c, run, u) =
      select-step env q ext (checked q n) me orig i b (subst (λ x. Awaits x me orig i b) (sym v) w)
        o h k l in
    let (m, run', same) = record_path-view q.r_ch (q.hcnt - 1) 0 ext c (omega arith) in
    let one : (q.hcnt == 1) ≡ false = ground arith in
    (
      m,
      rw (log_if_on-quiet (sizeof_preq + sizeof_ext * q.hcnt) q ext n w.quiet)
          (rw run (rw one run')),
      subst
          (λ x.
            Awaits x me orig i
              (better b (record { hops = q.hcnt; path = ext; next = n.src_mac_addr })))
          (sym same)
          (subst
            (λ a.
              Awaits (view c) me orig i (better b (record { hops = q.hcnt; path = ext; next = a })))
            s u),
    )

-- The measure of the last link is all that Preq_process changes in the message.
add_alm-rest :
    (p : Preq) (n : Node)
    → ((add_alm p n).hcnt ≡ p.hcnt)
      × ((add_alm p n).orig_addr ≡ p.orig_addr)
      × ((add_alm p n).dest_addr ≡ p.dest_addr)
add_alm-rest p n =
    Option-elim
      (λ (q : Preq). (q.hcnt ≡ p.hcnt) × (q.orig_addr ≡ p.orig_addr) × (q.dest_addr ≡ p.dest_addr))
      (find_route n n.src_mac_addr 0 n.src_mac_addr) (refl, refl, refl) (λ i. (refl, refl, refl))

-- A copy arrives.
abbrev pub arrive : Copy → Node → Option Node
arrive c n = receive_from c.env c.from (aodv (preq c.request c.ext)) n

pub arrive-step :
    (c : Copy) (n : Node) (me orig : Addr) (i : ℕ) (b : Candidate)
    → Awaits (view n) me orig i b
    → IsCopy me orig c
    → (m : Node) × (arrive c n ≡ some m) × Awaits (view m) me orig i (better b (candidate c))
unfolding receive_from receive preq_process
arrive-step c n me orig i b w v =
    let k : Node = record n { src_mac_addr = c.from } in
    let (h, o, d) = add_alm-rest c.request k in
    let q = add_alm c.request k in
    let mine : (n.my_mac == q.dest_addr) ≡ true = ground (arith, v.mine, w.mine) in
    let (m, run, r) =
      preq_here-step c.env q c.ext k me orig i b w (o ∙ v.asker) (ground (arith, v.far))
        (ground (arith, v.near)) (v.whole ∙ sym h) in
    (
      m,
      rw mine run,
      subst
          (λ j.
            Awaits (view m) me orig i (better b (record { hops = j; path = c.ext; next = c.from })))
          h r,
    )
