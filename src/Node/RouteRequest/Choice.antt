-- ===== src/Node/RouteRequest/Choice.antt =====
-- Which copy of a request is answered.
use ajou_etri_project.Base.{
  ℕ, ◌<◌, ◌≤◌, ◌≡◌, refl, sym, ap, ◌∙◌, Bool, true, false, Option, none, some, List, [], ◌==◌, ltb,
  get_or, modify, length, arith, if◌then◌else◌, Bool-cases, inl, inr, find_index, find_last,
  find_index-hit, find_index-modify, find_last-modify, get_or-modify_self, length-modify,
}
use ajou_etri_project.Msg.{Addr, Preq}
use ajou_etri_project.Route
use ajou_etri_project.Route.{Route, blank, entry, is_route_to}
use ajou_etri_project.Node.{Node, Env, Tmp, route, find_route}
use ajou_etri_project.Node.Make.{take_ext}
use ajou_etri_project.Node.Send.Path.{take_ext-all}
use ajou_etri_project.Node.RouteRequest.{
  tmp_at, blank_preq, keep_preq, better_preq, later_preq, compare_preq, select_route, first_preq,
}
use ajou_etri_project.Node.RouteRequest.Waiting.{View, view}

-- A copy of a request as the choice sees it: how far it travelled, over which nodes, and from which
-- neighbour it came.
pub record Candidate : Type 0 where
  pub hops : ℕ
  pub path : List Addr
  pub next : Addr

-- The copy with fewer hops, and of two with as many the one that came first.
abbrev pub better : Candidate → Candidate → Candidate
better b c = if ltb c.hops b.hops then c else b

abbrev pub waiting_at : View → ℕ → Tmp
waiting_at v i = get_or v.waiting i (record { used = false; t_preq = blank_preq; t_ext = [] })

-- At `me` an answer to `orig` waits at `i`: the one route to `orig`, of more than one hop, is by the candidate,
-- and the copy kept is it. Routes are chosen by hops, and logging is off.
pub record Awaits (v : View) (me orig : Addr) (i : ℕ) (b : Candidate) : Type 0 where
  pub mine : v.address ≡ me
  pub quiet : v.logging ≡ false
  pub metric : v.settings.metric ≡ 1
  pub first : find_index (is_route_to orig) v.routes ≡ some i
  pub last : find_last (is_route_to orig) v.routes ≡ some i
  pub room : i < length v.waiting
  pub far : 2 ≤ b.hops
  pub near : b.hops ≤ 5
  pub whole : length b.path ≡ b.hops
  pub hops : (entry v.routes i).hcnt ≡ b.hops
  pub via : (entry v.routes i).next_hop ≡ b.next
  pub waits : (waiting_at v i).used ≡ true
  pub kept : (waiting_at v i).t_preq.hcnt ≡ b.hops
  pub asker : (waiting_at v i).t_preq.orig_addr ≡ orig
  pub behind : (waiting_at v i).t_ext ≡ b.path

keep-better :
    (env : Env) (q : Preq) (ext : List Addr) (n : Node) (me orig : Addr) (i : ℕ) (b : Candidate)
    → Awaits (view n) me orig i b
    → q.orig_addr ≡ orig
    → 2 ≤ q.hcnt
    → q.hcnt ≤ 5
    → length ext ≡ q.hcnt
    → (m : Node) × (better_preq env i i q ext n ≡ some m)
      × Awaits (view m) me orig i (record { hops = q.hcnt; path = ext; next = n.src_mac_addr })
      × (m.nms_t ≡ n.nms_t)
unfolding better_preq keep_preq Route.update
keep-better env q ext n me orig i b w o h k l =
    let t : take_ext q.hcnt ext ≡ some ext = ap (λ j. take_ext j ext) (sym l) ∙ take_ext-all ext in
    let f : Route → Route = λ r. Route.update env.stack r n.src_mac_addr q.hcnt q.alm q.seqno in
    let g : Tmp → Tmp = λ t. record t { t_preq = q; t_ext = ext } in
    let d : Tmp = record { used = false; t_preq = blank_preq; t_ext = [] } in
    let m : Node = record n { rt_t = modify n.rt_t i f; tmp_preq = modify n.tmp_preq i g } in
    let hit = find_index-hit (is_route_to orig) n.rt_t blank w.first in
    let same : is_route_to orig (f (entry n.rt_t i)) ≡ is_route_to orig (entry n.rt_t i) =
      ground arith in
    let new = get_or-modify_self n.rt_t i f blank hit.0 in
    let kept = get_or-modify_self n.tmp_preq i g d w.room in
    let short : ltb 5 q.hcnt ≡ false = ground arith in
    let u = w.waits in
    (
      m,
      rw u (rw short (rw t refl)),
      record {
        mine = w.mine;
        quiet = w.quiet;
        metric = w.metric;
        first = find_index-modify (is_route_to orig) n.rt_t i f blank same ∙ w.first;
        last = find_last-modify (is_route_to orig) n.rt_t i f blank same ∙ w.last;
        room = omega (arith, length-modify n.tmp_preq i g, w.room);
        far = h;
        near = k;
        whole = l;
        hops = ap (λ (r : Route). r.hcnt) new;
        via = ap (λ (r : Route). r.next_hop) new;
        waits = ap (λ (t : Tmp). t.used) kept ∙ u;
        kept = ap (λ (t : Tmp). t.t_preq.hcnt) kept;
        asker = ap (λ (t : Tmp). t.t_preq.orig_addr) kept ∙ o;
        behind = ap (λ (t : Tmp). t.t_ext) kept;
      },
      refl,
    )

-- Where a route of more than one hop is known.
select_route-far :
    (env : Env) (p : Preq) (ext : List Addr) (n : Node) (i j : ℕ)
    → find_route n p.orig_addr 0 p.orig_addr ≡ some i
    → ((route n i).hcnt == 1) ≡ false
    → Route.get_index n.rt_t p.orig_addr ≡ some j
    → select_route env p ext n ≡ compare_preq env i j p ext n
unfolding select_route
select_route-far env p ext n i j f e g =
    ap
      (λ (o : Option ℕ). elim o as (λ _. Option Node) [
        | none ↦ first_preq env p ext n
        | some i ↦
            if (route n i).hcnt == 1
            then some n
            else elim (Route.get_index n.rt_t p.orig_addr) as (λ _. Option Node) [
              | none ↦ some n
              | some index ↦ compare_preq env i index p ext n
            ]
      ])
      f
    ∙ ap
        (λ (c : Bool).
          if c then some n else elim (Route.get_index n.rt_t p.orig_addr) as (λ _. Option Node) [
            | none ↦ some n
            | some index ↦ compare_preq env i index p ext n
          ])
        e
    ∙ ap
        (λ (o : Option ℕ). elim o as (λ _. Option Node) [
          | none ↦ some n
          | some index ↦ compare_preq env i index p ext n
        ])
        g

pub select-step :
    (env : Env) (q : Preq) (ext : List Addr) (n : Node) (me orig : Addr) (i : ℕ) (b : Candidate)
    → Awaits (view n) me orig i b
    → q.orig_addr ≡ orig
    → 2 ≤ q.hcnt
    → q.hcnt ≤ 5
    → length ext ≡ q.hcnt
    → (m : Node) × (select_route env q ext n ≡ some m)
      × Awaits
          (view m)
          me
          orig
          i
          (better b (record { hops = q.hcnt; path = ext; next = n.src_mac_addr }))
unfolding compare_preq later_preq Route.find Route.get_index
select-step env q ext n me orig i b w o h k l =
    let f : find_index (is_route_to q.orig_addr) n.rt_t ≡ some i =
      ap (λ a. find_index (is_route_to a) n.rt_t) o ∙ w.first in
    let g : find_last (is_route_to q.orig_addr) n.rt_t ≡ some i =
      ap (λ a. find_last (is_route_to a) n.rt_t) o ∙ w.last in
    let far : ((route n i).hcnt == 1) ≡ false = ground (arith, w.hops, w.far) in
    let u : (tmp_at n i).used ≡ true = w.waits in
    let mt : (n.metric == 1) ≡ true = ground (arith, w.metric) in
    let hp = w.hops in
    let run0 = select_route-far env q ext n i i f far g in
    elim (Bool-cases (ltb q.hcnt (route n i).hcnt)) [
      | inl e ↦
          let e' : ltb q.hcnt b.hops ≡ true = ground arith in
          let (m, run, r, rows) = keep-better env q ext n me orig i b w o h k l in
          (m, run0 ∙ rw mt (rw e run), rw e' r)
      | inr e ↦
          let e' : ltb q.hcnt b.hops ≡ false = ground arith in
          (n, run0 ∙ rw mt (rw e (rw u (ground arith))), rw e' w)
    ]
