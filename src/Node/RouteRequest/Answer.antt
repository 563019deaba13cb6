-- ===== src/Node/RouteRequest/Answer.antt =====
-- The answer that a waiting request gets.
use ajou_etri_project.Base.{
  ℕ, ◌+◌, ◌*◌, ◌≡◌, ◌≤◌, refl, ap, ◌∙◌, false, Option, none, some, List, [], ◌∷◌, ◌++◌, map, length,
  length-append, arith, All, ◌>>=◌, ◌==◌, if◌then◌else◌, find_last,
}
use ajou_etri_project.Msg.{Addr, Preq, aodv, prep, sizeof_prep, sizeof_ext}
use ajou_etri_project.Route
use ajou_etri_project.Route.{is_route_to}
use ajou_etri_project.Node.{Node, Env, send_to, unicast, cch, set_tmp_used, prep_send}
use ajou_etri_project.Node.Make.{make_prep}
use ajou_etri_project.Node.Send.{send_prep, nms_uplink}
use ajou_etri_project.Node.Send.Path.{reply, make_prep-path}
use ajou_etri_project.Node.Run.{handle}
use ajou_etri_project.Node.RouteRequest.{tmp_at}
use ajou_etri_project.Node.RouteRequest.Waiting.{view}
use ajou_etri_project.Node.RouteRequest.Choice.{Candidate, Awaits}
use ajou_etri_project.Node.RouteRequest.Copies.{Copy, candidate, IsCopy}
use ajou_etri_project.Node.RouteRequest.Fewest.{arrive_all, IsFewest, arrive_all-IsFewest}

snoc : {A : Type 0} (l : List A) → 1 ≤ length l → (front : List A) × (a : A) × (l ≡ front ++ a ∷ [])
snoc [] h = absurd (omega arith)
snoc (x ∷ []) h = ([], x, refl)
snoc (x ∷ y ∷ l) h = let (front, a, e) = snoc (y ∷ l) (omega arith) in (x ∷ front, a, ap (◌∷◌ x) e)

-- The root then enters the path in its table for the management system.
abbrev pub enter_path : Preq → List Addr → Node → Option Node
enter_path p ext k = if k.root_node == 1 then nms_uplink p.orig_addr p ext k else some k

send_prep-chosen :
    (p : Preq) (ext : List Addr) (n : Node) (i : ℕ)
    → Route.get_index n.rt_t p.orig_addr ≡ some i
    → send_prep p ext n ≡ (make_prep p ext (set_tmp_used i false n) >>= enter_path p ext)
unfolding send_prep
send_prep-chosen p ext n i e =
    ap
      (λ (o : Option ℕ).
        make_prep p ext (elim o as (λ _. Node) [ none ↦ n | some i ↦ set_tmp_used i false n ])
        >>= enter_path p ext)
      e

-- The reply goes to the last node of the path that was kept, with the nodes before it.
pub handle-answer :
    (env : Env) (m : Node) (me orig : Addr) (i : ℕ) (x : Candidate)
    → Awaits (view m) me orig i x
    → (front : List Addr) × (a : Addr) × (x.path ≡ front ++ a ∷ [])
      × (handle env (prep_send i) m ≡ (
          send_to a
            (sizeof_prep + sizeof_ext * length front)
            (aodv (prep (reply (tmp_at m i).t_preq m (length front)) front))
            unicast
            cch
            (set_tmp_used i false m)
          >>= enter_path (tmp_at m i).t_preq (tmp_at m i).t_ext))
unfolding handle Route.get_index
handle-answer env m me orig i x w =
    let p = (tmp_at m i).t_preq in
    let ext = (tmp_at m i).t_ext in
    let (front, a, e) = snoc x.path (omega (arith, w.whole, w.far)) in
    let g : find_last (is_route_to p.orig_addr) m.rt_t ≡ some i =
      ap (λ o. find_last (is_route_to o) m.rt_t) w.asker ∙ w.last in
    let h : p.hcnt ≡ length front + 1 =
      omega (arith, w.kept, w.whole, ap length e, length-append front (a ∷ [])) in
    (
      front,
      a,
      e,
      send_prep-chosen p ext m i g
          ∙ ap (λ l. make_prep p l (set_tmp_used i false m) >>= enter_path p ext) (w.behind ∙ e)
          ∙ ap (λ o. o >>= enter_path p ext)
              (make_prep-path p front a [] (set_tmp_used i false m) h
                (omega (arith, w.kept, w.near))),
    )

-- Where an answer to `orig` waits at `i`, routes are chosen by hops and logging is off: whatever copies of
-- the request arrive, over two to five hops each, none of them makes the node fault; and the answer that is
-- then sent goes to the last node of the path of a copy with the fewest hops among the one that waited and
-- all that arrived, and carries the nodes before it.
pub arrive_all-answered :
    (cs : List Copy) (env : Env) (n : Node) (me orig : Addr) (i : ℕ) (b : Candidate)
    → Awaits (view n) me orig i b
    → All (IsCopy me orig) cs
    → (m : Node) × (x : Candidate) × (front : List Addr) × (a : Addr) × (arrive_all cs n ≡ some m)
      × IsFewest x (b ∷ map candidate cs)
      × (x.path ≡ front ++ a ∷ [])
      × ((tmp_at m i).t_preq.orig_addr ≡ orig)
      × (handle env (prep_send i) m ≡ (
          send_to a
            (sizeof_prep + sizeof_ext * length front)
            (aodv (prep (reply (tmp_at m i).t_preq m (length front)) front))
            unicast
            cch
            (set_tmp_used i false m)
          >>= enter_path (tmp_at m i).t_preq (tmp_at m i).t_ext))
arrive_all-answered cs env n me orig i b w v =
    let (m, x, run, u, f) = arrive_all-IsFewest cs n me orig i b w v in
    let (front, a, e, h) = handle-answer env m me orig i x u in
    (m, x, front, a, run, f, e, u.asker, h)
