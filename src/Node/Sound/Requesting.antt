-- ===== src/Node/Sound/Requesting.antt =====
-- Route requests keep the invariant.
use ajou_etri_project.Base.{
  ℕ, zero, suc, ◌+◌, ◌-◌, ◌*◌, ◌<◌, ◌≡◌, refl, ◌∙◌, true, List, get_elem?, modify, length,
  length-modify, ◌==◌, ltb, ◌&&◌, not, if◌then◌else◌, some, Ensures, Ensures-bind, Ensures-of,
  Ensures-if, Ensures-elim, Ensures-elim_of, Ensures-any, Option-elim, if-elim, ends, faults,
  find_last-hit, arith,
}
use ajou_etri_project.Msg.{Addr, Preq, preq, sizeof_preq, sizeof_ext}
use ajou_etri_project.Route
use ajou_etri_project.Route.{get_index, is_route_to}
use ajou_etri_project.Nms
use ajou_etri_project.Node.{
  Node, Env, find_route, route, route_select_timer, timer_used, perr_rann_timer, prep_send,
}
use ajou_etri_project.Node.Keeps.{log_if_on-Keeps}
use ajou_etri_project.Node.Make.{take_ext}
use ajou_etri_project.Node.Send.{prep_start}
use ajou_etri_project.Node.Send.Passing.{preq_forward-Keeps}
use ajou_etri_project.Node.RouteRequest.{
  tmp_at, keep_preq, first_preq, better_preq, later_preq, is_better, compare_preq, select_route,
  record_path, preq_here, is_repeated, preq_there, add_alm, preq_process,
}
use ajou_etri_project.Node.Sound.{
  IsSound, same_parts, kept, set_timeout-IsSound, start_timer-IsSound, modify_route-IsSound,
  insert_route-IsSound, with_waiting, nms_insert-IsSound, nms_record-IsSound,
}

index_below : (t : Route.Table) (a : Addr) (i : ℕ) → get_index t a ≡ some i → i < length t
unfolding get_index
index_below t a i e = (find_last-hit (is_route_to a) t Route.blank e).0

module _ {owed : ℕ} where
  keep_preq-IsSound :
      (index : ℕ) (p : Preq) (ext : List Addr) {n : Node}
      → IsSound owed n
      → Ensures (IsSound owed) (keep_preq index p ext n)
  unfolding keep_preq
  keep_preq-IsSound index p ext {n} v = Ensures-if (ltb 5 p.hcnt) faults (
      Ensures-bind (Ensures-any {P = λ _. Unit {0}} (take_ext p.hcnt ext) (λ _. tt))
        (λ path _. ends (with_waiting v (length-modify n.tmp_preq index _ ∙ v.waiting))))

  prep_start-IsSound :
      (env : Env) (index : ℕ) {n : Node}
      → index < 10
      → IsSound owed n
      → Ensures (IsSound owed) (prep_start env index n)
  unfolding prep_start
  prep_start-IsSound env index {n} l v =
      Ensures-if (timer_used n (route_select_timer index)) (ends v) (
        Ensures-bind (start_timer-IsSound (route_select_timer index) (prep_send index) v)
          (λ m w. set_timeout-IsSound env (route_select_timer index) 3000 (omega arith) w))

  used_tmp :
      (index : ℕ) {n : Node}
      → IsSound owed n
      → IsSound owed
          (record n { tmp_preq = modify n.tmp_preq index (λ t. record t { used = true }) })
  used_tmp index {n} v = with_waiting v (length-modify n.tmp_preq index _ ∙ v.waiting)

  first_preq-IsSound :
      (env : Env) (p : Preq) (ext : List Addr) {n : Node}
      → IsSound owed n
      → Ensures (IsSound owed) (first_preq env p ext n)
  unfolding first_preq
  first_preq-IsSound env p ext {n} v = Ensures-bind (insert_route-IsSound env _ v) (λ r w.
      Ensures-bind (Ensures-of r.0 (λ i e. w.0 i e)) (λ i l.
        Ensures-bind (keep_preq-IsSound i p ext (used_tmp i w.1))
          (λ m u. prep_start-IsSound env i l u)))

  better_preq-IsSound :
      (env : Env) (i index : ℕ) (p : Preq) (ext : List Addr) {n : Node}
      → index < 10
      → IsSound owed n
      → Ensures (IsSound owed) (better_preq env i index p ext n)
  unfolding better_preq
  better_preq-IsSound env i index p ext {n} l v =
      Ensures-if (tmp_at n index).used
        (Ensures-bind (keep_preq-IsSound index p ext v) (λ m w. ends (modify_route-IsSound i _ w)))
        (Ensures-bind (keep_preq-IsSound index p ext (used_tmp index v))
          (λ m w. prep_start-IsSound env index l (modify_route-IsSound i _ w)))

  later_preq-IsSound :
      (env : Env) (i index : ℕ) (p : Preq) (ext : List Addr) {n : Node}
      → index < 10
      → IsSound owed n
      → Ensures (IsSound owed) (later_preq env i index p ext n)
  unfolding later_preq
  later_preq-IsSound env i index p ext {n} l v =
      Ensures-if (ltb (route n i).seqno p.seqno && not (tmp_at n index).used)
        (better_preq-IsSound env i index p ext l v) (ends v)

  compare_preq-IsSound :
      (env : Env) (i index : ℕ) (p : Preq) (ext : List Addr) {n : Node}
      → index < 10
      → IsSound owed n
      → Ensures (IsSound owed) (compare_preq env i index p ext n)
  unfolding compare_preq
  compare_preq-IsSound env i index p ext {n} l v =
      let later = later_preq-IsSound env i index p ext l v in
      Ensures-if (is_better n.metric p (route n i)) (better_preq-IsSound env i index p ext l v)
        (Ensures-if (n.metric == 1) later (Ensures-if (n.metric == 2) later (ends v)))

  select_route-IsSound :
      (env : Env) (p : Preq) (ext : List Addr) {n : Node}
      → IsSound owed n
      → Ensures (IsSound owed) (select_route env p ext n)
  unfolding select_route
  select_route-IsSound env p ext {n} v =
      Ensures-elim (find_route n p.orig_addr 0 p.orig_addr) (first_preq-IsSound env p ext v) (λ i.
        Ensures-if ((route n i).hcnt == 1) (ends v) (
          Ensures-elim_of (get_index n.rt_t p.orig_addr) (ends v) (λ index e.
            compare_preq-IsSound env i index p ext
              (omega (arith, index_below n.rt_t p.orig_addr index e, v.routes)) v)))

  record_path-IsSound :
      (r_ch k i : ℕ) (ext : List Addr) {n : Node}
      → IsSound owed n
      → Ensures (IsSound owed) (record_path r_ch k i ext n)
  unfolding record_path
  record_path-IsSound r_ch zero i ext v = ends v
  record_path-IsSound r_ch (suc k) i ext v =
      Ensures-bind (Ensures-any {P = λ _. Unit {0}} (get_elem? ext i) (λ _. tt)) (λ a _.
        Ensures-bind (Ensures-any {P = λ _. Unit {0}} (get_elem? ext (i + 1)) (λ _. tt)) (λ b _.
          record_path-IsSound r_ch k (i + 1) ext (
            nms_record-IsSound b a 0 1 0
              (nms_record-IsSound a b (if i == 0 then r_ch else 0) 1 0 v))))

  preq_here-IsSound :
      (env : Env) (p : Preq) (ext : List Addr) {n : Node}
      → IsSound owed n
      → Ensures (IsSound owed) (preq_here env p ext n)
  unfolding preq_here
  preq_here-IsSound env p ext {n} v =
      Ensures-bind (kept v (log_if_on-Keeps (sizeof_preq + sizeof_ext * p.hcnt) (preq p ext) n))
        (λ a va.
          Ensures-bind
            (select_route-IsSound env p ext (
              if-elim (IsSound owed)
                (timer_used a perr_rann_timer && p.orig_addr == a.perr_rann_node)
                (same_parts va refl) va))
            (λ c vc. record_path-IsSound p.r_ch (p.hcnt - 1) 0 ext (
              if-elim (IsSound owed) (p.hcnt == 1)
                (Option-elim (IsSound owed) (Nms.find c.nms_t p.orig_addr)
                  (nms_insert-IsSound p.orig_addr c.my_mac p.r_ch 1 0 vc) (λ _. vc))
                vc)))

  preq_there-IsSound :
      (p : Preq) (ext : List Addr) {n : Node}
      → IsSound owed n
      → Ensures (IsSound owed) (preq_there p ext n)
  unfolding preq_there
  preq_there-IsSound p ext {n} v =
      Ensures-bind (Ensures-any {P = λ _. Unit {0}} (is_repeated n.my_mac p.hcnt 0 0 ext) (λ _. tt))
        (λ repeated _. Ensures-if repeated (ends v) (
          Ensures-bind (kept v (log_if_on-Keeps (sizeof_preq + sizeof_ext * p.hcnt) (preq p ext) n))
            (λ m w. kept w (preq_forward-Keeps p ext m))))

  pub preq_process-IsSound :
      (env : Env) (p : Preq) (ext : List Addr) {n : Node}
      → IsSound owed n
      → Ensures (IsSound owed) (preq_process env p ext n)
  unfolding preq_process
  preq_process-IsSound env p ext {n} v =
      let q = add_alm p n in
      Ensures-if (n.my_mac == q.dest_addr) (preq_here-IsSound env q ext v)
        (preq_there-IsSound q ext v)
