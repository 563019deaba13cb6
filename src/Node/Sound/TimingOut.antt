-- ===== src/Node/Sound/TimingOut.antt =====
-- The loss of neighbours that are silent keeps the invariant.
use ajou_etri_project.Base.{
  ℕ, zero, suc, ◌+◌, refl, Bool, true, false, ◌==◌, ltb, ◌&&◌, not, if◌then◌else◌, Ensures,
  Ensures-bind, Ensures-if, Ensures-elim, if-elim, ends, arith,
}
use ajou_etri_project.Msg.{Addr}
use ajou_etri_project.Route
use ajou_etri_project.Node.{Node, Env, find_route, route, rt_table_empty, hello_timeout_timer}
use ajou_etri_project.Node.Make.Keeping.{make_perr-Keeps, perr_unicast-Keeps}
use ajou_etri_project.Node.Hello
use ajou_etri_project.Node.Hello.{
  modify_route, drop_next_hop, drop_by, time_out, is_late, time_out_rounds,
}
use ajou_etri_project.Node.Sound.{
  IsSound, same_parts, kept, set_timeout-IsSound, rt_table_empty-IsSound, perr_update-IsSound,
}

module _ {owed : ℕ} where
  drop_next_hop-IsSound :
      (t : Addr) (i k j : ℕ) (sent : Bool) {n : Node}
      → IsSound owed n
      → Ensures (IsSound owed) (drop_next_hop t i k j sent n)
  unfolding drop_next_hop
  drop_next_hop-IsSound t i zero j sent v = ends v
  drop_next_hop-IsSound t i (suc k) j sent {n} v =
      let hit : Bool = not (j == i) && (route n j).next_hop == t in
      let report : Bool = hit && (route n j).dest_addr == n.root_addr && not sent in
      Ensures-bind (Ensures-if report (kept v (make_perr-Keeps t n.my_mac n)) (ends v)) (λ m w.
        drop_next_hop-IsSound t i k (j + 1) (if report then true else sent)
          (if-elim (IsSound owed) hit (rt_table_empty-IsSound j w) w))

  drop_by-IsSound :
      (f : Route.Route → Addr) (t : Addr) (i k j : ℕ) {n : Node}
      → IsSound owed n
      → IsSound owed (drop_by f t i k j n)
  unfolding drop_by
  drop_by-IsSound f t i zero j v = v
  drop_by-IsSound f t i (suc k) j {n} v =
      drop_by-IsSound f t i k (j + 1)
        (if-elim (IsSound owed) (not (j == i) && f (route n j) == t) (rt_table_empty-IsSound j v) v)

  time_out-IsSound :
      (env : Env) (i : ℕ) {n : Node} → IsSound owed n → Ensures (IsSound owed) (time_out env i n)
  unfolding time_out
  time_out-IsSound env i {n} v =
      let t : Addr = (route n i).dest_addr in
      Ensures-bind (kept v (make_perr-Keeps t t n)) (λ a va.
        Ensures-bind (drop_next_hop-IsSound t i 10 0 false va) (λ b vb.
          let c : Node = drop_by (λ r. r.source_addr) t i 10 0 b in
          let d : Node = rt_table_empty i (drop_by (λ r. r.prev_addr) t i 10 0 c) in
          let vd : IsSound owed d = rt_table_empty-IsSound i (
            drop_by-IsSound (λ r. r.prev_addr) t i 10 0
              (drop_by-IsSound (λ r. r.source_addr) t i 10 0 vb)) in
          Ensures-if (d.root_node == 1) (ends (perr_update-IsSound t vd)) (
            Ensures-elim (find_route d d.root_addr 1 d.my_mac) (ends vd)
              (λ _. kept vd (perr_unicast-Keeps env t d)))))

  time_out_rounds-IsSound :
      (env : Env) (k i : ℕ) {n : Node}
      → IsSound owed n
      → Ensures (IsSound owed) (time_out_rounds env k i n)
  unfolding time_out_rounds
  time_out_rounds-IsSound env zero i v = ends v
  time_out_rounds-IsSound env (suc k) i {n} v =
      Ensures-bind
        (Ensures-if (is_late env n.update_cycle (route n i)) (time_out-IsSound env i v) (ends v))
        (λ m w. time_out_rounds-IsSound env k (i + 1) w)

  pub hello_timeout-IsSound :
      (env : Env) {n : Node}
      → IsSound owed n
      → Ensures (IsSound owed) (Hello.hello_timeout_process env n)
  unfolding Hello.hello_timeout_process
  hello_timeout-IsSound env {n} v =
      Ensures-bind (time_out_rounds-IsSound env 10 0 (same_parts v refl)) (λ m w.
        Ensures-if (ltb m.timer_cnt 1000)
          (set_timeout-IsSound env hello_timeout_timer 5000 (omega arith) w)
          (ends (same_parts w refl)))
