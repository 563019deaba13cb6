-- ===== src/Node/Sound/Losing.antt =====
-- Route errors keep the invariant.
use ajou_etri_project.Base.{
  ℕ, zero, suc, ◌+◌, ◌==◌, Ensures, Ensures-bind, Ensures-if, if-elim, ends,
}
use ajou_etri_project.Msg.{Perr, PerrUni, perr, sizeof_perr}
use ajou_etri_project.Node.{Node, route}
use ajou_etri_project.Node.Keeps.{log_if_on-Keeps}
use ajou_etri_project.Node.Make.Keeping.{make_perr-Keeps}
use ajou_etri_project.Node.Send.Passing.{perr_forward-Keeps}
use ajou_etri_project.Node.RouteError.{
  mentions, perr_round, perr_rounds, perr_process, perr_unicast_process,
}
use ajou_etri_project.Node.Sound.{IsSound, kept, rt_table_empty-IsSound, perr_update-IsSound}

module _ {owed : ℕ} where
  perr_round-IsSound :
      (p : Perr) (i : ℕ) {n : Node} → IsSound owed n → Ensures (IsSound owed) (perr_round p i n)
  unfolding perr_round
  perr_round-IsSound p i {n} v =
      let cut = ends (
        if-elim (IsSound owed) (mentions p.timeout_addr (route n i)) (rt_table_empty-IsSound i v)
          v) in
      Ensures-if (p.timeout_addr == p.dest_addr) cut (
        Ensures-if (p.dest_addr == (route n i).next_hop)
          (Ensures-if (n.root_addr == (route n i).dest_addr)
            (Ensures-bind (kept v (make_perr-Keeps p.timeout_addr n.my_mac n))
              (λ m w. ends (rt_table_empty-IsSound i w)))
            (ends v))
          cut)

  perr_rounds-IsSound :
      (p : Perr) (k i : ℕ) {n : Node}
      → IsSound owed n
      → Ensures (IsSound owed) (perr_rounds p k i n)
  unfolding perr_rounds
  perr_rounds-IsSound p zero i v = ends v
  perr_rounds-IsSound p (suc k) i v =
      Ensures-bind (perr_round-IsSound p i v) (λ m w. perr_rounds-IsSound p k (i + 1) w)

  pub perr_process-IsSound :
      (p : Perr) {n : Node} → IsSound owed n → Ensures (IsSound owed) (perr_process p n)
  unfolding perr_process
  perr_process-IsSound p {n} v =
      Ensures-bind (kept v (log_if_on-Keeps sizeof_perr (perr p) n))
        (λ m w. perr_rounds-IsSound p 10 0 w)

  pub perr_unicast_process-IsSound :
      (p : PerrUni) {n : Node} → IsSound owed n → Ensures (IsSound owed) (perr_unicast_process p n)
  unfolding perr_unicast_process
  perr_unicast_process-IsSound p {n} v =
      Ensures-if (n.root_node == 1) (ends (perr_update-IsSound p.timeout_addr v))
        (kept v (perr_forward-Keeps p n))
