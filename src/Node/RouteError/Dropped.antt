-- ===== src/Node/RouteError/Dropped.antt =====
-- Perr_process on a message that names the lost node twice.
use ajou_etri_project.Base.{
  ℕ, zero, suc, ◌+◌, ◌<◌, ◌≡◌, ◌≢◌, ◌⊎◌, inl, inr, refl, sym, ◌∙◌, ap, subst, false, some, ◌==◌,
  if◌then◌else◌, ◌>>=◌, Ensures, Ensures-bind, Ensures-result, ends, length, length-modify,
  get_or-modify_self, get_or-modify_ne, Bool-cases, ==_refl, arith,
}
use ajou_etri_project.Msg.{Addr, Perr, perr, sizeof_perr}
use ajou_etri_project.Route
use ajou_etri_project.Route.{empty_route}
use ajou_etri_project.Node.{Node, route, rt_table_empty}
use ajou_etri_project.Node.Keeps.{log_if_on-Keeps}
use ajou_etri_project.Node.Log.{log_if_on}
use ajou_etri_project.Node.RouteError.{mentions, perr_round, perr_rounds, perr_process}

-- Entry `j` after `rt_table_empty i`, for an `i` in the table.
cleared :
    (t : Route.Table) (i j : ℕ)
    → i < 10
    → length t ≡ 10
    → Route.entry (empty_route t i) j ≡ (if i == j then Route.blank else Route.entry t j)
unfolding empty_route
cleared t i j l s = ground (
  arith,
  get_or-modify_self t i (λ r. Route.blank) Route.blank,
  get_or-modify_ne t {i = i} {j = j} (λ r. Route.blank) Route.blank,
)

cleared-length : (t : Route.Table) (i : ℕ) → i < 10 → length (empty_route t i) ≡ length t
unfolding empty_route
cleared-length t i l = ground (arith, length-modify t i (λ r. Route.blank))

blank-mentions : (a : Addr) → a ≢ 0 → mentions a Route.blank ≡ false
blank-mentions a h = ground arith

-- The first `i` entries have nothing of the address.
pub record IsClean (a : Addr) (i : ℕ) (n : Node) : Type 0 where
  pub size : length n.rt_t ≡ 10
  pub clean : (j : ℕ) → j < i → mentions a (route n j) ≡ false

abbrev dropped : Addr → ℕ → Node → Node
dropped a i n = if mentions a (route n i) then rt_table_empty i n else n

below_suc : (j i : ℕ) → j < suc i → (j < i) ⊎ (j ≡ i)
below_suc j i h = ground arith

emptied-IsClean :
    (a : Addr) (i : ℕ) (n : Node)
    → a ≢ 0
    → i < 10
    → IsClean a i n
    → IsClean a (suc i) (rt_table_empty i n)
unfolding rt_table_empty
emptied-IsClean a i n z l v = record {
  size = cleared-length n.rt_t i l ∙ v.size;
  clean = λ j h. elim (below_suc j i h) [
    | inl k ↦ ground (arith, cleared n.rt_t i j l v.size, v.clean j k)
    | inr e ↦ ground (arith, cleared n.rt_t i j l v.size, blank-mentions a z)
  ];
}

dropped-IsClean :
    (a : Addr) (i : ℕ) (n : Node)
    → a ≢ 0
    → i < 10
    → IsClean a i n
    → IsClean a (suc i) (dropped a i n)
dropped-IsClean a i n z l v = elim (Bool-cases (mentions a (route n i))) [
  | inl b ↦
      subst (λ c. IsClean a (suc i) (if c then rt_table_empty i n else n)) (sym b)
        (emptied-IsClean a i n z l v)
  | inr b ↦
      subst (λ c. IsClean a (suc i) (if c then rt_table_empty i n else n)) (sym b)
        (record {
          size = v.size;
          clean = λ j h. elim (below_suc j i h) [
            | inl k ↦ v.clean j k
            | inr e ↦ ap (λ x. mentions a (route n x)) e ∙ b
          ];
        })
]

round_same :
    (p : Perr) (i : ℕ) (n : Node)
    → p.timeout_addr ≡ p.dest_addr
    → perr_round p i n ≡ some (dropped p.timeout_addr i n)
unfolding perr_round
round_same p i n e = rw (e, ==_refl p.dest_addr)

rounds-IsClean :
    (p : Perr) (k i : ℕ) (n : Node)
    → p.timeout_addr ≡ p.dest_addr
    → p.timeout_addr ≢ 0
    → i + k ≡ 10
    → IsClean p.timeout_addr i n
    → Ensures (IsClean p.timeout_addr 10) (perr_rounds p k i n)
unfolding perr_rounds
rounds-IsClean p zero i n e z s v = ends (subst (λ x. IsClean p.timeout_addr x n) (omega arith) v)
rounds-IsClean p (suc k) i n e z s v =
    subst (λ o. Ensures (IsClean p.timeout_addr 10) (o >>= perr_rounds p k (i + 1)))
      (sym (round_same p i n e))
      (rounds-IsClean p k (i + 1) (dropped p.timeout_addr i n) e z (omega arith) (
        subst (λ x. IsClean p.timeout_addr x (dropped p.timeout_addr i n)) (omega arith)
          (dropped-IsClean p.timeout_addr i n z (omega arith) v)))

-- After a PERR that names a node twice, unless it faults, no entry of the routing table of ten leads to
-- that node, goes through it, starts at it or came from it. The address is not zero.
pub perr_process-dropped :
    (p : Perr) (n : Node)
    → p.timeout_addr ≡ p.dest_addr
    → p.timeout_addr ≢ 0
    → length n.rt_t ≡ 10
    → Ensures (IsClean p.timeout_addr 10) (perr_process p n)
unfolding perr_process
perr_process-dropped p n e z s = Ensures-bind (log_if_on-Keeps sizeof_perr (perr p) n) (λ m h.
    rounds-IsClean p 10 0 m e z refl (record {
      size = ap length (ap (λ c. c.routes) h.same) ∙ s;
      clean = λ j l. absurd (omega arith);
    }))

rounds_end :
    (p : Perr) (k i : ℕ) (n : Node)
    → p.timeout_addr ≡ p.dest_addr
    → (m : Node) × (perr_rounds p k i n ≡ some m)
unfolding perr_rounds
rounds_end p zero i n e = (n, refl)
rounds_end p (suc k) i n e =
    subst (λ o. (m : Node) × ((o >>= perr_rounds p k (i + 1)) ≡ some m)) (sym (round_same p i n e))
      (rounds_end p k (i + 1) (dropped p.timeout_addr i n) e)

log_off : (p : Perr) (n : Node) → n.nms_log_on ≡ false → perr_process p n ≡ perr_rounds p 10 0 n
unfolding perr_process log_if_on
log_off p n o = rw (o)

-- With logging off, a PERR that names a node twice is processed without a fault, and afterwards no
-- entry of the routing table of ten leads to that node, goes through it, starts at it or came from it.
-- The address is not zero.
pub perr_process-IsClean :
    (p : Perr) (n : Node)
    → p.timeout_addr ≡ p.dest_addr
    → p.timeout_addr ≢ 0
    → length n.rt_t ≡ 10
    → n.nms_log_on ≡ false
    → (m : Node) × (perr_process p n ≡ some m) × IsClean p.timeout_addr 10 m
perr_process-IsClean p n e z s o =
    let r = rounds_end p 10 0 n e in
    let f : perr_process p n ≡ some r.0 = log_off p n o ∙ r.1 in
    (r.0, f, Ensures-result (perr_process-dropped p n e z s) f)
