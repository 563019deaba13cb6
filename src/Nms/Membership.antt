-- ===== src/Nms/Membership.antt =====
-- A node that failed leaves every row.
use ajou_etri_project.Base.{
  ℕ, zero, suc, ◌+◌, ◌≤◌, ◌<◌, ◌≡◌, ◌≢◌, refl, false, List, [], ◌∷◌, map, arith, ◌==◌, ==_iff,
  Bool-cases, Option-cases, inl, inr, All, length, get_or, All-modify,
}
use native.Mathlib.Decide.{ℕ_discrete}
use ajou_etri_project.Msg.{Addr}
use ajou_etri_project.Nms.{
  Row, Table, contains, find, shift, close_gap, perr_round, perr_rounds, perr_update,
}

abbrev pub NotIn : Addr → List Addr → Type 0
NotIn a l = contains l a ≡ false

-- At most one entry is `a`.
abbrev pub Once : Addr → List Addr → Type 0
Once a [] = Unit
Once a (b ∷ l) = (a ≡ b → NotIn a l) × Once a l

NotIn-get : (a : Addr) (l : List Addr) (j : ℕ) → a ≢ 0 → NotIn a l → get_or l j 0 ≢ a
NotIn-get a [] j h n e = h (omega arith)
NotIn-get a (b ∷ l) zero h n e = ground arith
NotIn-get a (b ∷ l) (suc j) h n e = NotIn-get a l j h (ground arith) e

get-NotIn : (a : Addr) (l : List Addr) → ((j : ℕ) → j < length l → get_or l j 0 ≢ a) → NotIn a l
get-NotIn a [] h = refl
get-NotIn a (b ∷ l) h = ground (arith, h 0, get-NotIn a l (λ j p. h (suc j) (omega arith)))

shift-NotIn : (a b : Addr) (l : List Addr) → NotIn a (b ∷ l) → NotIn a (shift (b ∷ l))
unfolding shift
shift-NotIn a b [] n = n
shift-NotIn a b (c ∷ l) n = ground (arith, shift-NotIn a c l)

close_gap-NotIn :
    (a : Addr) (l : List Addr) (j : ℕ)
    → a ≢ 0
    → Once a l
    → j < length l
    → get_or l j 0 ≡ a
    → NotIn a (close_gap l j)
unfolding close_gap
close_gap-NotIn a [] j h o p e = absurd (omega arith)
close_gap-NotIn a (b ∷ []) zero h o p e = ground arith
close_gap-NotIn a (b ∷ c ∷ l) zero h o p e = ground (arith, shift-NotIn a c l)
close_gap-NotIn a (b ∷ []) (suc j) h o p e = absurd (omega arith)
close_gap-NotIn a (b ∷ c ∷ l) (suc j) h o p e =
    let ih = close_gap-NotIn a (c ∷ l) j h o.1 (omega arith) e in
    let apart : a ≢ b = λ q. NotIn-get a (c ∷ l) j h (o.0 q) e in ground arith

-- The rounds leave alone a list that the address is not in.
rounds-keep_neighbor :
    (a : Addr) (n j : ℕ) (r : Row)
    → a ≢ 0
    → NotIn a r.neighbor_node
    → NotIn a (perr_rounds a n j r).neighbor_node
unfolding perr_rounds perr_round
rounds-keep_neighbor a zero j r h k = k
rounds-keep_neighbor a (suc n) j r h k =
    rounds-keep_neighbor a n (j + 1) (perr_round a j r) h
      (ground (arith, NotIn-get a r.neighbor_node j))

rounds-keep_uplink :
    (a : Addr) (n j : ℕ) (r : Row)
    → a ≢ 0
    → NotIn a r.uplink_path
    → NotIn a (perr_rounds a n j r).uplink_path
unfolding perr_rounds perr_round
rounds-keep_uplink a zero j r h k = k
rounds-keep_uplink a (suc n) j r h k =
    rounds-keep_uplink a n (j + 1) (perr_round a j r) h
      (ground (arith, NotIn-get a r.uplink_path j))

extend_below :
    (a : Addr) (l : List Addr) (j : ℕ)
    → ((i : ℕ) → i < j → get_or l i 0 ≢ a)
    → get_or l j 0 ≢ a
    → (i : ℕ) → i < j + 1
    → get_or l i 0 ≢ a
extend_below a l j low here i h = elim (ℕ_discrete i j) [
  | yes e ↦ rw e here
  | no e ↦ low i (omega arith)
]

get-lt : (a : Addr) (l : List Addr) (j : ℕ) → a ≢ 0 → get_or l j 0 ≡ a → j < length l
get-lt a [] j h e = absurd (h (omega arith))
get-lt a (b ∷ l) zero h e = omega arith
get-lt a (b ∷ l) (suc j) h e = omega (arith, get-lt a l j h e)

rounds_neighbor :
    (a : Addr) (n j : ℕ) (r : Row)
    → a ≢ 0
    → length r.neighbor_node ≤ j + n
    → Once a r.neighbor_node
    → ((i : ℕ) → i < j → get_or r.neighbor_node i 0 ≢ a)
    → NotIn a (perr_rounds a n j r).neighbor_node
unfolding perr_rounds perr_round
rounds_neighbor a zero j r h l o low = get-NotIn a r.neighbor_node (λ i p. low i (omega arith))
rounds_neighbor a (suc n) j r h l o low = elim (Bool-cases (get_or r.neighbor_node j 0 == a)) [
  | inl b ↦
      let e : get_or r.neighbor_node j 0 ≡ a = (==_iff _ a).0 b in
      rounds-keep_neighbor a n (j + 1) (perr_round a j r) h
        (rw b (close_gap-NotIn a r.neighbor_node j h o (get-lt a r.neighbor_node j h e) e))
  | inr b ↦
      rounds_neighbor a n (j + 1) (perr_round a j r) h (rw b (omega arith)) (rw b o)
        (rw b (extend_below a r.neighbor_node j low (ground arith)))
]

rounds_uplink :
    (a : Addr) (n j : ℕ) (r : Row)
    → a ≢ 0
    → length r.uplink_path ≤ j + n
    → ((i : ℕ) → i < j → get_or r.uplink_path i 0 ≢ a)
    → NotIn a (perr_rounds a n j r).uplink_path
unfolding perr_rounds perr_round
rounds_uplink a zero j r h l low = get-NotIn a r.uplink_path (λ i p. low i (omega arith))
rounds_uplink a (suc n) j r h l low = elim (Bool-cases (get_or r.uplink_path j 0 == a)) [
  | inl b ↦ rounds-keep_uplink a n (j + 1) (perr_round a j r) h (rw b (ground arith))
  | inr b ↦
      rounds_uplink a n (j + 1) (perr_round a j r) h (rw b (omega arith))
        (rw b (extend_below a r.uplink_path j low (ground arith)))
]

-- A row as the code keeps it: two arrays of eight, no neighbour listed twice.
pub record IsRow (a : Addr) (r : Row) : Type 0 where
  pub neighbors : length r.neighbor_node ≤ 8
  pub uplinks : length r.uplink_path ≤ 8
  pub once : Once a r.neighbor_node

Row-clear :
    (a : Addr) (r : Row)
    → a ≢ 0
    → IsRow a r
    → NotIn a (perr_rounds a 8 0 r).neighbor_node × NotIn a (perr_rounds a 8 0 r).uplink_path
Row-clear a r h v = (
  rounds_neighbor a 8 0 r h (omega arith) v.once (λ i p. absurd (omega arith)),
  rounds_uplink a 8 0 r h (omega arith) (λ i p. absurd (omega arith)),
)

Rows-clear :
    (a : Addr) (t : Table)
    → a ≢ 0
    → All (IsRow a) t
    → All (λ r. NotIn a r.neighbor_node × NotIn a r.uplink_path) (map (perr_rounds a 8 0) t)
Rows-clear a [] h v = tt
Rows-clear a (r ∷ t) h v = (Row-clear a r h v.0, Rows-clear a t h v.1)

-- After nms_table_perr_update no row has the failed node on its uplink path, nor among its
-- neighbours, provided that the address is not zero, and that rows have at most eight places in each
-- list and list the node at most once as a neighbour.
pub perr_update-NotIn :
    (t : Table) (timeout : Addr)
    → timeout ≢ 0
    → All (IsRow timeout) t
    → All (λ r. NotIn timeout r.neighbor_node × NotIn timeout r.uplink_path) (perr_update t timeout)
unfolding perr_update
perr_update-NotIn t a h v = elim (Option-cases (find t a)) [
  | inl e ↦ rw (e, perr_update) (Rows-clear a t h v)
  | inr (i, e) ↦
      rw (e, perr_update)
        (Rows-clear a _ h (
          All-modify (IsRow a) t i _
            (λ r w. record { neighbors = omega arith; uplinks = omega arith; once = ground arith })
            v))
]
