-- ===== src/Report/Rounds.antt =====
-- What NMS_TCP_send_func sends over many rows.
use ajou_etri_project.Base.{
  ℕ, zero, suc, ◌+◌, ◌%◌, ◌≡◌, ◌<◌, ◌≤◌, refl, sym, subst, ap, ◌∙◌, Option, none, some, List, [],
  ◌∷◌, ◌++◌, ◌>>=◌, ℤ, pos, get_elem?, length, arith, All,
}
use ajou_etri_project.Nms.{Row, Table}
use ajou_etri_project.Node.{Node}
use ajou_etri_project.Report.{
  Sent, first_bytes, Reporter, Sending, delivered, accepted, no_listen, no_accept, begin_round,
  next_row, send_row, report_step,
}

-- One row after the other.
unfoldable pub report_rows : List Sending → Node × Reporter → Option (Node × Reporter)
report_rows [] s = some s
report_rows (a ∷ l) s = report_step a s >>= report_rows l

abbrev pub IsUp : Sending → Type 0
IsUp delivered = Unit
IsUp (accepted fd) = Unit
IsUp no_listen = ⊥
IsUp no_accept = ⊥

-- The rows that are to arrive, from the `k`-th send on: the row at the remainder of `k` by 8, to the
-- socket that was accepted last, and none where the send fails.
abbrev pub to_arrive : Table → (client : ℤ) → (k : ℕ) → List Sending → List (ℤ × Sent)
to_arrive t client k [] = []
to_arrive t client k (delivered ∷ l) = elim (get_elem? t (k % 8)) [
  | none ↦ []
  | some x ↦ (client, first_bytes x) ∷ to_arrive t client (k + 1) l
]
to_arrive t client k (accepted fd ∷ l) = to_arrive t (pos fd) (k + 1) l
to_arrive t client k (no_listen ∷ l) = []
to_arrive t client k (no_accept ∷ l) = []

pub get_elem-some : (t : Table) (i : ℕ) → i < length t → (x : Row) × (get_elem? t i ≡ some x)
get_elem-some [] i h = absurd (omega arith)
get_elem-some (x ∷ t) zero h = (x, refl)
get_elem-some (x ∷ t) (suc i) h = get_elem-some t i (omega arith)

next_row-% : (i k : ℕ) → i ≡ k % 8 → next_row i ≡ (k + 1) % 8
next_row-% i k e = ground arith

begin_round-table : (n : Node) (r : Reporter) → (begin_round (n, r)).0.nms_t ≡ n.nms_t
unfolding begin_round
begin_round-table n r = ground arith

begin_round-same :
    (n : Node) (r : Reporter)
    → ((begin_round (n, r)).1.row ≡ r.row)
      × ((begin_round (n, r)).1.client ≡ r.client)
      × ((begin_round (n, r)).1.sent ≡ r.sent)
unfolding begin_round
begin_round-same n r = ground arith

arrives :
    (t u : Table) (c d : ℤ) (k : ℕ) (l : List Sending)
    → t ≡ u
    → c ≡ d
    → to_arrive t c k l ≡ to_arrive u d k l
arrives t u c d k l p q = ap (λ v. to_arrive v c k l) p ∙ ap (λ v. to_arrive u v k l) q

arrival :
    (t : Table) (c : ℤ) (k : ℕ) (l : List Sending) (x : Row)
    → get_elem? t (k % 8) ≡ some x
    → to_arrive t c k (delivered ∷ l) ≡ (c, first_bytes x) ∷ to_arrive t c (k + 1) l
arrival t c k l x g =
    ap
      (λ (o : Option Row). elim o as (λ _. List (ℤ × Sent)) [
        | none ↦ []
        | some y ↦ (c, first_bytes y) ∷ to_arrive t c (k + 1) l
      ])
      g

append_one : {A : Type 0} (x : A) (l m : List A) → (l ++ x ∷ []) ++ m ≡ l ++ x ∷ m
append_one x [] m = refl
append_one x (y ∷ l) m = ap (◌∷◌ y) (append_one x l m)

nil_right : {A : Type 0} (l : List A) → l ≡ l ++ []
nil_right [] = refl
nil_right (x ∷ l) = ap (◌∷◌ x) (nil_right l)

-- Where a lost connection is always accepted again, what arrives of the table, which has at least eight
-- rows, is rows 0 to 7 again and again, each to the connection that was accepted last; a row whose sending
-- fails is not sent again.
pub report_rows-sent :
    (l : List Sending) (n : Node) (r : Reporter) (k : ℕ)
    → All IsUp l
    → 8 ≤ length n.nms_t
    → r.row ≡ k % 8
    → (m : Node) × (q : Reporter) × (report_rows l (n, r) ≡ some (m, q))
      × (q.sent ≡ r.sent ++ to_arrive n.nms_t r.client k l)
      × (m.nms_t ≡ n.nms_t)
unfolding report_rows report_step send_row
report_rows-sent [] n r k u h e = (n, r, refl, nil_right r.sent, refl)
report_rows-sent (delivered ∷ l) n r k u h e =
    let b = begin_round (n, r) in
    let s = begin_round-same n r in
    let t = begin_round-table n r in
    let (x, g) = get_elem-some n.nms_t (k % 8) (omega arith) in
    let q0 : Reporter = record (b.1) {
      row = next_row b.1.row;
      sent = b.1.sent ++ (b.1.client, first_bytes x) ∷ [];
    } in
    let g' : get_elem? b.0.nms_t b.1.row ≡ some x =
      ap (get_elem? b.0.nms_t) (s.0 ∙ e) ∙ ap (λ v. get_elem? v (k % 8)) t ∙ g in
    let (m, q, run, sent, tab) =
      report_rows-sent l b.0 q0 (k + 1) u.1 (subst (λ v. 8 ≤ length v) (sym t) h)
        (next_row-% _ k (s.0 ∙ e)) in
    let w = arrives b.0.nms_t n.nms_t b.1.client r.client (k + 1) l t s.1 in
    let f = first_bytes x in
    (
      m,
      q,
      rw g' run,
      sent
          ∙ append_one (b.1.client, f) b.1.sent _
          ∙ ap (λ v. b.1.sent ++ (b.1.client, f) ∷ v) w
          ∙ ap (λ v. v ++ (b.1.client, f) ∷ to_arrive n.nms_t r.client (k + 1) l) s.2
          ∙ ap (λ c. r.sent ++ (c, f) ∷ to_arrive n.nms_t r.client (k + 1) l) s.1
          ∙ ap (λ v. r.sent ++ v) (sym (arrival n.nms_t r.client k l x g)),
      tab ∙ t,
    )
report_rows-sent (accepted fd ∷ l) n r k u h e =
    let b = begin_round (n, r) in
    let s = begin_round-same n r in
    let t = begin_round-table n r in
    let q0 : Reporter = record (b.1) { client = pos fd; row = next_row b.1.row } in
    let (m, q, run, sent, tab) =
      report_rows-sent l (record (b.0) { nms_connection = 1 }) q0 (k + 1) u.1
        (subst (λ v. 8 ≤ length v) (sym t) h) (next_row-% _ k (s.0 ∙ e)) in
    (
      m,
      q,
      run,
      sent
          ∙ ap (λ v. b.1.sent ++ v) (arrives b.0.nms_t n.nms_t (pos fd) (pos fd) (k + 1) l t refl)
          ∙ ap (λ v. v ++ to_arrive n.nms_t (pos fd) (k + 1) l) s.2,
      tab ∙ t,
    )
report_rows-sent (no_listen ∷ l) n r k u h e = absurd u.0
report_rows-sent (no_accept ∷ l) n r k u h e = absurd u.0
