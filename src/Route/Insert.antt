-- ===== src/Route/Insert.antt =====
-- Inserting into the routing table.
use ajou_etri_project.Base.{
  ℕ, Option, Bool-cases, Ensures, faults, ends, refl, ◌==◌, if◌then◌else◌, ◌>>=◌, ◌<◌, ◌≡◌, ◌↔◌,
  ◌≢◌, ap, sym, ◌∙◌, subst, Bool, true, false, none, some, arith, Option-cases, inl, inr,
  find_index-hit, find_index-miss, find_index-some, length, modify, length-modify,
  get_or-modify_self, get_or-modify_ne,
}
use native.Mathlib.Decide.{ℕ_discrete}
use ajou_etri_project.Msg.{Addr}
use ajou_etri_project.Timer.{Timeval}
use ajou_etri_project.Route.{
  Table, NewRoute, blank, entry, fill, free_slot, insert, find, is_route_to,
}
use ajou_etri_project.Route.Slots.{free_slot-hit, free_slot-passed, free_slot-none}

-- The slot `r.0` is the first free one, filled in the table `r.1`; every other entry is as it was.
pub record Inserted (now : Timeval) (t : Table) (a : NewRoute) (r : ℕ × Table) : Type 0 where
  pub in_table : r.0 < length t
  pub was_free : (entry t r.0).state ≡ 0
  pub first : (j : ℕ) → j < r.0 → (entry t j).state ≢ 0
  pub written : entry r.1 r.0 ≡ fill now a (entry t r.0)
  pub others : (j : ℕ) → r.0 ≢ j → entry r.1 j ≡ entry t j
  pub size : length r.1 ≡ length t

-- A successful insertion takes the first free slot, writes the new entry there and changes no other
-- entry.
pub insert-Inserted :
    (now : Timeval) (t : Table) (a : NewRoute) {i : ℕ} {u : Table}
    → insert now t a ≡ some (some i, u)
    → Inserted now t a (i, u)
unfolding insert
insert-Inserted now t a {i} {u} e = elim (Option-cases (free_slot 11 0 t)) [
  | inl n ↦ absurd (ground arith)
  | inr (j, s) ↦ elim (Bool-cases (j == 11)) [
    | inl b ↦ absurd (ground arith)
    | inr b ↦
        let h = free_slot-hit 11 0 t s (λ q. ground arith) in
        let same : (j, modify t j (fill now a)) ≡ (i, u) = ground arith in
        subst (Inserted now t a) same (record {
          in_table = h.0;
          was_free = h.1;
          first = λ (m : ℕ) (l : m < j). (free_slot-passed 11 0 t m s (omega arith) l).1;
          written = get_or-modify_self t j (fill now a) blank h.0;
          others = λ m n. get_or-modify_ne t (fill now a) blank n;
          size = length-modify t j (fill now a);
        })
  ]
]

-- In a table of ten, an insertion reads past the table exactly when every entry is in use; it never
-- answers that the table is full.
pub insert-none :
    (now : Timeval) (t : Table) (a : NewRoute)
    → length t ≡ 10
    → ((insert now t a ≡ none) ↔ ((j : ℕ) → j < length t → (entry t j).state ≢ 0))
      × Ensures (λ r. (i : ℕ) × (r.0 ≡ some i)) (insert now t a)
unfolding insert
insert-none now t a l = (
  (
    λ e j u. elim (Option-cases (free_slot 11 0 t)) [
      | inl n ↦ free_slot-none 11 0 t j n (omega arith) u
      | inr (k, s) ↦ absurd (ground arith)
    ],
    λ h. elim (Option-cases (free_slot 11 0 t)) [
      | inl n ↦ rw n refl
      | inr (k, s) ↦
          let f = free_slot-hit 11 0 t s (λ q. ends_early l s (ground arith)) in
          absurd (h k f.0 f.1)
    ],
  ),
  elim (Option-cases (free_slot 11 0 t)) [
    | inl n ↦ rw n faults
    | inr (k, s) ↦ elim (Bool-cases (k == 11)) [
      | inl b ↦ absurd (ends_early l s (ground arith))
      | inr b ↦ rw s (rw b (ends (k, refl)))
    ]
  ],
)
  where
    ends_early : length t ≡ 10 → {k : ℕ} → free_slot 11 0 t ≡ some k → k ≡ 11 → ⊥
    ends_early l s e =
        let p = free_slot-passed 11 0 t 10 s (omega arith) (omega arith) in omega arith

-- The table keeps its length, and the index is in it.
pub insert-size :
    (now : Timeval) (t : Table) (a : NewRoute) {r : Option ℕ × Table}
    → insert now t a ≡ some r
    → (length r.1 ≡ length t) × ((i : ℕ) → r.0 ≡ some i → i < length t)
unfolding insert
insert-size now t a {r} e = cases r.0 r.1 e
  where
    kept :
        (o : Option ℕ) {u : Table}
        → ◌>>=◌ {B = Option ℕ × Table} o
            (λ i. some (if i == 11 then (none, t) else (some i, modify t i (fill now a))))
          ≡ some (none, u)
        → length u ≡ length t
    kept none k = absurd (cc)
    kept (some j) k = elim (Bool-cases (j == 11)) [
      | inl b ↦ ground arith
      | inr b ↦ absurd (ground arith)
    ]

    cases :
        (o : Option ℕ) (u : Table)
        → insert now t a ≡ some (o, u)
        → (length u ≡ length t) × ((i : ℕ) → o ≡ some i → i < length t)
    cases none u k = (kept (free_slot 11 0 t) k, λ i h. absurd (cc))
    cases (some i) u k =
        let v = insert-Inserted now t a k in (v.size, λ j h. ground (arith, v.in_table))

-- For a destination without a route, rt_table_find returns the slot that a successful rt_table_insert
-- filled.
pub find-insert :
    (now : Timeval) (t : Table) (a : NewRoute) (source : Addr) {i : ℕ} {u : Table}
    → find t a.dest 0 source ≡ none
    → insert now t a ≡ some (some i, u)
    → find u a.dest 0 source ≡ some i
unfolding find
find-insert now t a source {i} {u} miss e =
    let v = insert-Inserted now t a e in
    let p = is_route_to a.dest in
    let there : p (entry u i) ≡ true = rw (v.written) (ground arith) in
    let k = find_index-some p u blank i (omega (arith, v.in_table, v.size)) there in
    elim (ℕ_discrete i k.0) [
      | yes q ↦ k.1 ∙ ap some (sym q)
      | no q ↦
          let h = find_index-hit p u blank k.1 in
          let old : p (entry t k.0) ≡ true = ap p (sym (v.others k.0 q)) ∙ h.1 in
          absurd (clash old (find_index-miss p t blank k.0 miss (omega (arith, h.0, v.size))))
    ]
  where
    clash : {b : Bool} → b ≡ true → b ≡ false → ⊥
    clash x y = cc
