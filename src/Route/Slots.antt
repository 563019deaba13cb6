-- ===== src/Route/Slots.antt =====
-- The loop of rt_table_insert that looks for a free entry.
use ajou_etri_project.Base.{
  ℕ, zero, suc, ◌+◌, ◌≤◌, [], ◌∷◌, get_elem?, Bool-cases, if◌then◌else◌, ◌>>=◌, ◌<◌, ◌≡◌, ◌≢◌, ap,
  sym, ◌∙◌, none, some, arith, Option-cases, inl, inr, length,
}
use native.Mathlib.Decide.{ℕ_discrete}
use ajou_etri_project.Route.{Route, Table, entry, is_free, free_slot}

in_table :
    (t : Table) (i : ℕ) {r : Route} → get_elem? t i ≡ some r → (i < length t) × (entry t i ≡ r)
in_table [] i e = absurd (cc)
in_table (x ∷ t) zero e = (omega arith, ground arith)
in_table (x ∷ t) (suc i) e = let h = in_table t i e in (omega (arith, h.0), h.1)

past_table : (t : Table) (i : ℕ) → get_elem? t i ≡ none → length t ≤ i
past_table [] i e = omega arith
past_table (x ∷ t) zero e = absurd (cc)
past_table (x ∷ t) (suc i) e = let h = past_table t i e in omega (arith, h)

free_slot-step :
    (k i : ℕ) (t : Table) {r : Route}
    → get_elem? t i ≡ some r
    → free_slot (suc k) i t ≡ (if is_free r then some i else free_slot k (i + 1) t)
unfolding free_slot
free_slot-step k i t e = ap (λ o. o >>= λ r. if is_free r then some i else free_slot k (i + 1) t) e

free_slot-past : (k i : ℕ) (t : Table) → get_elem? t i ≡ none → free_slot (suc k) i t ≡ none
unfolding free_slot
free_slot-past k i t e = ap (λ o. o >>= λ r. if is_free r then some i else free_slot k (i + 1) t) e

-- The entry that the loop stops at is free, or the loop has run to its end.
pub free_slot-hit :
    (k i : ℕ) (t : Table) {j : ℕ}
    → free_slot k i t ≡ some j
    → j ≢ i + k
    → (j < length t) × ((entry t j).state ≡ 0)
unfolding free_slot
free_slot-hit zero i t e n = absurd (ground arith)
free_slot-hit (suc k) i t {j} e n = elim (Option-cases (get_elem? t i)) [
  | inl m ↦ let s = free_slot-past k i t m in absurd (cc)
  | inr (r, m) ↦
      let h = in_table t i m in
      let s = sym (free_slot-step k i t m) ∙ e in
      elim (Bool-cases (is_free r)) [
        | inl b ↦ let g = rw b at s in ground arith
        | inr b ↦ free_slot-hit k (i + 1) t (rw b at s) (λ q. n (omega arith))
      ]
]

-- Those before it are in the table and in use.
pub free_slot-passed :
    (k i : ℕ) (t : Table) {j : ℕ} (m : ℕ)
    → free_slot k i t ≡ some j
    → i ≤ m
    → m < j
    → (m < length t) × ((entry t m).state ≢ 0)
unfolding free_slot
free_slot-passed zero i t m e l u = absurd (ground arith)
free_slot-passed (suc k) i t {j} m e l u = elim (Option-cases (get_elem? t i)) [
  | inl n ↦ let s = free_slot-past k i t n in absurd (cc)
  | inr (r, n) ↦
      let h = in_table t i n in
      let s = sym (free_slot-step k i t n) ∙ e in
      elim (Bool-cases (is_free r)) [
        | inl b ↦ let g = rw b at s in absurd (ground arith)
        | inr b ↦ elim (ℕ_discrete i m) [
          | yes q ↦ ground arith
          | no q ↦ free_slot-passed k (i + 1) t m (rw b at s) (omega arith) u
        ]
      ]
]

-- Where it reads past the table, all from `i` on are in use.
pub free_slot-none :
    (k i : ℕ) (t : Table) (m : ℕ)
    → free_slot k i t ≡ none
    → i ≤ m
    → m < length t
    → (entry t m).state ≢ 0
unfolding free_slot
free_slot-none zero i t m e l u = absurd (cc)
free_slot-none (suc k) i t m e l u = elim (Option-cases (get_elem? t i)) [
  | inl n ↦ absurd (omega (arith, past_table t i n))
  | inr (r, n) ↦
      let h = in_table t i n in
      let s = sym (free_slot-step k i t n) ∙ e in
      elim (Bool-cases (is_free r)) [
        | inl b ↦ let g = rw b at s in absurd (cc)
        | inr b ↦ elim (ℕ_discrete i m) [
          | yes q ↦ ground arith
          | no q ↦ free_slot-none k (i + 1) t m (rw b at s) (omega arith) u
        ]
      ]
]
