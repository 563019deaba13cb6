-- ===== src/Timer/Order.antt =====
-- The order of the timer queue. `Timeval_diff` cuts to whole milliseconds, so the order that it
-- keeps is: no timer stands behind one that is due a millisecond or more later.
use ajou_etri_project.Base.{
  ℕ, ◌+◌, ◌≤◌, ◌<◌, ◌≡◌, refl, ap, ◌↔◌, ◌++◌, true, List, [], ◌∷◌, arith, All, ◌==◌, Bool-cases,
  inl, inr, is_negative, is_positive,
}
use ajou_etri_project.Timer.{Timeval, micros, timeval_diff, unlink, insert, split_expired}

-- The difference is negative exactly from a whole millisecond on.
pub timeval_diff-negative :
    (a b : Timeval) → (is_negative (timeval_diff a b) ≡ true) ↔ (micros a + 1000 ≤ micros b)
unfolding timeval_diff
timeval_diff-negative a b = ground arith

pub timeval_diff-positive :
    (a b : Timeval) → (is_positive (timeval_diff a b) ≡ true) ↔ (micros b + 1000 ≤ micros a)
unfolding timeval_diff
timeval_diff-positive a b = ground arith

module _ (due : ℕ → Timeval) where
  -- `i` may stand before `j`.
  abbrev pub Before : ℕ → ℕ → Type 0
  Before i j = micros (due i) < micros (due j) + 1000

  abbrev pub Ordered : List ℕ → Type 0
  Ordered [] = Unit
  Ordered (i ∷ l) = All (Before i) l × Ordered l

  pub All-insert {κ} :
      (P : ℕ → Type κ) (i : ℕ) (l : List ℕ) → P i → All P l → All P (insert due i l)
  unfolding insert
  All-insert P i [] p h = (p, tt)
  All-insert P i (j ∷ l) p h = elim (Bool-cases (is_negative (timeval_diff (due i) (due j)))) [
    | inl b ↦ rw b (p, h)
    | inr b ↦ rw b (h.0, All-insert P i l p h.1)
  ]

  Before-trans :
      (i j : ℕ) (l : List ℕ)
      → micros (due i) + 1000 ≤ micros (due j)
      → All (Before j) l
      → All (Before i) l
  Before-trans i j [] h a = tt
  Before-trans i j (k ∷ l) h a = (omega arith, Before-trans i j l h a.1)

  pub insert-Ordered : (i : ℕ) (l : List ℕ) → Ordered l → Ordered (insert due i l)
  unfolding insert
  insert-Ordered i [] o = (tt, tt)
  insert-Ordered i (j ∷ l) o = elim (Bool-cases (is_negative (timeval_diff (due i) (due j)))) [
    | inl b ↦ rw b (
        let h = (timeval_diff-negative (due i) (due j)).0 b in
        ((omega arith, Before-trans i j l h o.0), o))
    | inr b ↦ rw b (
      All-insert (Before j) i l (ground (arith, timeval_diff-negative (due i) (due j))) o.0,
      insert-Ordered i l o.1,
    )
  ]

pub All-unlink {κ} : (P : ℕ → Type κ) (i : ℕ) (l : List ℕ) → All P l → All P (unlink i l)
unfolding unlink
All-unlink P i [] h = tt
All-unlink P i (j ∷ l) h = elim (Bool-cases (i == j)) [
  | inl b ↦ rw b h.1
  | inr b ↦ rw b (h.0, All-unlink P i l h.1)
]

pub unlink-Ordered :
    (due : ℕ → Timeval) (i : ℕ) (l : List ℕ) → Ordered due l → Ordered due (unlink i l)
unfolding unlink
unlink-Ordered due i [] o = tt
unlink-Ordered due i (j ∷ l) o = elim (Bool-cases (i == j)) [
  | inl b ↦ rw b o.1
  | inr b ↦ rw b (All-unlink (Before due j) i l o.0, unlink-Ordered due i l o.1)
]

-- What the scan for expired timers takes and leaves.
pub record Splits (due : ℕ → Timeval) (now : Timeval) (l : List ℕ) (r : List ℕ × List ℕ)
    : Type 0 where
  pub whole : l ≡ r.0 ++ r.1
  pub taken : All (λ i. micros (due i) < micros now + 1000) r.0
  pub left : All (λ i. micros now < micros (due i)) r.1
  pub kept : Ordered due r.1

pub split_expired-Splits :
    (due : ℕ → Timeval) (now : Timeval) (l : List ℕ)
    → Ordered due l
    → Splits due now l (split_expired due now l)
split_expired-Splits due now [] o = record { whole = refl; taken = tt; left = tt; kept = tt }
split_expired-Splits due now (i ∷ l) o =
    elim (Bool-cases (is_positive (timeval_diff (due i) now))) [
      | inl b ↦ rw b (
          let h = (timeval_diff-positive (due i) now).0 b in
          record {
            whole = refl;
            taken = tt;
            left = (omega arith, later i l (omega arith) o.0);
            kept = o;
          })
      | inr b ↦ rw b (
          let ih = split_expired-Splits due now l o.1 in
          record {
            whole = ap (◌∷◌ i) ih.whole;
            taken = (ground (arith, timeval_diff-positive (due i) now), ih.taken);
            left = ih.left;
            kept = ih.kept;
          })
    ]
  where
    later :
        (i : ℕ) (l : List ℕ)
        → micros now + 1000 ≤ micros (due i)
        → All (Before due i) l
        → All (λ k. micros now < micros (due k)) l
    later i [] h a = tt
    later i (k ∷ l) h a = (omega arith, later i l h a.1)
