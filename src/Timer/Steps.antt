-- ===== src/Timer/Steps.antt =====
-- The timer operations as steps that may fault: what they ensure whatever the handlers are.
use ajou_etri_project.Base.{
  ℕ, zero, suc, ◌<◌, ◌≤◌, ◌≡◌, refl, subst, ap, ◌∙◌, sym, false, some, List, ◌∷◌, [], Option-cases,
  Bool-cases, inl, inr, modify, get_or, length, length-modify, get_or-modify_ne, Ensures, ends,
  faults, arith,
}
use mathlib.Core.Option.{some_inj}
use ajou_etri_project.Timer.{
  Timeval, Timer, Timers, timer_at, is_linked, due, timer_init, timer_set_timeout, timer_remove,
  zero_time,
}
use ajou_etri_project.Timer.Queue.{
  IsValid, timer_remove-IsValid, blank, Ordered-congr, length-unlink,
}
use ajou_etri_project.Timer.Schedule.{
  timer_set_timeout-IsValid, timer_set_timeout-eq, timer_set_timeout-none, length-rescheduled,
  expired-rescheduled,
}

module _ {H : Type 0} where
  -- A valid timer state with as many timers, and no more of them expired.
  pub record Stays (s r : Timers H) : Type 0 where
    pub valid : IsValid r
    pub size : length r.timers ≡ length s.timers
    pub expired : length r.exp_tq ≤ length s.exp_tq

  pub timer_set_timeout-Stays :
      (now : Timeval) {s : Timers H} (i msec : ℕ)
      → IsValid s
      → i < length s.timers
      → Ensures (Stays s) (timer_set_timeout now s i msec)
  timer_set_timeout-Stays now {s} i msec v h = elim (Option-cases (timer_at s i).handler) [
    | inl e ↦ rw (timer_set_timeout-none now s i msec e) faults
    | inr (f, e) ↦ rw (timer_set_timeout-eq now i msec v e) (
        ends (record {
          valid =
              let r = timer_set_timeout-IsValid now i msec v h e in
              subst IsValid (some_inj.0 (sym r.1 ∙ timer_set_timeout-eq now i msec v e)) r.2;
          size = length-rescheduled now s i msec;
          expired = expired-rescheduled now s i msec;
        }))
  ]

  abbrev renewed : H → Timer H
  renewed f = record { used = false; timeout = zero_time; handler = some f }

  used-renewed :
      (f : H) (xs : List (Timer H)) (i j : ℕ)
      → (get_or xs i blank).used ≡ false
      → (get_or (modify xs i (λ _. renewed f)) j blank).used ≡ (get_or xs j blank).used
  used-renewed f [] i j e = refl
  used-renewed f (x ∷ xs) zero zero e = sym e
  used-renewed f (x ∷ xs) zero (suc j) e = refl
  used-renewed f (x ∷ xs) (suc i) zero e = refl
  used-renewed f (x ∷ xs) (suc i) (suc j) e = used-renewed f xs i j e

  pub timer_init-Stays :
      {s : Timers H} (i : ℕ) (f : H) → IsValid s → Ensures (Stays s) (timer_init s i f)
  unfolding timer_init
  timer_init-Stays {s} i f v = elim (Bool-cases (is_linked s i)) [
    | inl b ↦ rw b faults
    | inr b ↦ rw b (
        ends (record {
          valid = record {
            ordered =
                Ordered-congr (due s) _ i s.tq
                  (λ j n.
                    ap (λ x. x.timeout) (sym (get_or-modify_ne s.timers {i = i} {j = j} _ blank n)))
                  (ground arith) v.ordered;
            distinct = v.distinct;
            distinct_exp = v.distinct_exp;
            apart = v.apart;
            flag = λ j. used-renewed f s.timers i j (v.flag i ∙ b) ∙ v.flag j;
          };
          size = length-modify s.timers i _;
          expired = omega arith;
        }))
  ]

  length-timer_remove : (s : Timers H) (i : ℕ) → length (timer_remove s i).timers ≡ length s.timers
  unfolding timer_remove
  length-timer_remove s i = elim (Bool-cases (is_linked s i)) [
    | inl b ↦ rw b (length-modify s.timers i (λ t. record t { used = false }))
    | inr b ↦ rw b (length-modify s.timers i (λ t. record t { used = false }))
  ]

  expired-timer_remove : (s : Timers H) (i : ℕ) → length (timer_remove s i).exp_tq ≤ length s.exp_tq
  unfolding timer_remove
  expired-timer_remove s i = elim (Bool-cases (is_linked s i)) [
    | inl b ↦ rw b (length-unlink i s.exp_tq)
    | inr b ↦ rw b (omega arith)
  ]

  pub timer_remove-Stays : {s : Timers H} (i : ℕ) → IsValid s → Stays s (timer_remove s i)
  timer_remove-Stays {s} i v = record {
    valid = (timer_remove-IsValid i v).0;
    size = length-timer_remove s i;
    expired = expired-timer_remove s i;
  }
