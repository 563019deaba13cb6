-- ===== src/Timer/Schedule.antt =====
-- `Timer_set_timeout`: the timer is queued at its new time, whatever it was before.
use ajou_etri_project.Base.{
  ℕ, zero, suc, ◌+◌, ◌*◌, ◌<◌, ◌≤◌, ◌≡◌, refl, ap, ◌∙◌, sym, Bool, true, false, none, some, List,
  [], ◌∷◌, arith, Bool-cases, inl, inr, if◌then◌else◌, modify, get_or, length, length-modify,
  get_or-modify_self, get_or-modify_ne,
}
use ajou_etri_project.Timer.{
  Timeval, Timer, Timers, micros, timer_at, is_linked, timer_remove, due, link, timer_add, after_ms,
  timer_set_timeout,
}
use ajou_etri_project.Timer.Queue.{
  IsValid, blank, Ordered-congr, timer_remove-IsValid, link-IsValid, is_linked-link, due-link,
  length-unlink,
}

module _ {H : Type 0} where
  -- What `Timer_set_timeout` does to the list before it queues the timer.
  abbrev retimed : Timeval → Timers H → ℕ → Timers H
  retimed t s i = record s { timers = modify s.timers i (λ x. record x { timeout = t }) }

  used-retimed :
      (t : Timeval) (xs : List (Timer H)) (i j : ℕ)
      → (get_or (modify xs i (λ x. record x { timeout = t })) j blank).used
        ≡ (get_or xs j blank).used
  used-retimed t [] i j = refl
  used-retimed t (x ∷ xs) zero zero = refl
  used-retimed t (x ∷ xs) zero (suc j) = refl
  used-retimed t (x ∷ xs) (suc i) zero = refl
  used-retimed t (x ∷ xs) (suc i) (suc j) = used-retimed t xs i j

  retimed-IsValid :
      {s : Timers H} (t : Timeval) (i : ℕ)
      → IsValid s
      → is_linked s i ≡ false
      → IsValid (retimed t s i)
  retimed-IsValid {s} t i v e = record {
    ordered =
        Ordered-congr (due s) (due (retimed t s i)) i s.tq
          (λ j n. ap (λ x. x.timeout) (sym (get_or-modify_ne s.timers {i = i} {j = j} _ blank n)))
          (ground arith) v.ordered;
    distinct = v.distinct;
    distinct_exp = v.distinct_exp;
    apart = v.apart;
    flag = λ j. used-retimed t s.timers i j ∙ v.flag j;
  }

  abbrev freed : Timers H → ℕ → Timers H
  freed s i = if (timer_at s i).used then timer_remove s i else s

  freed-IsValid :
      {s : Timers H} (i : ℕ) → IsValid s → IsValid (freed s i) × (is_linked (freed s i) i ≡ false)
  freed-IsValid {s} i v = elim (Bool-cases (timer_at s i).used) [
    | inl b ↦ rw b (timer_remove-IsValid i v)
    | inr b ↦ rw b (v, sym (v.flag i) ∙ b)
  ]

  length-freed : (s : Timers H) (i : ℕ) → length (freed s i).timers ≡ length s.timers
  unfolding timer_remove
  length-freed s i = elim (Bool-cases (timer_at s i).used) [
    | inl b ↦ rw b (elim (Bool-cases (is_linked s i)) [
      | inl c ↦ rw c (length-modify s.timers i (λ t. record t { used = false }))
      | inr c ↦ rw c (length-modify s.timers i (λ t. record t { used = false }))
    ])
    | inr b ↦ rw b
  ]

  handler-set :
      (xs : List (Timer H)) (i j : ℕ) (b : Bool)
      → (get_or (modify xs i (λ t. record t { used = b })) j blank).handler
        ≡ (get_or xs j blank).handler
  handler-set [] i j b = refl
  handler-set (x ∷ xs) zero zero b = refl
  handler-set (x ∷ xs) zero (suc j) b = refl
  handler-set (x ∷ xs) (suc i) zero b = refl
  handler-set (x ∷ xs) (suc i) (suc j) b = handler-set xs i j b

  handler-freed : (s : Timers H) (i : ℕ) → (timer_at (freed s i) i).handler ≡ (timer_at s i).handler
  unfolding timer_remove
  handler-freed s i = elim (Bool-cases (timer_at s i).used) [
    | inl b ↦ rw b (elim (Bool-cases (is_linked s i)) [
      | inl c ↦ rw c (handler-set s.timers i i false)
      | inr c ↦ rw c (handler-set s.timers i i false)
    ])
    | inr b ↦ rw b
  ]

  abbrev pub rescheduled : Timeval → Timers H → ℕ → ℕ → Timers H
  rescheduled now s i msec = link (retimed (after_ms now msec) (freed s i) i) i

  timer_add-none : (t : Timers H) (i : ℕ) → (timer_at t i).handler ≡ none → timer_add t i ≡ none
  unfolding timer_add
  timer_add-none t i e = rw (e, timer_add)

  timer_add-link :
      (t : Timers H) (i : ℕ) {f : H}
      → (timer_at t i).handler ≡ some f
      → (timer_at t i).used ≡ false
      → timer_add t i ≡ some (link t i)
  unfolding timer_add
  timer_add-link t i e u = rw (e, timer_add) (rw u)

  handler-retimed :
      (t : Timeval) (xs : List (Timer H)) (i j : ℕ)
      → (get_or (modify xs i (λ x. record x { timeout = t })) j blank).handler
        ≡ (get_or xs j blank).handler
  handler-retimed t [] i j = refl
  handler-retimed t (x ∷ xs) zero zero = refl
  handler-retimed t (x ∷ xs) zero (suc j) = refl
  handler-retimed t (x ∷ xs) (suc i) zero = refl
  handler-retimed t (x ∷ xs) (suc i) (suc j) = handler-retimed t xs i j

  pub timer_set_timeout-eq :
      (now : Timeval) {s : Timers H} (i msec : ℕ) {f : H}
      → IsValid s
      → (timer_at s i).handler ≡ some f
      → timer_set_timeout now s i msec ≡ some (rescheduled now s i msec)
  unfolding timer_set_timeout
  timer_set_timeout-eq now {s} i msec v e =
      let w = freed-IsValid i v in
      let t = after_ms now msec in
      timer_add-link (retimed t (freed s i) i) i
        (handler-retimed t (freed s i).timers i i ∙ handler-freed s i ∙ e)
        (used-retimed t (freed s i).timers i i ∙ (w.0).flag i ∙ w.1)

  pub timer_set_timeout-none :
      (now : Timeval) (s : Timers H) (i msec : ℕ)
      → (timer_at s i).handler ≡ none
      → timer_set_timeout now s i msec ≡ none
  unfolding timer_set_timeout
  timer_set_timeout-none now s i msec e =
      timer_add-none (retimed (after_ms now msec) (freed s i) i) i
        (handler-retimed (after_ms now msec) (freed s i).timers i i ∙ handler-freed s i ∙ e)

  expired-freed : (s : Timers H) (i : ℕ) → length (freed s i).exp_tq ≤ length s.exp_tq
  unfolding timer_remove
  expired-freed s i = elim (Bool-cases (timer_at s i).used) [
    | inl b ↦ rw b (elim (Bool-cases (is_linked s i)) [
      | inl c ↦ rw c (length-unlink i s.exp_tq)
      | inr c ↦ rw c (omega arith)
    ])
    | inr b ↦ rw b (omega arith)
  ]

  -- No timer is added to the expired ones.
  pub expired-rescheduled :
      (now : Timeval) (s : Timers H) (i msec : ℕ)
      → length (rescheduled now s i msec).exp_tq ≤ length s.exp_tq
  unfolding link
  expired-rescheduled now s i msec = expired-freed s i

  pub length-rescheduled :
      (now : Timeval) (s : Timers H) (i msec : ℕ)
      → length (rescheduled now s i msec).timers ≡ length s.timers
  unfolding link
  length-rescheduled now s i msec =
      length-modify (retimed (after_ms now msec) (freed s i) i).timers i
        (λ t. record t { used = true })
      ∙ length-modify (freed s i).timers i (λ x. record x { timeout = after_ms now msec })
      ∙ length-freed s i

  -- In a valid timer queue, for a timer with a handler, `Timer_set_timeout` does not exit: it keeps
  -- the invariant, and leaves the timer linked and due `msec` milliseconds from now.
  pub timer_set_timeout-IsValid :
      (now : Timeval) {s : Timers H} (i msec : ℕ) {f : H}
      → IsValid s
      → i < length s.timers
      → (timer_at s i).handler ≡ some f
      → (r : Timers H) × (timer_set_timeout now s i msec ≡ some r)
        × IsValid r
        × (is_linked r i ≡ true)
        × (micros (due r i) ≡ micros now + msec * 1000)
  timer_set_timeout-IsValid now {s} i msec v h e =
      let w = freed-IsValid i v in
      let t = after_ms now msec in
      let l : i < length (retimed t (freed s i) i).timers = omega (
        arith,
        length-modify (freed s i).timers i (λ (x : Timer H). record x { timeout = t }),
        length-freed s i,
      ) in
      (
        rescheduled now s i msec,
        timer_set_timeout-eq now i msec v e,
        link-IsValid i l (retimed-IsValid t i w.0 w.1) w.1,
        is_linked-link (retimed t (freed s i) i) i,
        due-link (retimed t (freed s i) i) i
            ∙ ap (λ (x : Timer H). micros x.timeout)
                (get_or-modify_self (freed s i).timers i (λ x. record x { timeout = t }) blank
                  (omega (arith, length-freed s i)))
            ∙ omega arith,
      )
