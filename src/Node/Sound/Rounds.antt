-- ===== src/Node/Sound/Rounds.antt =====
-- Timer_timeout of wsm/aodv.c as a whole: its loop ends, and keeps the invariant.
use ajou_etri_project.Base.{
  ℕ, zero, suc, ◌+◌, ◌≤◌, ◌≡◌, refl, ap, ◌∙◌, subst, sym, ◌>>=◌, some, List, [], ◌∷◌, length, inl,
  inr, ◌⊎◌, false, length-modify, Ensures, Ensures-bind, Ensures-bind_cong, Ensures-elim, ends,
  arith,
}
use ajou_etri_project.Timer
use ajou_etri_project.Timer.{expire, set_used}
use ajou_etri_project.Timer.Expiry.{expire-IsValid, release-IsValid}
use ajou_etri_project.Node.{Node, Env}
use ajou_etri_project.Node.Run.{run_first, run_expired, timer_timeout}
use ajou_etri_project.Node.Sound.{IsSound}
use ajou_etri_project.Node.Sound.Handling.{handle-IsSound}

List-cases : (l : List ℕ) → (l ≡ []) ⊎ ((i : ℕ) × (r : List ℕ) × (l ≡ i ∷ r))
List-cases [] = inl refl
List-cases (i ∷ l) = inr (i, l, refl)

nothing : (l : List ℕ) → length l ≤ 0 → l ≡ []
nothing [] h = refl
nothing (i ∷ l) h = absurd (omega arith)

-- A round leaves one timer less to handle.
run_first-IsSound :
    {owed : ℕ} (env : Env) (i : ℕ) (l : List ℕ) {n : Node}
    → IsSound (suc owed) n
    → n.timers.exp_tq ≡ i ∷ l
    → Ensures (IsSound owed) (run_first env i l n)
unfolding run_first
run_first-IsSound {owed} env i l {n} v e =
    let t = set_used (record (n.timers) { exp_tq = l }) i false in
    let m = record n { timers = t } in
    let w : IsSound owed m = record {
      routes = v.routes;
      waiting = v.waiting;
      rows = v.rows;
      queue = v.queue;
      clocks = release-IsValid i l v.clocks e;
      clock_count = length-modify n.timers.timers i _ ∙ v.clock_count;
      expired = omega (arith, subst (λ x. length x ≤ suc owed) e v.expired);
    } in
    Ensures-elim (Timer.timer_at t i).handler (ends w) (λ f. handle-IsSound env f w)

no_more :
    (env : Env) (extra : ℕ) (n : Node) → n.timers.exp_tq ≡ [] → run_expired env extra n ≡ some n
unfolding run_expired
no_more env zero n e = refl
no_more env (suc extra) n e = rw e

one_more :
    (env : Env) (fuel i : ℕ) (l : List ℕ) (n : Node)
    → n.timers.exp_tq ≡ i ∷ l
    → run_expired env (suc fuel) n ≡ (run_first env i l n >>= run_expired env fuel)
unfolding run_expired
one_more env fuel i l n e =
    ap (λ x. elim x [ [] ↦ some n | k ∷ r ↦ run_first env k r n >>= run_expired env fuel ]) e

-- With the rounds for the timers that wait, the loop handles them all.
run_expired-IsSound :
    (env : Env) (fuel : ℕ) {n : Node}
    → IsSound fuel n
    → Ensures (IsSound 0) (run_expired env fuel n)
unfolding run_expired
run_expired-IsSound env zero v = ends v
run_expired-IsSound env (suc fuel) {n} v = elim (List-cases n.timers.exp_tq) [
  | inl e ↦ subst (Ensures (IsSound 0)) (sym (no_more env (suc fuel) n e)) (
      ends (record {
        routes = v.routes;
        waiting = v.waiting;
        rows = v.rows;
        queue = v.queue;
        clocks = v.clocks;
        clock_count = v.clock_count;
        expired = subst (λ x. length x ≤ 0) (sym e) (omega arith);
      }))
  | inr (i, l, e) ↦
      subst (Ensures (IsSound 0)) (sym (one_more env fuel i l n e))
        (Ensures-bind (run_first-IsSound env i l v e) (λ m w. run_expired-IsSound env fuel w))
]

run_expired-more :
    (env : Env) (fuel extra : ℕ) {n : Node}
    → IsSound fuel n
    → run_expired env (fuel + extra) n ≡ run_expired env fuel n
unfolding run_expired
run_expired-more env zero extra {n} v =
    no_more env (0 + extra) n (nothing n.timers.exp_tq v.expired)
run_expired-more env (suc fuel) extra {n} v = elim (List-cases n.timers.exp_tq) [
  | inl e ↦ no_more env (suc fuel + extra) n e ∙ sym (no_more env (suc fuel) n e)
  | inr (i, l, e) ↦
      ap (λ k. run_expired env k n) {y = suc (fuel + extra)} (omega arith)
      ∙ one_more env (fuel + extra) i l n e
      ∙ Ensures-bind_cong (run_expired env (fuel + extra)) (run_expired env fuel)
          (run_first-IsSound env i l v e) (λ m w. run_expired-more env fuel extra w)
      ∙ sym (one_more env fuel i l n e)
]

-- Timer_timeout before it runs a handler.
abbrev scanned : Env → Node → Node
scanned env n = record n { timers = expire env.now n.timers }

scanned-IsSound :
    (env : Env) {n : Node}
    → IsSound 0 n
    → IsSound (length (scanned env n).timers.exp_tq) (scanned env n)
unfolding expire
scanned-IsSound env {n} v = record {
  routes = v.routes;
  waiting = v.waiting;
  rows = v.rows;
  queue = v.queue;
  clocks = expire-IsValid env.now v.clocks (nothing n.timers.exp_tq v.expired);
  clock_count = v.clock_count;
  expired = omega arith;
}

-- From a state as the invariant says in which no expired timer waits, `Timer_timeout` keeps the
-- invariant and leaves no expired timer that waits, whatever handlers run, unless one faults.
pub timer_timeout-IsSound :
    (env : Env) {n : Node} → IsSound 0 n → Ensures (IsSound 0) (timer_timeout env n)
unfolding timer_timeout
timer_timeout-IsSound env {n} v =
    run_expired-IsSound env (length (scanned env n).timers.exp_tq) (scanned-IsSound env v)

-- From such a state the second loop of `Timer_timeout` ends within as many rounds as timers have
-- expired: more rounds change nothing.
pub timer_timeout-ends :
    (env : Env) (extra : ℕ) {n : Node}
    → IsSound 0 n
    → let m = record n { timers = expire env.now n.timers } in
      run_expired env (length m.timers.exp_tq + extra) m ≡ timer_timeout env n
unfolding timer_timeout
timer_timeout-ends env extra {n} v =
    run_expired-more env (length (scanned env n).timers.exp_tq) extra (scanned-IsSound env v)
