-- ===== src/Timer.antt =====
-- The timer queue of wsm/aodv.c: Timeval_diff, Timer_remove, Timer_add, Timer_set_timeout,
-- Timer_init and the first loop of Timer_timeout. A `struct timer *` is an index into `timers`. The
-- circular lists `TQ` and `expTQ` are the lists of the timers linked in them, from the head's `next`
-- on: `List_unattached` says that a timer is in neither, `List_detach` takes it out of the one that
-- holds it. `exit(-1)` and a write through a stale link are `none`. `H` stands for a handler with
-- its argument. Seconds and microseconds do not overflow.
pub mod Order
pub mod Queue
pub mod Schedule
pub mod Steps
pub mod Expiry
pub mod Links
use ajou_etri_project.Base.{
  ℕ, suc, ◌+◌, ◌-◌, ◌*◌, ◌/◌, ◌%◌, Bool, true, false, ◌||◌, Option, none, some, List, [], ◌∷◌, ◌++◌,
  ◌==◌, leb, if◌then◌else◌, ℤ, pos, negsuc, is_negative, is_positive, get_or, modify, length, ltb,
}

pub record Timeval : Type 0 where
  pub tv_sec : ℕ
  pub tv_usec : ℕ

-- -n
abbrev neg : ℕ → ℤ
neg n = if n == 0 then pos 0 else negsuc (n - 1)

-- C division by 1000, towards zero.
abbrev div_1000 : ℤ → ℤ
div_1000 (pos n) = pos (n / 1000)
div_1000 (negsuc n) = neg (suc n / 1000)

-- a - b
abbrev sub_ℕ : ℕ → ℕ → ℤ
sub_ℕ a b = if leb b a then pos (a - b) else negsuc (b - a - 1)

abbrev pub micros : Timeval → ℕ
micros t = t.tv_sec * 1000000 + t.tv_usec

unfoldable pub timeval_diff : Timeval → Timeval → ℤ
timeval_diff t1 t2 = div_1000 (sub_ℕ (micros t1) (micros t2))

pub record Timer (H : Type 0) : Type 0 where
  pub used : Bool
  pub timeout : Timeval
  pub handler : Option H

pub record Timers (H : Type 0) : Type 0 where
  pub timers : List (Timer H)
  pub tq : List ℕ
  pub exp_tq : List ℕ

abbrev pub zero_time : Timeval
zero_time = record { tv_sec = 0; tv_usec = 0 }

abbrev pub elem : ℕ → List ℕ → Bool
elem i [] = false
elem i (j ∷ l) = i == j || elem i l

unfoldable pub unlink : ℕ → List ℕ → List ℕ
unlink i [] = []
unlink i (j ∷ l) = if i == j then l else j ∷ unlink i l

-- Before the first timer that is due at least a millisecond later, or at the end.
unfoldable pub insert : (ℕ → Timeval) → ℕ → List ℕ → List ℕ
insert due i [] = i ∷ []
insert due i (j ∷ l) =
    if is_negative (timeval_diff (due i) (due j)) then i ∷ j ∷ l else j ∷ insert due i l

abbrev pub after_ms : Timeval → ℕ → Timeval
after_ms now msec = record {
  tv_sec = now.tv_sec + (now.tv_usec + msec * 1000) / 1000000;
  tv_usec = (now.tv_usec + msec * 1000) % 1000000;
}

-- The first loop of Timer_timeout, over the timers still queued.
abbrev pub split_expired : (ℕ → Timeval) → Timeval → List ℕ → List ℕ × List ℕ
split_expired at now [] = ([], [])
split_expired at now (i ∷ l) =
    let (expired, rest) = split_expired at now l in
    if is_positive (timeval_diff (at i) now) then ([], i ∷ l) else (i ∷ expired, rest)

module _ {H : Type 0} where
  abbrev pub timer_at : Timers H → ℕ → Timer H
  timer_at s i = get_or s.timers i (record { used = false; timeout = zero_time; handler = none })

  abbrev pub is_linked : Timers H → ℕ → Bool
  is_linked s i = elem i s.tq || elem i s.exp_tq

  abbrev pub set_used : Timers H → ℕ → Bool → Timers H
  set_used s i b = record s { timers = modify s.timers i (λ t. record t { used = b }) }

  -- The state after the call; its result is whether the timer was linked.
  unfoldable pub timer_remove : Timers H → ℕ → Timers H
  timer_remove s i =
      set_used
        (if is_linked s i then record s { tq = unlink i s.tq; exp_tq = unlink i s.exp_tq } else s) i
        false

  abbrev pub due : Timers H → ℕ → Timeval
  due s i = (timer_at s i).timeout

  pub link : Timers H → ℕ → Timers H
  link s i = record (set_used s i true) { tq = insert (due s) i s.tq }

  unfoldable pub timer_add : Timers H → ℕ → Option (Timers H)
  timer_add s i = elim (timer_at s i).handler [
    | none ↦ none
    | some h ↦ some (link (if (timer_at s i).used then timer_remove s i else s) i)
  ]

  unfoldable pub timer_set_timeout : Timeval → Timers H → ℕ → ℕ → Option (Timers H)
  timer_set_timeout now s i msec =
      let r = if (timer_at s i).used then timer_remove s i else s in
      timer_add
        (record r { timers = modify r.timers i (λ t. record t { timeout = after_ms now msec }) }) i

  -- `none` where a linked timer would lose its links and stay in the list.
  unfoldable pub timer_init : Timers H → ℕ → H → Option (Timers H)
  timer_init s i f =
      if is_linked s i
      then none
      else some (record s {
        timers =
            modify s.timers i (λ t. record { used = false; timeout = zero_time; handler = some f });
      })

  unfoldable pub expire : Timeval → Timers H → Timers H
  expire now s =
      let (expired, rest) = split_expired (due s) now s.tq in
      record s { tq = rest; exp_tq = s.exp_tq ++ expired }
