-- ===== src/Timer/Links.antt =====
-- The circular lists of timers of wsm/aodv.c as they lie in memory: `list_t`, Listelm_detach,
-- Listelm_add, List_add, List_add_tail, List_detach, the loop of Timer_add and the first one of
-- Timer_timeout. An element is a number; a pointer that is `none` is NULL.
pub mod Moving
pub mod Operations
pub mod Scan
pub mod Sequences
use ajou_etri_project.Base.{
  ℕ, zero, suc, Option, none, some, Bool, ◌==◌, if◌then◌else◌, ◌>>=◌, is_negative, is_positive,
}
use ajou_etri_project.Timer.{Timeval, timeval_diff}

abbrev pub Pointers : Type 0
Pointers = ℕ → Option ℕ

-- Every `next` and every `prev`.
pub record Links : Type 0 where
  pub next : Pointers
  pub prev : Pointers

abbrev pub put : Pointers → ℕ → Option ℕ → Pointers
put f i v j = if j == i then v else f j

unfoldable pub listelm_detach : (prev next : ℕ) → Links → Links
listelm_detach p n s = record { next = put s.next p (some n); prev = put s.prev n (some p) }

unfoldable pub listelm_add : (le prev next : ℕ) → Links → Links
listelm_add le p n s = record {
  next = put (put s.next p (some le)) le (some n);
  prev = put (put s.prev le (some p)) n (some le);
}

-- `none` is an access through NULL, here and below.
unfoldable pub list_add_tail : (head le : ℕ) → Links → Option Links
list_add_tail head le s = s.prev head >>= λ p. some (listelm_add le p head s)

unfoldable pub list_add : (head le : ℕ) → Links → Option Links
list_add head le s = s.next head >>= λ n. some (listelm_add le head n s)

unfoldable pub list_detach : ℕ → Links → Option Links
list_detach le s = do
  p ← s.prev le
  n ← s.next le
  let t = listelm_detach p n s
  some (record { next = put t.next le none; prev = put t.prev le none })

-- The loop of Timer_add over the list from `pos` on: the first timer that is due at least a millisecond
-- later, or the head. It runs as often as the fuel says.
unfoldable pub find_later : (ℕ → Timeval) → (fuel head le pos : ℕ) → Links → Option ℕ
find_later due zero head le pos s = none
find_later due (suc fuel) head le pos s =
    let rest = s.next pos >>= λ n. find_later due fuel head le n s in
    if pos == head
    then some head
    else if is_negative (timeval_diff (due le) (due pos))
    then some pos
    else rest

-- Timer_add, where the timer is in no list.
unfoldable pub add_links : (ℕ → Timeval) → (fuel head le : ℕ) → Links → Option Links
add_links due fuel head le s = do
  first ← s.next head
  if first == head
      then list_add head le s
      else (find_later due fuel head le first s >>= λ pos. s.prev pos >>= λ p. list_add p le s)

-- The first loop of Timer_timeout from `pos` on, with `tmp` behind it. It runs as often as the fuel says.
unfoldable pub scan_links :
    (ℕ → Timeval) → Timeval → (fuel tq exp_tq pos tmp : ℕ) → Links → Option Links
scan_links at now zero tq exp_tq pos tmp s = none
scan_links at now (suc fuel) tq exp_tq pos tmp s =
    let go = list_detach pos s >>= λ t. list_add_tail exp_tq pos t >>= λ r.
    r.next tmp >>= λ n. scan_links at now fuel tq exp_tq tmp n r in
    if pos == tq then some s else if is_positive (timeval_diff (at pos) now) then some s else go

unfoldable pub expire_links : (ℕ → Timeval) → Timeval → (fuel tq exp_tq : ℕ) → Links → Option Links
expire_links at now fuel tq exp_tq s = do
  pos ← s.next tq
  tmp ← s.next pos
  scan_links at now fuel tq exp_tq pos tmp s
