-- ===== src/Timer/Queue.antt =====
-- The invariant of the timer queue: it is ordered, no timer is linked twice, in one list or in both,
-- and the flag `used` of a timer says whether it is linked.
use mathlib.Core.Path.{fun_ext}
use ajou_etri_project.Base.{
  ℕ, zero, suc, ◌<◌, ◌≤◌, ◌≡◌, refl, ap, sym, subst, ◌≢◌, Bool, true, false, not, ◌&&◌, ◌||◌, none,
  List, [], ◌∷◌, arith, All, ◌==◌, Bool-cases, inl, inr, ◌⊎◌, if◌then◌else◌, modify, get_or, length,
}
use ajou_etri_project.Timer.{
  Timeval, Timer, Timers, micros, zero_time, elem, unlink, insert, timer_at, is_linked, set_used,
  timer_remove, due, link,
}
use ajou_etri_project.Timer.Order.{Before, Ordered, insert-Ordered, unlink-Ordered}

abbrev pub Distinct : List ℕ → Type 0
Distinct [] = Unit
Distinct (i ∷ l) = (elem i l ≡ false) × Distinct l

pub elem-unlink :
    (k i : ℕ) (l : List ℕ) → Distinct l → elem k (unlink i l) ≡ (elem k l && not (k == i))
unfolding unlink
elem-unlink k i [] d = refl
elem-unlink k i (j ∷ l) d = elim (Bool-cases (i == j)) [
  | inl b ↦ ground (arith)
  | inr b ↦ let ih = elem-unlink k i l d.1 in ground arith
]

pub length-unlink : (i : ℕ) (l : List ℕ) → length (unlink i l) ≤ length l
unfolding unlink
length-unlink i [] = omega arith
length-unlink i (j ∷ l) = ground (arith, length-unlink i l)

pub unlink-Distinct : (i : ℕ) (l : List ℕ) → Distinct l → Distinct (unlink i l)
unfolding unlink
unlink-Distinct i [] d = tt
unlink-Distinct i (j ∷ l) d = ground (arith, unlink-Distinct i l d.1, elem-unlink j i l d.1)

pub elem-insert :
    (at : ℕ → Timeval) (k i : ℕ) (l : List ℕ) → elem k (insert at i l) ≡ (k == i || elem k l)
unfolding insert
elem-insert at k i [] = refl
elem-insert at k i (j ∷ l) = ground (arith, elem-insert at k i l)

pub insert-Distinct :
    (at : ℕ → Timeval) (i : ℕ) (l : List ℕ)
    → elem i l ≡ false
    → Distinct l
    → Distinct (insert at i l)
unfolding insert
insert-Distinct at i [] h d = (refl, tt)
insert-Distinct at i (j ∷ l) h d = ground (arith, insert-Distinct at i l, elem-insert at j i l)

-- The order looks only at the timers in the list.
pub Ordered-congr :
    (f g : ℕ → Timeval) (i : ℕ) (l : List ℕ)
    → ((j : ℕ) → i ≢ j → f j ≡ g j)
    → elem i l ≡ false
    → Ordered f l
    → Ordered g l
Ordered-congr f g i [] e h o = tt
Ordered-congr f g i (j ∷ l) e h o =
    (each l (ground arith) o.0, Ordered-congr f g i l e (ground arith) o.1)
  where
    each : (l : List ℕ) → elem i l ≡ false → All (Before f j) l → All (Before g j) l
    each [] h' a = tt
    each (k ∷ l) h' a =
        (rw (← e j (λ p. ground arith), ← e k (λ p. ground arith)) a.0, each l (ground arith) a.1)

module _ {H : Type 0} where
  pub record IsValid (s : Timers H) : Type 0 where
    pub ordered : Ordered (due s) s.tq
    pub distinct : Distinct s.tq
    pub distinct_exp : Distinct s.exp_tq
    pub apart : (i : ℕ) → (elem i s.tq && elem i s.exp_tq) ≡ false
    pub flag : (i : ℕ) → (timer_at s i).used ≡ is_linked s i

  abbrev pub blank : Timer H
  blank = record { used = false; timeout = zero_time; handler = none }

  timeout-set :
      (xs : List (Timer H)) (i j : ℕ) (b : Bool)
      → (get_or (modify xs i (λ t. record t { used = b })) j blank).timeout
        ≡ (get_or xs j blank).timeout
  timeout-set [] i j b = refl
  timeout-set (x ∷ xs) zero zero b = refl
  timeout-set (x ∷ xs) zero (suc j) b = refl
  timeout-set (x ∷ xs) (suc i) zero b = refl
  timeout-set (x ∷ xs) (suc i) (suc j) b = timeout-set xs i j b

  pub used-set :
      (xs : List (Timer H)) (i j : ℕ) (b : Bool)
      → b ≡ false ⊎ i < length xs
      → (get_or (modify xs i (λ t. record t { used = b })) j blank).used
        ≡ (if j == i then b else (get_or xs j blank).used)
  used-set [] i j b h = ground arith
  used-set (x ∷ xs) zero zero b h = refl
  used-set (x ∷ xs) zero (suc j) b h = ground arith
  used-set (x ∷ xs) (suc i) zero b h = ground arith
  used-set (x ∷ xs) (suc i) (suc j) b h = ground (arith, used-set xs i j b)

  due-set_used : (s : Timers H) (i : ℕ) (b : Bool) → due (set_used s i b) ≡ due s
  due-set_used s i b = fun_ext λ j. timeout-set s.timers i j b

  pub Ordered-set_used :
      (s : Timers H) (i : ℕ) (b : Bool) (l : List ℕ)
      → Ordered (due s) l
      → Ordered (due (set_used s i b)) l
  Ordered-set_used s i b l o = subst (λ f. Ordered f l) (sym (due-set_used s i b)) o

  -- Removing a timer keeps the invariant, and leaves the timer unlinked.
  pub timer_remove-IsValid :
      {s : Timers H} (i : ℕ)
      → IsValid s
      → IsValid (timer_remove s i) × (is_linked (timer_remove s i) i ≡ false)
  unfolding timer_remove
  timer_remove-IsValid {s} i v = elim (Bool-cases (is_linked s i)) [
    | inl b ↦ rw b (
      record {
        ordered = Ordered-set_used s i false _ (unlink-Ordered (due s) i s.tq v.ordered);
        distinct = unlink-Distinct i s.tq v.distinct;
        distinct_exp = unlink-Distinct i s.exp_tq v.distinct_exp;
        apart = λ j. ground (
          arith,
          v.apart j,
          elem-unlink j i s.tq v.distinct,
          elem-unlink j i s.exp_tq v.distinct_exp,
        );
        flag = λ j. ground (
          arith,
          used-set s.timers i j false,
          v.flag j,
          elem-unlink j i s.tq v.distinct,
          elem-unlink j i s.exp_tq v.distinct_exp,
        );
      },
      ground (arith, elem-unlink i i s.tq v.distinct, elem-unlink i i s.exp_tq v.distinct_exp),
    )
    | inr b ↦ rw b (
      record {
        ordered = Ordered-set_used s i false s.tq v.ordered;
        distinct = v.distinct;
        distinct_exp = v.distinct_exp;
        apart = v.apart;
        flag = λ j. ground (arith, used-set s.timers i j false, v.flag j);
      },
      b,
    )
  ]

  pub link-IsValid :
      {s : Timers H} (i : ℕ)
      → i < length s.timers
      → IsValid s
      → is_linked s i ≡ false
      → IsValid (link s i)
  unfolding link
  link-IsValid {s} i h v e = record {
    ordered = Ordered-set_used s i true _ (insert-Ordered (due s) i s.tq v.ordered);
    distinct = insert-Distinct (due s) i s.tq (ground arith) v.distinct;
    distinct_exp = v.distinct_exp;
    apart = λ j. ground (arith, v.apart j, elem-insert (due s) j i s.tq);
    flag = λ j. ground (arith, used-set s.timers i j true, elem-insert (due s) j i s.tq, v.flag j);
  }

  pub is_linked-link : (s : Timers H) (i : ℕ) → is_linked (link s i) i ≡ true
  unfolding link
  is_linked-link s i = ground (arith, elem-insert (due s) i i s.tq)

  pub due-link : (s : Timers H) (i : ℕ) → micros (due (link s i) i) ≡ micros (due s i)
  unfolding link
  due-link s i = ap micros (timeout-set s.timers i i true)
