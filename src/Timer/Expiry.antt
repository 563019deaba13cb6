-- ===== src/Timer/Expiry.antt =====
-- What `Timer_timeout` takes off the queue before it runs the handlers, and off the expired list
-- before it runs each.
use ajou_etri_project.Base.{
  ℕ, ◌+◌, ◌<◌, ◌≡◌, refl, ap, ◌∙◌, subst, false, ◌&&◌, ◌||◌, List, [], ◌∷◌, ◌++◌, All, inl, arith,
}
use ajou_etri_project.Timer.{
  Timeval, Timers, micros, due, expire, elem, set_used, split_expired, timer_at,
}
use ajou_etri_project.Timer.Order.{Ordered, split_expired-Splits}
use ajou_etri_project.Timer.Queue.{IsValid, Distinct, Ordered-set_used, used-set}

pub elem-++ : (k : ℕ) (l m : List ℕ) → elem k (l ++ m) ≡ (elem k l || elem k m)
elem-++ k [] m = refl
elem-++ k (j ∷ l) m = ground (arith, elem-++ k l m)

-- The parts of a list without doubles.
record Apart (l m : List ℕ) : Type 0 where
  first : Distinct l
  second : Distinct m
  apart : (k : ℕ) → (elem k m && elem k l) ≡ false

Distinct-++ : (l m : List ℕ) → Distinct (l ++ m) → Apart l m
Distinct-++ [] m d = record { first = tt; second = d; apart = λ k. ground arith }
Distinct-++ (j ∷ l) m d =
    let ih = Distinct-++ l m d.1 in
    let e : elem j l ≡ false = ground (arith, elem-++ j l m, d.0) in
    let e' : elem j m ≡ false = ground (arith, elem-++ j l m, d.0) in
    record { first = (e, ih.first); second = ih.second; apart = λ k. ground (arith, ih.apart k) }

module _ {H : Type 0} where
  -- From a valid queue with no expired list pending, the scan splits the queue in two, in order: the
  -- timers taken are due less than a millisecond after `now`, every timer left is due after `now`,
  -- and what is left is still ordered.
  pub expire-splits :
      (now : Timeval) {s : Timers H}
      → IsValid s
      → s.exp_tq ≡ []
      → let r = expire now s in
        (s.tq ≡ r.exp_tq ++ r.tq)
        × All (λ i. micros (due s i) < micros now + 1000) r.exp_tq
        × All (λ i. micros now < micros (due s i)) r.tq
        × Ordered (due r) r.tq
  unfolding expire
  expire-splits now {s} v e =
      let p = split_expired-Splits (due s) now s.tq v.ordered in
      rw e (p.whole, p.taken, p.left, p.kept)

  pub expire-IsValid :
      (now : Timeval) {s : Timers H} → IsValid s → s.exp_tq ≡ [] → IsValid (expire now s)
  unfolding expire
  expire-IsValid now {s} v e =
      let p = split_expired-Splits (due s) now s.tq v.ordered in
      let t = (split_expired (due s) now s.tq).0 in
      let r = (split_expired (due s) now s.tq).1 in
      let d : Apart t r = Distinct-++ t r (subst Distinct p.whole v.distinct) in
      rw e (record {
        ordered = p.kept;
        distinct = d.second;
        distinct_exp = d.first;
        apart = d.apart;
        flag = λ j. v.flag j ∙ rw e (ground (arith, ap (elem j) p.whole ∙ elem-++ j t r));
      })

  -- The first expired timer is taken off.
  pub release-IsValid :
      {s : Timers H} (i : ℕ) (l : List ℕ)
      → IsValid s
      → s.exp_tq ≡ i ∷ l
      → IsValid (set_used (record s { exp_tq = l }) i false)
  release-IsValid {s} i l v e =
      let d : Distinct (i ∷ l) = subst Distinct e v.distinct_exp in
      let a : ((k : ℕ) → (elem k s.tq && elem k (i ∷ l)) ≡ false) =
        λ k. subst (λ x. (elem k s.tq && elem k x) ≡ false) e (v.apart k) in
      record {
        ordered = Ordered-set_used s i false s.tq v.ordered;
        distinct = v.distinct;
        distinct_exp = d.1;
        apart = λ k. ground (arith, a k);
        flag = λ j. ground (
          arith,
          a i,
          d.0,
          used-set s.timers i j false (inl refl),
          subst (λ x. (timer_at s j).used ≡ (elem j s.tq || elem j x)) e (v.flag j),
        );
      }
