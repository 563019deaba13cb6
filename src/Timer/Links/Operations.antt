-- ===== src/Timer/Links/Operations.antt =====
-- Timer_add and List_detach on lists in memory against `insert` and `unlink` on sequences.
use ajou_etri_project.Base.{
  ℕ, zero, suc, ◌+◌, ◌≤◌, ◌≡◌, ◌≢◌, refl, sym, ap, subst, Option, none, some, List, [], ◌∷◌, ◌++◌,
  true, false, ◌==◌, ◌>>=◌, length, Bool-cases, ==_refl, inl, inr, arith, is_negative,
}
use ajou_etri_project.Timer.{Timeval, timeval_diff, elem, unlink, insert}
use ajou_etri_project.Timer.Queue.{
  Distinct, insert-Distinct, elem-insert, unlink-Distinct, elem-unlink,
}
use ajou_etri_project.Timer.Links.{
  Links, put, listelm_add, list_add, list_detach, find_later, add_links, listelm_detach,
}
use ajou_etri_project.Timer.Links.Sequences.{
  Chain, last, first, put_self, Chain-next, Chain-prev, Inside, inside, Represents, add_between,
  detach_between, without,
}

-- The place that the loop finds is the place of `insert`.
record Found (due : ℕ → Timeval) (le : ℕ) (l : List ℕ) (h : ℕ) (o : Option ℕ) : Type 0 where
  u : List ℕ
  v : List ℕ
  parts : l ≡ u ++ v
  result : insert due le l ≡ u ++ le ∷ v
  place : o ≡ some (first v h)

find_later-Found :
    (due : ℕ → Timeval) (fuel h le a : ℕ) (l : List ℕ) (s : Links)
    → Chain s a l h
    → elem h l ≡ false
    → length l + 1 ≤ fuel
    → Found due le l h (find_later due fuel h le (first l h) s)
unfolding find_later insert
find_later-Found due zero h le a l s c e n = absurd (omega arith)
find_later-Found due (suc fuel) h le a [] s c e n = record {
  u = [];
  v = [];
  parts = refl;
  result = refl;
  place = rw (==_refl h);
}
find_later-Found due (suc fuel) h le a (x ∷ l) s c e n =
    let f : (x == h) ≡ false = ground arith in
    elim (Bool-cases (is_negative (timeval_diff (due le) (due x)))) [
      | inl b ↦ record { u = []; v = x ∷ l; parts = refl; result = rw b; place = rw f (rw b) }
      | inr b ↦
          let r = find_later-Found due fuel h le x l s c.2 (ground arith) (omega arith) in
          let g = Chain-next s x h [] l c.2 in
          record {
            u = x ∷ r.u;
            v = r.v;
            parts = ap (◌∷◌ x) r.parts;
            result = rw b (ap (◌∷◌ x) r.result);
            place = rw f (rw b (rw g r.place));
          }
    ]

list_add-between :
    (s : Links) (le h : ℕ) (u v : List ℕ)
    → Chain s h (u ++ v) h
    → list_add (last h u) le s ≡ some (listelm_add le (last h u) (first v h) s)
unfolding list_add
list_add-between s le h u v c =
    ap (λ o. o >>= λ n. some (listelm_add le (last h u) n s)) (Chain-next s h h u v c)

-- What Timer_add does: it puts the timer at the place of `insert`.
record Placed (due : ℕ → Timeval) (le h : ℕ) (l : List ℕ) (s : Links) (o : Option Links)
    : Type 0 where
  u : List ℕ
  v : List ℕ
  parts : l ≡ u ++ v
  result : insert due le l ≡ u ++ le ∷ v
  outcome : o ≡ some (listelm_add le (last h u) (first v h) s)

add_links-Placed :
    (due : ℕ → Timeval) (fuel h le : ℕ) (l : List ℕ) (s : Links)
    → Represents s h l
    → length l + 1 ≤ fuel
    → Placed due le h l s (add_links due fuel h le s)
unfolding add_links insert
add_links-Placed due fuel h le [] s rep n = record {
  u = [];
  v = [];
  parts = refl;
  result = refl;
  outcome = let c = rep.chain in rw c.0 (rw (==_refl h) (list_add-between s le h [] [] c));
}
add_links-Placed due fuel h le (x ∷ l) s rep n =
    let e = rep.headless in
    let f : (x == h) ≡ false = ground arith in
    let r = find_later-Found due fuel h le h (x ∷ l) s rep.chain e n in
    let c : Chain s h (r.u ++ r.v) h = subst (λ k. Chain s h k h) r.parts rep.chain in
    let p = Chain-prev s h h r.u r.v c in
    let g = rep.chain.0 in
    let q = r.place in
    record {
      u = r.u;
      v = r.v;
      parts = r.parts;
      result = r.result;
      outcome = rw g (rw f (rw q (rw p (list_add-between s le h r.u r.v c))));
    }

-- Where the memory holds a list of timers around its head, and fuel for it and its head is given,
-- Timer_add of a timer that is not in it meets no NULL, and leaves the list with the timer at the place
-- of `insert`.
pub add_links-Represents :
    (due : ℕ → Timeval) (fuel h le : ℕ) (l : List ℕ) (s : Links)
    → Represents s h l
    → le ≢ h
    → elem le l ≡ false
    → length l + 1 ≤ fuel
    → (t : Links) × (add_links due fuel h le s ≡ some t) × Represents t h (insert due le l)
add_links-Represents due fuel h le l s rep ne e n =
    let r = add_links-Placed due fuel h le l s rep n in
    let c : Chain s h (r.u ++ r.v) h = subst (λ k. Chain s h k h) r.parts rep.chain in
    let i : Inside h h (r.u ++ r.v) = subst (Inside h h) r.parts (inside rep) in
    let f : elem le (r.u ++ r.v) ≡ false = subst (λ k. elem le k ≡ false) r.parts e in
    let t = listelm_add le (last h r.u) (first r.v h) s in
    (
      t,
      r.outcome,
      record {
        chain =
            subst (λ k. Chain t h k h) (sym r.result) (add_between s le h h r.u r.v i ne ne f c);
        headless = ground (arith, elem-insert due h le l, rep.headless);
        distinct = insert-Distinct due le l e rep.distinct;
      },
    )

-- A list around one of its elements.
record Around (x : ℕ) (l : List ℕ) : Type 0 where
  u : List ℕ
  v : List ℕ
  parts : l ≡ u ++ x ∷ v
  result : unlink x l ≡ u ++ v

around : (x : ℕ) (l : List ℕ) → Distinct l → elem x l ≡ true → Around x l
unfolding unlink
around x [] d e = absurd (ground arith)
around x (y ∷ l) d e = elim (Bool-cases (x == y)) [
  | inl b ↦
      let p : y ≡ x = ground arith in
      record { u = []; v = l; parts = ap (λ k. k ∷ l) p; result = rw b }
  | inr b ↦
      let r = around x l d.1 (ground arith) in
      record {
        u = y ∷ r.u;
        v = r.v;
        parts = ap (◌∷◌ y) r.parts;
        result = rw b (ap (◌∷◌ y) r.result);
      }
]

next-around :
    (s : Links) (a x b : ℕ) (u v : List ℕ) → Chain s a (u ++ x ∷ v) b → s.next x ≡ some (first v b)
next-around s a x b [] [] c = c.2.0
next-around s a x b [] (y ∷ v) c = c.2.0
next-around s a x b (y ∷ u) v c = next-around s y x b u v c.2

-- Where the memory holds a list of timers around its head, List_detach of a timer in it meets no NULL,
-- and leaves the list without the timer, and the timer with both pointers NULL.
pub list_detach-Represents :
    (h x : ℕ) (l : List ℕ) (s : Links)
    → Represents s h l
    → elem x l ≡ true
    → (t : Links) × (list_detach x s ≡ some t)
      × Represents t h (unlink x l)
      × (t.next x ≡ none)
      × (t.prev x ≡ none)
unfolding list_detach listelm_detach
list_detach-Represents h x l s rep e =
    let r = around x l rep.distinct e in
    let c : Chain s h (r.u ++ x ∷ r.v) h = subst (λ k. Chain s h k h) r.parts rep.chain in
    let i : Inside h h (r.u ++ x ∷ r.v) = subst (Inside h h) r.parts (inside rep) in
    let w = elem-unlink x x l rep.distinct in
    let f : elem x (r.u ++ r.v) ≡ false = subst (λ k. elem x k ≡ false) r.result (ground arith) in
    let p = Chain-prev s h h r.u (x ∷ r.v) c in
    let n = next-around s h x h r.u r.v c in
    let he = rep.headless in
    let ne : x ≢ h = λ q. let g = subst (λ k. elem k l ≡ true) q e in ground arith in
    let t = without s x (last h r.u) (first r.v h) in
    (
      t,
      rw p (rw n refl),
      record {
        chain =
            subst (λ k. Chain t h k h) (sym r.result) (detach_between s x h h r.u r.v i ne ne f c);
        headless = ground (arith, elem-unlink h x l rep.distinct);
        distinct = unlink-Distinct x l rep.distinct;
      },
      put_self (put s.next (last h r.u) (some (first r.v h))) x none,
      put_self (put s.prev (first r.v h) (some (last h r.u))) x none,
    )
