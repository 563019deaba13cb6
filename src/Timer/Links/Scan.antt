-- ===== src/Timer/Links/Scan.antt =====
-- The first loop of Timer_timeout on lists in memory against `split_expired` on sequences.
use ajou_etri_project.Base.{
  ℕ, zero, suc, ◌+◌, ◌≤◌, ◌≡◌, refl, sym, subst, some, List, [], ◌∷◌, ◌++◌, false, ◌==◌, length,
  Bool-cases, ==_refl, inl, inr, arith, is_positive,
}
use ajou_etri_project.Timer.{Timeval, timeval_diff, split_expired}
use ajou_etri_project.Timer.Links.{Links, scan_links, expire_links}
use ajou_etri_project.Timer.Links.Sequences.{Chain, first, Chain-next}
use ajou_etri_project.Timer.Links.Moving.{Both, move-Both, nil_right, append_one}

-- The element behind the first.
abbrev second : List ℕ → ℕ → ℕ
second [] h = first [] h
second (x ∷ l) h = first l h

next-second :
    (s : Links) (h : ℕ) (l : List ℕ) → Chain s h l h → s.next (first l h) ≡ some (second l h)
next-second s h [] c = c.0
next-second s h (x ∷ l) c = Chain-next s x h [] l c.2

scan-Both :
    (at : ℕ → Timeval) (now : Timeval) (fuel h k : ℕ) (l e : List ℕ) (s : Links)
    → Both s h k l e
    → length l + 1 ≤ fuel
    → (t : Links) × (scan_links at now fuel h k (first l h) (second l h) s ≡ some t)
      × Both t h k (split_expired at now l).1 (e ++ (split_expired at now l).0)
unfolding scan_links
scan-Both at now zero h k l e s b n = absurd (omega arith)
scan-Both at now (suc fuel) h k [] e s b n =
    (s, rw (==_refl h) refl, subst (Both s h k []) (sym (nil_right e)) b)
scan-Both at now (suc fuel) h k (x ∷ l) e s b n =
    let w = b.one.headless in
    let f : (x == h) ≡ false = ground arith in
    elim (Bool-cases (is_positive (timeval_diff (at x) now))) [
      | inl p ↦ (s, rw f (rw p refl), rw p (subst (Both s h k (x ∷ l)) (sym (nil_right e)) b))
      | inr p ↦
          let (t, r, dt, ad, c) = move-Both s h k x l e b in
          let g = next-second r h l c.one.chain in
          let (q, z, y) = scan-Both at now fuel h k l (e ++ x ∷ []) r c (omega arith) in
          (
            q,
            rw f (rw p (rw dt (rw ad (rw g z)))),
            rw p (
                subst (Both q h k (split_expired at now l).1)
                  (append_one x e (split_expired at now l).0) y),
          )
    ]

-- Where the memory holds the timer queue around one head and other timers around another, and fuel for
-- the queue and its head is given, the first loop of Timer_timeout meets no NULL, and leaves in the queue
-- what `split_expired` leaves, and what it takes behind the other timers, in order.
pub expire_links-Both :
    (at : ℕ → Timeval) (now : Timeval) (fuel h k : ℕ) (l e : List ℕ) (s : Links)
    → Both s h k l e
    → length l + 1 ≤ fuel
    → (t : Links) × (expire_links at now fuel h k s ≡ some t)
      × Both t h k (split_expired at now l).1 (e ++ (split_expired at now l).0)
unfolding expire_links
expire_links-Both at now fuel h k l e s b n =
    let f = Chain-next s h h [] l b.one.chain in
    let g = next-second s h l b.one.chain in
    let (t, z, y) = scan-Both at now fuel h k l e s b n in (t, rw f (rw g z), y)
