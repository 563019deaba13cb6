-- ===== src/Timer/Links/Moving.antt =====
-- A timer that List_detach and List_add_tail move from one list in memory to another.
use ajou_etri_project.Base.{
  ℕ, ◌≡◌, ◌≢◌, refl, sym, ap, subst, none, some, List, [], ◌∷◌, ◌++◌, false, ◌&&◌, ◌==◌, Bool-cases,
  inl, inr, arith,
}
use ajou_etri_project.Timer.{elem}
use ajou_etri_project.Timer.Queue.{Distinct}
use ajou_etri_project.Timer.Expiry.{elem-++}
use ajou_etri_project.Timer.Links.{
  Links, put, listelm_add, listelm_detach, list_detach, list_add_tail,
}
use ajou_etri_project.Timer.Links.Sequences.{
  Chain, last, first, Chain-next, Chain-prev, Inside, inside, Represents, frame-next, frame-prev,
  add_between, detach_between, without,
}

-- Changes elsewhere keep a chain.
add-frame :
    (s : Links) (le p n a b : ℕ) (l : List ℕ)
    → a ≢ p
    → elem p l ≡ false
    → a ≢ le
    → b ≢ le
    → elem le l ≡ false
    → b ≢ n
    → elem n l ≡ false
    → Chain s a l b
    → Chain (listelm_add le p n s) a l b
unfolding listelm_add
add-frame s le p n a b l ap' el al bl ll bn nl c =
    let s1 : Links = record s { next = put s.next p (some le) } in
    let s2 : Links = record s1 { next = put s1.next le (some n) } in
    let s3 : Links = record s2 { prev = put s2.prev le (some p) } in
    let c1 = frame-next s p (some le) a b l ap' el c in
    let c2 = frame-next s1 le (some n) a b l al ll c1 in
    frame-prev s3 n (some le) a b l bn nl (frame-prev s2 le (some p) a b l bl ll c2)

without-frame :
    (s : Links) (le p n a b : ℕ) (l : List ℕ)
    → a ≢ p
    → elem p l ≡ false
    → a ≢ le
    → b ≢ le
    → elem le l ≡ false
    → b ≢ n
    → elem n l ≡ false
    → Chain s a l b
    → Chain (without s le p n) a l b
without-frame s le p n a b l ap' el al bl ll bn nl c =
    let s1 : Links = record s { next = put s.next p (some n) } in
    let s2 : Links = record s1 { next = put s1.next le none } in
    let s3 : Links = record s2 { prev = put s2.prev n (some p) } in
    let c1 = frame-next s p (some n) a b l ap' el c in
    let c2 = frame-next s1 le none a b l al ll c1 in
    frame-prev s3 le none a b l bl ll (frame-prev s2 n (some p) a b l bn nl c2)

first-other : (l : List ℕ) (h k : ℕ) → k ≢ h → elem k l ≡ false → k ≢ first l h
first-other [] h k n e = n
first-other (x ∷ l) h k n e = λ p. ground arith

first-outside :
    (l e : List ℕ) (h : ℕ)
    → elem h e ≡ false
    → ((i : ℕ) → (elem i l && elem i e) ≡ false)
    → elem (first l h) e ≡ false
first-outside [] e h f a = f
first-outside (x ∷ l) e h f a = ground (arith, a x)

last-other : (e : List ℕ) (k h : ℕ) → h ≢ k → elem h e ≡ false → h ≢ last k e
last-other [] k h n f = n
last-other (x ∷ e) k h n f = last-other e x h (λ p. ground arith) (ground arith)

last-outside :
    (e l : List ℕ) (k : ℕ)
    → elem k l ≡ false
    → ((i : ℕ) → (elem i l && elem i e) ≡ false)
    → elem (last k e) l ≡ false
last-outside [] l k f a = f
last-outside (x ∷ e) l k f a = last-outside e l x (ground (arith, a x)) (λ i. ground (arith, a i))

-- Two lists in one memory.
pub record Both (s : Links) (h k : ℕ) (l e : List ℕ) : Type 0 where
  pub one : Represents s h l
  pub two : Represents s k e
  pub heads : h ≢ k
  pub headless_one : elem k l ≡ false
  pub headless_two : elem h e ≡ false
  pub apart : (i : ℕ) → (elem i l && elem i e) ≡ false

taken :
    (s : Links) (h x : ℕ) (l : List ℕ)
    → Represents s h (x ∷ l)
    → (list_detach x s ≡ some (without s x h (first l h)))
      × Represents (without s x h (first l h)) h l
unfolding list_detach listelm_detach
taken s h x l r =
    let c = r.chain in
    let e = r.headless in
    let d = r.distinct in
    let p = c.1 in
    let n = Chain-next s x h [] l c.2 in
    (
      rw p (rw n refl),
      record {
        chain =
            detach_between s x h h [] l (inside r) (λ q. ground arith) (λ q. ground arith) d.0 c;
        headless = ground arith;
        distinct = d.1;
      },
    )

left :
    (s : Links) (h k x : ℕ) (l e : List ℕ)
    → Both s h k (x ∷ l) e
    → Represents (without s x h (first l h)) k e
left s h k x l e b =
    let n : k ≢ first l h =
      first-other l h k (λ q. b.heads (sym q)) (ground (arith, b.headless_one)) in
    let m : elem (first l h) e ≡ false =
      first-outside l e h b.headless_two (λ i. ground (arith, b.apart i)) in
    let o = b.headless_one in
    let a = b.apart x in
    let r = b.two in
    record {
      chain =
          without-frame s x h (first l h) k k e (λ q. b.heads (sym q)) b.headless_two
            (λ q. ground arith) (λ q. ground arith) (ground arith) n m r.chain;
      headless = r.headless;
      distinct = r.distinct;
    }

pub nil_right : (l : List ℕ) → l ++ [] ≡ l
nil_right [] = refl
nil_right (x ∷ l) = ap (◌∷◌ x) (nil_right l)

pub append_one : (x : ℕ) (l m : List ℕ) → (l ++ x ∷ []) ++ m ≡ l ++ x ∷ m
append_one x [] m = refl
append_one x (y ∷ l) m = ap (◌∷◌ y) (append_one x l m)

append-Distinct : (x : ℕ) (l : List ℕ) → elem x l ≡ false → Distinct l → Distinct (l ++ x ∷ [])
append-Distinct x [] e d = (refl, tt)
append-Distinct x (y ∷ l) e d =
    (ground (arith, elem-++ y l (x ∷ []), d.0), append-Distinct x l (ground arith) d.1)

appended :
    (s : Links) (k x : ℕ) (e : List ℕ)
    → Represents s k e
    → x ≢ k
    → elem x e ≡ false
    → (list_add_tail k x s ≡ some (listelm_add x (last k e) k s))
      × Represents (listelm_add x (last k e) k s) k (e ++ x ∷ [])
unfolding list_add_tail
appended s k x e r ne f =
    let q = sym (nil_right e) in
    let c : Chain s k (e ++ []) k = subst (λ m. Chain s k m k) q r.chain in
    let i : Inside k k (e ++ []) = subst (Inside k k) q (inside r) in
    let g : elem x (e ++ []) ≡ false = subst (λ m. elem x m ≡ false) q f in
    let p = Chain-prev s k k e [] c in
    let he = r.headless in
    (
      rw p refl,
      record {
        chain = add_between s x k k e [] i ne ne g c;
        headless = ground (arith, elem-++ k e (x ∷ []));
        distinct = append-Distinct x e f r.distinct;
      },
    )

apart-append :
    (i x : ℕ) (l e : List ℕ)
    → elem x l ≡ false
    → (elem i l && elem i e) ≡ false
    → (elem i l && elem i (e ++ x ∷ [])) ≡ false
apart-append i x l e f a = elim (Bool-cases (i == x)) [
  | inl b ↦
      let p : x ≡ i = ground arith in let g = subst (λ k. elem k l ≡ false) p f in ground arith
  | inr b ↦ ground (arith, elem-++ i e (x ∷ []))
]

-- The first element of one list is moved to the end of the other.
pub move-Both :
    (s : Links) (h k x : ℕ) (l e : List ℕ)
    → Both s h k (x ∷ l) e
    → (t r : Links) × (list_detach x s ≡ some t)
      × (list_add_tail k x t ≡ some r)
      × Both r h k l (e ++ x ∷ [])
unfolding list_detach list_add_tail listelm_detach
move-Both s h k x l e b =
    let t = without s x h (first l h) in
    let r = listelm_add x (last k e) k t in
    let o = b.headless_one in
    let w = b.one.headless in
    let d = b.one.distinct in
    let u = taken s h x l b.one in
    let v = appended t k x e (left s h k x l e b) (λ q. ground arith) (ground (arith, b.apart x)) in
    let c = u.1.chain in
    let a : (i : ℕ) → (elem i l && elem i e) ≡ false = λ i. ground (arith, b.apart i) in
    (
      t,
      r,
      u.0,
      v.0,
      record {
        one = record {
          chain =
              add-frame t x (last k e) k h h l (last-other e k h b.heads b.headless_two)
                (last-outside e l k (ground arith) a) (λ q. ground arith) (λ q. ground arith) d.0
                b.heads (ground arith) c;
          headless = ground arith;
          distinct = d.1;
        };
        two = v.1;
        heads = b.heads;
        headless_one = ground arith;
        headless_two = ground (arith, elem-++ h e (x ∷ []), b.headless_two);
        apart = λ i. apart-append i x l e d.0 (a i);
      },
    )
