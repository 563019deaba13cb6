-- ===== src/Timer/Links/Sequences.antt =====
-- The lists in memory against the sequences of `Timer`.
use ajou_etri_project.Base.{
  ℕ, ◌≡◌, ◌≢◌, sym, ◌∙◌, Option, none, some, List, [], ◌∷◌, ◌++◌, false, ◌==◌, ==_refl, arith,
}
use ajou_etri_project.Timer.{elem}
use ajou_etri_project.Timer.Queue.{Distinct}
use ajou_etri_project.Timer.Expiry.{elem-++}
use ajou_etri_project.Timer.Links.{Links, Pointers, put, listelm_add}

-- From `a` through `l` to `b`, and back.
abbrev pub Chain : Links → ℕ → List ℕ → ℕ → Type 0
Chain s a [] b = (s.next a ≡ some b) × (s.prev b ≡ some a)
Chain s a (x ∷ l) b = (s.next a ≡ some x) × (s.prev x ≡ some a) × Chain s x l b

-- The last before a place, and the first from it on.
abbrev pub last : ℕ → List ℕ → ℕ
last a [] = a
last a (x ∷ u) = last x u

abbrev pub first : List ℕ → ℕ → ℕ
first [] b = b
first (x ∷ v) b = x

put_ne : (f : Pointers) (i j : ℕ) (v : Option ℕ) → j ≢ i → put f i v j ≡ f j
put_ne f i j v h = let e : (j == i) ≡ false = ground arith in rw e

pub put_self : (f : Pointers) (i : ℕ) (v : Option ℕ) → put f i v i ≡ v
put_self f i v = rw (==_refl i)

pub frame-next :
    (s : Links) (i : ℕ) (v : Option ℕ) (a b : ℕ) (l : List ℕ)
    → a ≢ i
    → elem i l ≡ false
    → Chain s a l b
    → Chain (record s { next = put s.next i v }) a l b
frame-next s i v a b [] h e c = (put_ne s.next i a v h ∙ c.0, c.1)
frame-next s i v a b (x ∷ l) h e c = (
  put_ne s.next i a v h ∙ c.0,
  c.1,
  frame-next s i v x b l (λ p. ground arith) (ground arith) c.2,
)

pub frame-prev :
    (s : Links) (i : ℕ) (v : Option ℕ) (a b : ℕ) (l : List ℕ)
    → b ≢ i
    → elem i l ≡ false
    → Chain s a l b
    → Chain (record s { prev = put s.prev i v }) a l b
frame-prev s i v a b [] h e c = (c.0, put_ne s.prev i b v h ∙ c.1)
frame-prev s i v a b (x ∷ l) h e c = (
  c.0,
  put_ne s.prev i x v (λ p. ground arith) ∙ c.1,
  frame-prev s i v x b l h (ground arith) c.2,
)

pub Chain-next :
    (s : Links) (a b : ℕ) (u v : List ℕ)
    → Chain s a (u ++ v) b
    → s.next (last a u) ≡ some (first v b)
Chain-next s a b [] [] c = c.0
Chain-next s a b [] (y ∷ v) c = c.0
Chain-next s a b (x ∷ u) v c = Chain-next s x b u v c.2

pub Chain-prev :
    (s : Links) (a b : ℕ) (u v : List ℕ)
    → Chain s a (u ++ v) b
    → s.prev (first v b) ≡ some (last a u)
Chain-prev s a b [] [] c = c.1
Chain-prev s a b [] (y ∷ v) c = c.1
Chain-prev s a b (x ∷ u) v c = Chain-prev s x b u v c.2

last-ne : (a x : ℕ) (u v : List ℕ) → a ≢ x → elem a (u ++ v) ≡ false → a ≢ last x u
last-ne a x [] v h e = h
last-ne a x (y ∷ u) v h e = last-ne a y u v (λ p. ground arith) (ground arith)

first-ne : (x b : ℕ) (u v : List ℕ) → x ≢ b → elem x (u ++ v) ≡ false → x ≢ first v b
first-ne x b [] [] h e = h
first-ne x b [] (y ∷ v) h e = λ p. ground arith
first-ne x b (y ∷ u) v h e = first-ne x b u v h (ground arith)

-- A list without the ends, and without doubles.
pub record Inside (a b : ℕ) (l : List ℕ) : Type 0 where
  start : elem a l ≡ false
  end : elem b l ≡ false
  distinct : Distinct l

-- An element that is put between two neighbours.
pub add_between :
    (s : Links) (le a b : ℕ) (u v : List ℕ)
    → Inside a b (u ++ v)
    → le ≢ a
    → le ≢ b
    → elem le (u ++ v) ≡ false
    → Chain s a (u ++ v) b
    → Chain (listelm_add le (last a u) (first v b) s) a (u ++ le ∷ v) b
unfolding listelm_add
add_between s le a b [] [] i ha hb f c = (
  put_ne (put s.next a (some le)) le a (some b) (λ p. ha (sym p)) ∙ put_self s.next a (some le),
  put_ne (put s.prev le (some a)) b le (some le) hb ∙ put_self s.prev le (some a),
  (put_self (put s.next a (some le)) le (some b), put_self (put s.prev le (some a)) b (some le)),
)
add_between s le a b [] (y ∷ v) i ha hb f c =
    let s1 : Links = record s { next = put s.next a (some le) } in
    let s2 : Links = record s1 { next = put s1.next le (some y) } in
    let s3 : Links = record s2 { prev = put s2.prev le (some a) } in
    let e = i.start in
    let g = i.end in
    let d = i.distinct in
    let c1 = frame-next s a (some le) y b v (λ p. ground arith) (ground arith) c.2 in
    let c2 = frame-next s1 le (some y) y b v (λ p. ground arith) (ground arith) c1 in
    let c3 = frame-prev s2 le (some a) y b v (λ p. hb (sym p)) (ground arith) c2 in
    (
      put_ne (put s.next a (some le)) le a (some y) (λ p. ha (sym p)) ∙ put_self s.next a (some le),
      put_ne (put s.prev le (some a)) y le (some le) (λ p. ground arith)
          ∙ put_self s.prev le (some a),
      (
        put_self (put s.next a (some le)) le (some y),
        put_self (put s.prev le (some a)) y (some le),
        frame-prev s3 y (some le) y b v (λ p. ground arith) d.0 c3,
      ),
    )
add_between s le a b (x ∷ u) v i ha hb f c =
    let p = last x u in
    let n = first v b in
    let e = i.start in
    let g = i.end in
    let d = i.distinct in
    let ap' : a ≢ p = last-ne a x u v (λ q. ground arith) (ground arith) in
    let xn : x ≢ n = first-ne x b u v (λ q. ground arith) d.0 in
    let j : Inside x b (u ++ v) = record { start = d.0; end = ground arith; distinct = d.1 } in
    (
      put_ne (put s.next p (some le)) le a (some n) (λ q. ha (sym q))
          ∙ put_ne s.next p a (some le) ap'
          ∙ c.0,
      put_ne (put s.prev le (some p)) n x (some le) xn
          ∙ put_ne s.prev le x (some p) (λ q. ground arith)
          ∙ c.1,
      add_between s le x b u v j (λ q. ground arith) hb (ground arith) c.2,
    )

-- An element that is taken out from between its neighbours.
abbrev pub without : Links → (le prev next : ℕ) → Links
without s le p n = record {
  next = put (put s.next p (some n)) le none;
  prev = put (put s.prev n (some p)) le none;
}

pub detach_between :
    (s : Links) (le a b : ℕ) (u v : List ℕ)
    → Inside a b (u ++ le ∷ v)
    → le ≢ a
    → le ≢ b
    → elem le (u ++ v) ≡ false
    → Chain s a (u ++ le ∷ v) b
    → Chain (without s le (last a u) (first v b)) a (u ++ v) b
detach_between s le a b [] [] i ha hb f c = (
  put_ne (put s.next a (some b)) le a none (λ p. ha (sym p)) ∙ put_self s.next a (some b),
  put_ne (put s.prev b (some a)) le b none (λ p. hb (sym p)) ∙ put_self s.prev b (some a),
)
detach_between s le a b [] (y ∷ v) i ha hb f c =
    let s1 : Links = record s { next = put s.next a (some y) } in
    let s2 : Links = record s1 { next = put s1.next le none } in
    let s3 : Links = record s2 { prev = put s2.prev y (some a) } in
    let e = i.start in
    let g = i.end in
    let d = i.distinct in
    let c1 = frame-next s a (some y) y b v (λ p. ground arith) (ground arith) c.2.2 in
    let c2 = frame-next s1 le none y b v (λ p. ground arith) (ground arith) c1 in
    let c3 = frame-prev s2 y (some a) y b v (λ p. ground arith) d.1.0 c2 in
    (
      put_ne (put s.next a (some y)) le a none (λ p. ha (sym p)) ∙ put_self s.next a (some y),
      put_ne (put s.prev y (some a)) le y none (λ p. ground arith) ∙ put_self s.prev y (some a),
      frame-prev s3 le none y b v (λ p. hb (sym p)) (ground arith) c3,
    )
detach_between s le a b (x ∷ u) v i ha hb f c =
    let p = last x u in
    let n = first v b in
    let e = i.start in
    let g = i.end in
    let d = i.distinct in
    let ap' : a ≢ p = last-ne a x u (le ∷ v) (λ q. ground arith) (ground arith) in
    let xn : x ≢ n =
      first-ne x b u v (λ q. ground arith)
        (ground (arith, elem-++ x u (le ∷ v), elem-++ x u v, d.0)) in
    let j : Inside x b (u ++ le ∷ v) = record { start = d.0; end = ground arith; distinct = d.1 } in
    (
      put_ne (put s.next p (some n)) le a none (λ q. ha (sym q))
          ∙ put_ne s.next p a (some n) ap'
          ∙ c.0,
      put_ne (put s.prev n (some p)) le x none (λ q. ground arith)
          ∙ put_ne s.prev n x (some p) xn
          ∙ c.1,
      detach_between s le x b u v j (λ q. ground arith) hb (ground arith) c.2,
    )

-- The list of `l` with its head at `h`, in memory.
pub record Represents (s : Links) (h : ℕ) (l : List ℕ) : Type 0 where
  pub chain : Chain s h l h
  pub headless : elem h l ≡ false
  pub distinct : Distinct l

pub inside : {s : Links} {h : ℕ} {l : List ℕ} → Represents s h l → Inside h h l
inside r = record { start = r.headless; end = r.headless; distinct = r.distinct }
