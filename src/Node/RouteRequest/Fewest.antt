-- ===== src/Node/RouteRequest/Fewest.antt =====
-- Of all copies of a request the one over the fewest hops is answered.
use ajou_etri_project.Base.{
  ℕ, ◌≡◌, ◌≤◌, refl, ap, subst, true, false, Option, some, List, [], ◌∷◌, ltb, map, arith, All,
  ◌>>=◌, Bool-cases, inl, inr, if◌then◌else◌,
}
use mathlib.Core.List.{Memᴰ}
use mathlib.Core.List.Memᴰ.{head, tail}
use ajou_etri_project.Msg.{Addr}
use ajou_etri_project.Node.{Node}
use ajou_etri_project.Node.RouteRequest.Waiting.{view}
use ajou_etri_project.Node.RouteRequest.Choice.{Candidate, better, Awaits}
use ajou_etri_project.Node.RouteRequest.Copies.{Copy, candidate, IsCopy, arrive, arrive-step}

abbrev pub arrive_all : List Copy → Node → Option Node
arrive_all [] n = some n
arrive_all (c ∷ cs) n = arrive c n >>= arrive_all cs

-- A candidate of the list with no more hops than any other.
pub record IsFewest (x : Candidate) (l : List Candidate) : Type 0 where
  pub among : Memᴰ x l
  pub fewest : All (λ y. x.hops ≤ y.hops) l

All-fewer :
    (x y : Candidate) (l : List Candidate)
    → x.hops ≤ y.hops
    → All (λ z. y.hops ≤ z.hops) l
    → All (λ z. x.hops ≤ z.hops) l
All-fewer x y [] h a = tt
All-fewer x y (z ∷ l) h a = (omega (arith, a.0), All-fewer x y l h a.1)

better-first : (b c : Candidate) → ltb c.hops b.hops ≡ true → better b c ≡ c
better-first b c e = ap (λ t. if t then c else b) e

better-second : (b c : Candidate) → ltb c.hops b.hops ≡ false → better b c ≡ b
better-second b c e = ap (λ t. if t then c else b) e

between : (x b c : Candidate) (l : List Candidate) → Memᴰ x (b ∷ l) → Memᴰ x (b ∷ c ∷ l)
between x b c l (head e) = head e
between x b c l (tail m) = tail (tail m)

-- One candidate more.
better-IsFewest :
    (x b c : Candidate) (l : List Candidate) → IsFewest x (better b c ∷ l) → IsFewest x (b ∷ c ∷ l)
better-IsFewest x b c l f = elim (Bool-cases (ltb c.hops b.hops)) [
  | inl e ↦
      let a = subst (λ y. Memᴰ x (y ∷ l)) (better-first b c e) f.among in
      record { among = tail a; fewest = ground (arith, f.fewest) }
  | inr e ↦
      let a = subst (λ y. Memᴰ x (y ∷ l)) (better-second b c e) f.among in
      record { among = between x b c l a; fewest = ground (arith, f.fewest) }
]

-- Where an answer to `orig` waits, routes are chosen by hops and logging is off: whatever copies of the
-- request arrive, over two to five hops each, none of them makes the node fault, and the answer that then
-- waits, and the route to `orig`, are by a copy with the fewest hops among the one that waited and all that
-- arrived.
pub arrive_all-IsFewest :
    (cs : List Copy) (n : Node) (me orig : Addr) (i : ℕ) (b : Candidate)
    → Awaits (view n) me orig i b
    → All (IsCopy me orig) cs
    → (m : Node) × (x : Candidate) × (arrive_all cs n ≡ some m)
      × Awaits (view m) me orig i x
      × IsFewest x (b ∷ map candidate cs)
arrive_all-IsFewest [] n me orig i b w v =
    (n, b, refl, w, record { among = head refl; fewest = (omega arith, tt) })
arrive_all-IsFewest (c ∷ cs) n me orig i b w v =
    let (k, run, u) = arrive-step c n me orig i b w v.0 in
    let (m, x, run', z, f) = arrive_all-IsFewest cs k me orig i (better b (candidate c)) u v.1 in
    (m, x, rw run run', z, better-IsFewest x b (candidate c) (map candidate cs) f)
