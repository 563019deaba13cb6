-- ===== src/Udpfwd/Names.antt =====
-- Which interfaces find_ifname finds.
use ajou_etri_project.Base.{
  ℕ, ◌≡◌, ◌≢◌, ◌≤◌, ◌↔◌, ◌⊎◌, inl, inr, refl, ap, sym, ◌∙◌, true, Option, none, some, List, [], ◌∷◌,
  leb, length, if◌then◌else◌, Bool-cases, arith,
}
use mathlib.Core.Path.{ap₂}
use mathlib.Core.Option.{some_inj}
use ajou_etri_project.Udpfwd.{
  Name, same_name, Interface, is_named, search, listed, find_ifname, af_inet, af_inet6,
}

same_name-eq : (a b : Name) → same_name a b ≡ true → a ≡ b
same_name-eq [] [] e = refl
same_name-eq [] (d ∷ b) e = absurd (cc)
same_name-eq (c ∷ a) [] e = absurd (cc)
same_name-eq (c ∷ a) (d ∷ b) e = ap₂ ◌∷◌ (ground (arith)) (same_name-eq a b (ground arith))

same_name_refl : (a : Name) → same_name a a ≡ true
same_name_refl [] = refl
same_name_refl (c ∷ a) = ground (arith, same_name_refl a)

-- An interface of the name with an address of IPv4 or IPv6.
pub record IsNamed (name : Name) (i : Interface) : Type 0 where
  pub family : ℕ
  pub addr : ℕ
  pub has : i.ifa_addr ≡ some (family, addr)
  pub of_ip : (family ≡ af_inet) ⊎ (family ≡ af_inet6)
  pub same : i.ifa_name ≡ name

abbrev pub Has : Name → List Interface → Type 0
Has name [] = ⊥
Has name (i ∷ l) = IsNamed name i ⊎ Has name l

is_named-IsNamed :
    (name n : Name) (o : Option (ℕ × ℕ))
    → is_named name (record { ifa_name = n; ifa_addr = o }) ≡ true
    → IsNamed name (record { ifa_name = n; ifa_addr = o })
is_named-IsNamed name n none e = absurd (cc)
is_named-IsNamed name n (some p) e = record {
  family = p.0;
  addr = p.1;
  has = refl;
  of_ip = ground arith;
  same = sym (same_name-eq name n (ground arith));
}

IsNamed-is_named :
    (name n : Name) (o : Option (ℕ × ℕ))
    → IsNamed name (record { ifa_name = n; ifa_addr = o })
    → is_named name (record { ifa_name = n; ifa_addr = o }) ≡ true
IsNamed-is_named name n none v = absurd (no_address v.has)
  where
    no_address : {p : ℕ × ℕ} → none ≡ some p → ⊥
    no_address e = absurd (cc)
IsNamed-is_named name n (some p) v =
    let f : p.0 ≡ v.family = ap (λ q. q.0) (some_inj.0 v.has) in
    let m : same_name name n ≡ true = ap (same_name name) v.same ∙ same_name_refl name in
    ground (arith, f, m, v.of_ip)

search-zero : (name : Name) (l : List Interface) → search name l 0 ≡ 0
search-zero name [] = refl
search-zero name (i ∷ l) = elim (Bool-cases (is_named name i)) [
  | inl b ↦ rw b (search-zero name l)
  | inr b ↦ rw b (search-zero name l)
]

search-Has :
    (name : Name) (l : List Interface) (status : ℕ)
    → search name l status ≡ 0
    → status ≢ 0
    → Has name l
search-Has name [] status e h = absurd (h e)
search-Has name (i ∷ l) status e h = elim (Bool-cases (is_named name i)) [
  | inl b ↦ inl (is_named-IsNamed name i.ifa_name i.ifa_addr b)
  | inr b ↦ inr (search-Has name l status (rw b at e) h)
]

Has-search : (name : Name) (l : List Interface) (status : ℕ) → Has name l → search name l status ≡ 0
Has-search name [] status h = absurd h
Has-search name (i ∷ l) status (inl v) =
    let b = IsNamed-is_named name i.ifa_name i.ifa_addr v in rw b (search-zero name l)
Has-search name (i ∷ l) status (inr h) = Has-search name l (if is_named name i then 0 else status) h

-- Of the interfaces that the kernel lists, `find_ifname` answers 0 exactly for a name of two characters
-- or more that one with an address of IPv4 or IPv6 has.
find_ifname-Has :
    (name : Name) (l : List Interface)
    → (find_ifname (some name) (listed l) ≡ 0) ↔ (2 ≤ length name) × Has name l
unfolding find_ifname
find_ifname-Has name l = elim (Bool-cases (leb (length name) 1)) [
  | inl b ↦ rw b ((λ e. absurd (omega arith)), λ h. absurd (ground (arith, h.0)))
  | inr b ↦ rw b (
    (λ e. (ground arith, search-Has name l 2 e (λ p. omega arith))),
    λ h. Has-search name l 2 h.1,
  )
]
