-- ===== src/Route/Lookup.antt =====
-- What the lookups of the routing table return.
use ajou_etri_project.Base.{
  ℕ, ◌<◌, ◌≡◌, refl, ap, sym, ◌∙◌, ◌⊎◌, inl, inr, Bool, true, Option, none, some, arith, ◌==◌,
  Bool-cases, find_index, find_last, find_index-hit, find_index-miss, find_last-hit, find_last-miss,
  length, All, Option-cases, suc, [], ◌∷◌,
}
use ajou_etri_project.Msg.{Addr}
use ajou_etri_project.Route.{
  Route, Table, blank, entry, is_route_to, is_route_from, is_route_to_ip, find, find_ip, get_index,
}

-- An entry in use that leads to `dest`, and, where the source counts, for `source`.
abbrev pub Leads : Route → Addr → ℕ → Addr → Type 0
Leads r dest consider source =
    (r.state ≡ 1) × (r.dest_addr ≡ dest) × (consider ≡ 0 ⊎ r.source_addr ≡ source)

found-Leads :
    (t : Table) (dest : Addr) (consider : ℕ) (source : Addr) {i : ℕ}
    → find t dest consider source ≡ some i
    → (i < length t) × Leads (entry t i) dest consider source
unfolding find
found-Leads t dest consider source {i} e = elim (Bool-cases (consider == 0)) [
  | inl b ↦ ground (arith, find_index-hit (is_route_to dest) t blank {i = i})
  | inr b ↦ ground (arith, find_index-hit (is_route_from dest source) t blank {i = i})
]

missed-Leads :
    (t : Table) (dest : Addr) (consider : ℕ) (source : Addr) (j : ℕ)
    → find t dest consider source ≡ none
    → j < length t
    → ¬ Leads (entry t j) dest consider source
unfolding find
missed-Leads t dest consider source j e h l = elim (Bool-cases (consider == 0)) [
  | inl b ↦ ground (arith, find_index-miss (is_route_to dest) t blank j)
  | inr b ↦ ground (arith, find_index-miss (is_route_from dest source) t blank j)
]

All-entry : (P : Route → Type 0) (t : Table) → ((j : ℕ) → j < length t → P (entry t j)) → All P t
All-entry P [] h = tt
All-entry P (r ∷ t) h = (h 0 (omega arith), All-entry P t (λ j k. h (suc j) (omega arith)))

-- rt_table_find returns an entry of the table that is in use and for the address and, where the source
-- counts, the source asked for; or it fails, and no entry of the table is such.
pub find-Leads :
    (t : Table) (dest : Addr) (consider : ℕ) (source : Addr)
    → ((i : ℕ) × (find t dest consider source ≡ some i)
        × (i < length t)
        × Leads (entry t i) dest consider source)
      ⊎ ((find t dest consider source ≡ none) × All (λ r. ¬ Leads r dest consider source) t)
find-Leads t dest consider source = elim (Option-cases (find t dest consider source)) [
  | inl e ↦ inr (e, All-entry _ t (λ j. missed-Leads t dest consider source j e))
  | inr (i, e) ↦ let (h, l) = found-Leads t dest consider source e in inl (i, e, h, l)
]

-- At most one entry in use leads to `dest`.
abbrev pub IsUnique : Table → Addr → Type 0
IsUnique t dest =
    (i j : ℕ)
    → i < length t
    → j < length t
    → is_route_to dest (entry t i) ≡ true
    → is_route_to dest (entry t j) ≡ true
    → i ≡ j

-- rt_table_get_index scans to the end and rt_table_find stops at its first hit; they agree wherever
-- the destination has one entry.
pub get_index-find :
    (t : Table) (dest : Addr) (source : Addr)
    → IsUnique t dest
    → get_index t dest ≡ find t dest 0 source
unfolding get_index find
get_index-find t dest source u = go (find_last p t) (find_index p t) refl refl
  where
    p : Route → Bool
    p = is_route_to dest

    go : (a b : Option ℕ) → find_last p t ≡ a → find_index p t ≡ b → find_last p t ≡ find_index p t
    go none none ea eb = ea ∙ sym eb
    go none (some j) ea eb =
        let h = find_index-hit p t blank eb in
        absurd (ground (arith, find_last-miss p t blank j ea h.0))
    go (some i) none ea eb =
        let h = find_last-hit p t blank ea in
        absurd (ground (arith, find_index-miss p t blank i eb h.0))
    go (some i) (some j) ea eb =
        let h = find_last-hit p t blank ea in
        let k = find_index-hit p t blank eb in ea ∙ ap some (u i j h.0 k.0 h.1 k.1) ∙ sym eb

-- The lookup by IPv4 address finds an entry in use for that address.
find_ip-hit :
    (t : Table) (ip : ℕ) {i : ℕ}
    → find_ip t ip ≡ some i
    → (i < length t) × ((entry t i).state ≡ 1) × ((entry t i).dest_ip ≡ ip)
unfolding find_ip
find_ip-hit t ip {i} e = ground (arith, find_index-hit (is_route_to_ip ip) t blank {i = i})
