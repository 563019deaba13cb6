-- ===== src/Udpfwd/Filter.antt =====
-- The main loop of the forwarder against what it is for.
use ajou_etri_project.Base.{
  ℕ, ◌≡◌, refl, ap, Bool, some, List, [], ◌∷◌, ◌==◌, ◌>>=◌, if◌then◌else◌, Bool-cases, inl, inr,
}
use ajou_etri_project.Udpfwd.{Received, datagram, error, into_list, forward}

-- The datagrams before the first error.
abbrev pub arrived : List Received → List (ℕ × List ℕ)
arrived [] = []
arrived (error ∷ l) = []
arrived (datagram addr bytes ∷ l) = (addr, bytes) ∷ arrived l

-- The contents of those of others.
abbrev pub of_others : ℕ → List (ℕ × List ℕ) → List (List ℕ)
of_others mine [] = []
of_others mine ((addr, bytes) ∷ l) =
    if addr == mine then of_others mine l else bytes ∷ of_others mine l

abbrev pub take_while : {A : Type 0} → (A → Bool) → List A → List A
take_while p [] = []
take_while p (x ∷ l) = if p x then x ∷ take_while p l else []

-- With an address that is still there to be read, what the forwarder broadcasts of what it receives is the contents of the
-- datagrams of others, unchanged and in order, up to the first error in receiving and the first that
-- cannot be sent.
pub forward-of_others :
    (sends : List ℕ → Bool) (mine : ℕ) (l : List Received)
    → forward sends (into_list mine) l ≡ some (take_while sends (of_others mine (arrived l)))
unfolding forward
forward-of_others sends mine [] = refl
forward-of_others sends mine (error ∷ l) = refl
forward-of_others sends mine (datagram addr bytes ∷ l) = elim (Bool-cases (addr == mine)) [
  | inl b ↦ rw b (forward-of_others sends mine l)
  | inr b ↦ rw b (elim (Bool-cases (sends bytes)) [
    | inl c ↦ rw c (ap (λ o. o >>= λ out. some (bytes ∷ out)) (forward-of_others sends mine l))
    | inr c ↦ rw c
  ])
]
