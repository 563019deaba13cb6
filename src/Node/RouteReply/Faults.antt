-- ===== src/Node/RouteReply/Faults.antt =====
-- When Prep_process writes through NULL or reads past the message.
use ajou_etri_project.Base.{
  ℕ, zero, suc, ◌+◌, ◌-◌, ◌≤◌, ◌≡◌, refl, Option, none, some, false, ◌==◌, ◌*◌, ◌>>=◌, List, [],
  ◌∷◌, get_elem?, length, arith,
}
use ajou_etri_project.Msg.{Addr, Prep, prep, sizeof_prep, sizeof_ext}
use ajou_etri_project.Node.{Node, Env}
use ajou_etri_project.Node.RouteReply.{last_ext, uplink, downlink, prep_process}
use ajou_etri_project.Node.Log.{log_if_on}

beyond : (l : List Addr) (i : ℕ) → length l ≤ i → get_elem? l i ≡ none
beyond [] i h = refl
beyond (a ∷ l) zero h = absurd (omega arith)
beyond (a ∷ l) (suc i) h = beyond l i (omega arith)

downlink-beyond :
    (env : Env) (p : Prep) (ext : List Addr) (n : Node)
    → length ext ≡ p.ext_length
    → 2 ≤ p.ext_length
    → downlink env p ext n ≡ none
unfolding downlink
downlink-beyond env p ext n e h =
    rw (beyond ext ((p.ext_length - 1) + (p.ext_length - 1)) (omega arith)) refl

bind-none :
    {A B : Type 0} (o : Option A) {f : A → Option B} → ((a : A) → f a ≡ none) → (o >>= f) ≡ none
bind-none none h = refl
bind-none (some a) h = h a

-- A reply that still carries two or more addresses, and nothing behind them, makes Prep_process read past
-- the message, unless it has faulted before, whatever the state of the node.
pub prep_process-beyond :
    (env : Env) (p : Prep) (ext : List Addr) (n : Node)
    → length ext ≡ p.ext_length
    → 2 ≤ p.ext_length
    → prep_process env p ext n ≡ none
unfolding prep_process
prep_process-beyond env p ext n e h =
    bind-none (log_if_on (sizeof_prep + p.ext_length * sizeof_ext) (prep p ext) n) (λ a.
      bind-none (last_ext p ext) (λ prev. bind-none (uplink env p prev a) (λ b.
        let more : (p.ext_length == 0) ≡ false = ground arith in
        rw more (rw (downlink-beyond env p ext b e h) refl))))
