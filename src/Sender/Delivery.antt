-- ===== src/Sender/Delivery.antt =====
-- The sending thread beside the daemon that queues frames: what waits is sent.
use ajou_etri_project.Base.{
  ℕ, zero, suc, ◌<◌, ◌≡◌, ◌⊎◌, refl, sym, ap, ◌∙◌, subst, Bool, true, Option, none, some, List, [],
  ◌∷◌, ◌++◌, All, length, get_elem?, ◌==◌, ◌>>=◌, Bool-cases, inl, inr, arith,
}
use mathlib.Core.Option
use mathlib.Core.Option.{some_inj}
use ajou_etri_project.Msg.{Frame}
use ajou_etri_project.TxQueue.{Queue, Slot, addq}
use ajou_etri_project.TxQueue.Fifo
use ajou_etri_project.TxQueue.Fifo.{Fifo}
use ajou_etri_project.TxQueue.Refine.{contents, was_served, view, frame, addq-IsValid, addq_refines}
use ajou_etri_project.Node.{send}
use ajou_etri_project.Sender.{Construct, Transmit, Station, tx_timer_thread}
use ajou_etri_project.Sender.Turns.{Carries, Fits, Ready, Goes, turn_idle, turn_sends}

-- A run of the thread, or a frame that the daemon queues.
pub data Step : Type 0 where
  turn : Step
  post : (len : ℕ) → Frame → (uni_type if_chan : ℕ) → Step

abbrev pub turns : List Step → ℕ
turns [] = 0
turns (turn ∷ cs) = suc (turns cs)
turns (post len f uni chan ∷ cs) = turns cs

get_elem?-snoc :
    {A : Type 0} (l : List A) (x : A) (k : ℕ) {y : A}
    → get_elem? l k ≡ some y
    → get_elem? (l ++ x ∷ []) k ≡ some y
get_elem?-snoc [] x k e = absurd (cc)
get_elem?-snoc (z ∷ l) x zero e = e
get_elem?-snoc (z ∷ l) x (suc k) e = get_elem?-snoc l x k e

All-snoc : {A : Type 0} (P : A → Type 0) (l : List A) (x : A) → All P l → P x → All P (l ++ x ∷ [])
All-snoc P [] x h p = (p, tt)
All-snoc P (z ∷ l) x h p = (h.0, All-snoc P l x h.1 p)

-- A served queue takes a frame behind the others or drops it.
push_cases :
    (f : Fifo Frame) (x : Slot Frame)
    → f.served ≡ true
    → (Fifo.push f x ≡ f) ⊎ (Fifo.push f x ≡ record f { waiting = f.waiting ++ x ∷ [] })
unfolding Fifo.push
push_cases f x e = elim (Bool-cases (length f.waiting == 19)) [
  | inl b ↦ inl (rw e (rw b))
  | inr b ↦ inr (rw e (rw b))
]

view-some :
    (o : Option (Queue Frame)) {f : Fifo Frame}
    → Option.map view o ≡ some f
    → (q : Queue Frame) × (o ≡ some q) × (view q ≡ f)
view-some none e = absurd (cc)
view-some (some q) e = (q, refl, some_inj.0 e)

none_left : {l : List (Slot Frame)} {x : Slot Frame} (k : ℕ) → l ≡ [] → get_elem? l k ≡ some x → ⊥
none_left {l} {x} k e h = let f : none ≡ some x = ap (λ z. get_elem? z k) (sym e) ∙ h in absurd (cc)

-- Nothing waits, or there is an oldest frame.
waiting_cases :
    (l : List (Slot Frame)) → (l ≡ []) ⊎ ((x : Slot Frame) × (r : List (Slot Frame)) × (l ≡ x ∷ r))
waiting_cases [] = inl refl
waiting_cases (x ∷ l) = inr (x, l, refl)

module _ {M : Type 0} (payload_max : ℕ) (construct : Construct → Option M)
    (accepts : Transmit M → Bool) where
  pub step : Station M → Step → Option (Station M)
  step s turn = tx_timer_thread payload_max construct accepts s
  step s (post len f uni chan) = do n ← send len f uni chan s.node; some (record s { node = n })

  pub run : Station M → List Step → Option (Station M)
  run s [] = some s
  run s (c ∷ cs) = step s c >>= λ r. run r cs

  abbrev pub StepFits : Step → Type 0
  StepFits turn = Unit
  StepFits (post len f uni chan) = Fits payload_max len

  -- A frame is queued behind those that wait, or dropped.
  post-Goes :
      (s : Station M) (len : ℕ) (f : Frame) (uni chan : ℕ)
      → Ready payload_max s
      → Fits payload_max len
      → (r : Station M) × (step s (post len f uni chan) ≡ some r)
        × Goes payload_max construct s r
        × ((x : Slot Frame) (k : ℕ)
            → get_elem? (contents s.node.tq) k ≡ some x
            → get_elem? (contents r.node.tq) k ≡ some x)
  unfolding step send
  post-Goes s len f uni chan v h =
      let x : Slot Frame = frame f len uni chan in
      let old : Fifo Frame = view s.node.tq in
      let (q, e, w) =
        view-some (addq s.node.tq len f uni chan) (addq_refines len uni chan f v.valid h.0) in
      let r : Station M = record s { node = record (s.node) { tq = q } } in
      let goes : ((was_served q.front ≡ true)
          → All (λ y. Fits payload_max y.len) (contents q)
          → Goes payload_max construct s r) =
        λ served short. record {
          ready = record {
            valid = addq-IsValid len uni chan f v.valid e;
            served = served;
            short = short;
            interfaces = v.interfaces;
          };
          keeps = λ y c. c;
        } in
      let both : Goes payload_max construct s r
          × ((y : Slot Frame) (k : ℕ)
              → get_elem? (contents s.node.tq) k ≡ some y
              → get_elem? (contents q) k ≡ some y) =
        elim (push_cases old x v.served) [
          | inl p ↦
              let same : view q ≡ old = w ∙ p in
              (
                goes (ap (λ g. g.served) same ∙ v.served) (
                    subst (λ (g : Fifo Frame). All (λ y. Fits payload_max y.len) g.waiting)
                      (sym same) v.short),
                λ y k c. subst (λ (g : Fifo Frame). get_elem? g.waiting k ≡ some y) (sym same) c,
              )
          | inr p ↦
              let more : view q ≡ record old { waiting = contents s.node.tq ++ x ∷ [] } = w ∙ p in
              (
                goes (ap (λ g. g.served) more ∙ v.served) (
                    subst (λ (g : Fifo Frame). All (λ y. Fits payload_max y.len) g.waiting)
                      (sym more)
                      (All-snoc (λ y. Fits payload_max y.len) (contents s.node.tq) x v.short h)),
                λ y k c.
                    subst (λ (g : Fifo Frame). get_elem? g.waiting k ≡ some y) (sym more)
                      (get_elem?-snoc (contents s.node.tq) x k c),
              )
        ] in
      rw e (r, refl, both.0, both.1)

  module _ (builds : (p : Construct) → (m : M) × (construct p ≡ some m)) where
    -- No step faults, and what is sent stays sent.
    run-Goes :
        (cs : List Step) (s : Station M)
        → Ready payload_max s
        → All StepFits cs
        → (r : Station M) × (run s cs ≡ some r)
          × ((x : Slot Frame) → Carries construct x s.sent → Carries construct x r.sent)
    unfolding run step
    run-Goes [] s v h = (s, refl, λ x c. c)
    run-Goes (turn ∷ cs) s v h = elim (waiting_cases (contents s.node.tq)) [
      | inl e ↦
          rw (turn_idle payload_max construct accepts builds s e v.valid) (run-Goes cs s v h.1)
      | inr (x, l, e) ↦
          let (r, t, g, c, d) = turn_sends payload_max construct accepts builds s v e in
          let (u, a, k) = run-Goes cs r g.ready h.1 in rw t (u, a, λ y b. k y (g.keeps y b))
    ]
    run-Goes (post len f uni chan ∷ cs) s v h =
        let (r, t, g, d) = post-Goes s len f uni chan v h.0 in
        let (u, a, k) = run-Goes cs r g.ready h.1 in rw t (u, a, λ y b. k y (g.keeps y b))

    -- Where the queue was served before and holds frames that fit a slot and the library, the library
    -- makes an MPDU of each, and the node has an address for both interfaces: the frame behind `k`
    -- others has been handed to `WAL_TransmitMPDU` after `k + 1` runs of the sending thread, whatever
    -- frames, short enough for a slot and for the library, the daemon queues between them.
    pub run-Carries :
        (cs : List Step) (s : Station M) (k : ℕ) {x : Slot Frame}
        → Ready payload_max s
        → All StepFits cs
        → get_elem? (contents s.node.tq) k ≡ some x
        → k < turns cs
        → (r : Station M) × (run s cs ≡ some r) × Carries construct x r.sent
    unfolding run step
    run-Carries [] s k v h e t = absurd (omega arith)
    run-Carries (turn ∷ cs) s zero {x} v h e t = elim (waiting_cases (contents s.node.tq)) [
      | inl n ↦ absurd (none_left 0 n e)
      | inr (y, l, n) ↦
          let (r, b, g, c, d) = turn_sends payload_max construct accepts builds s v n in
          let (u, a, q) = run-Goes cs r g.ready h.1 in
          let hx : y ≡ x = some_inj.0 (ap (λ z. get_elem? z 0) (sym n) ∙ e) in
          rw b (u, a, subst (λ z. Carries construct z u.sent) hx (q y c))
    ]
    run-Carries (turn ∷ cs) s (suc k) {x} v h e t = elim (waiting_cases (contents s.node.tq)) [
      | inl n ↦ absurd (none_left (suc k) n e)
      | inr (y, l, n) ↦
          let (r, b, g, c, d) = turn_sends payload_max construct accepts builds s v n in
          let hx : get_elem? l k ≡ some x = ap (λ z. get_elem? z (suc k)) (sym n) ∙ e in
          rw b (run-Carries cs r k g.ready h.1 (ap (λ z. get_elem? z k) d ∙ hx) (omega arith))
    ]
    run-Carries (post len f uni chan ∷ cs) s k v h e t =
        let (r, b, g, d) = post-Goes s len f uni chan v h.0 in
        rw b (run-Carries cs r k g.ready h.1 (d _ k e) t)
