-- ===== src/Sender/Turns.antt =====
-- One turn of the sending thread, and one frame queued by the daemon.
use ajou_etri_project.Base.{
  ℕ, zero, suc, ◌+◌, ◌≤◌, ◌<◌, ◌≡◌, refl, sym, ap, ◌∙◌, subst, ◌⊎◌, inl, inr, Bool, true, false,
  Option, some, List, [], ◌∷◌, ◌++◌, All, length, get_elem?, ◌==◌, ltb, Bool-cases, if-elim, ◌&&◌,
  if◌then◌else◌, arith,
}
use ajou_etri_project.Msg.{Frame}
use ajou_etri_project.TxQueue.{Queue, Slot, max_frame_len, is_empty, deleteq, front_slot}
use ajou_etri_project.TxQueue.Refine.{
  IsValid, contents, was_served, deleteq-IsValid, front_slot-deleteq,
}
use ajou_etri_project.Node.{Node}
use ajou_etri_project.Settings.{Mib}
use ajou_etri_project.Sender.{
  Construct, Transmit, Station, construct_params, transmit_params, send_slot, tx_timer_thread,
}

pub get_elem?-some :
    {A : Type 0} (l : List A) (i : ℕ) → i < length l → (a : A) × (get_elem? l i ≡ some a)
get_elem?-some [] i h = absurd (omega arith)
get_elem?-some (x ∷ l) zero h = (x, refl)
get_elem?-some (x ∷ l) (suc i) h = get_elem?-some l i (omega arith)

module _ {M : Type 0} (construct : Construct → Option M) where
  -- The MPDU was built from what slot `x` holds.
  abbrev pub CarriedBy : Slot Frame → Transmit M → Type 0
  CarriedBy x t =
      (p : Construct) × (construct p ≡ some t.mpdu)
      × (p.payload ≡ x.buff)
      × (p.payload_size ≡ x.len)

  abbrev pub Carries : Slot Frame → List (Transmit M) → Type 0
  Carries x [] = ⊥
  Carries x (t ∷ l) = CarriedBy x t ⊎ Carries x l

  Carries-++ : (x : Slot Frame) (l m : List (Transmit M)) → Carries x l → Carries x (l ++ m)
  Carries-++ x [] m h = absurd h
  Carries-++ x (t ∷ l) m (inl h) = inl h
  Carries-++ x (t ∷ l) m (inr h) = inr (Carries-++ x l m h)

  Carries-last :
      (x : Slot Frame) (l : List (Transmit M)) (t : Transmit M)
      → CarriedBy x t
      → Carries x (l ++ t ∷ [])
  Carries-last x [] t h = inl h
  Carries-last x (u ∷ l) t h = inr (Carries-last x l t h)

-- Short enough for a slot and for the library.
abbrev pub Fits : (payload_max len : ℕ) → Type 0
Fits payload_max len = (len ≤ max_frame_len) × (len ≤ payload_max)

-- A queue that was served and holds frames that fit, and addresses for both interfaces.
pub record Ready {M : Type 0} (payload_max : ℕ) (s : Station M) : Type 0 where
  pub valid : IsValid s.node.tq
  pub served : was_served s.node.tq.front ≡ true
  pub short : All (λ x. Fits payload_max x.len) (contents s.node.tq)
  pub interfaces : s.mib.tx_if_idx + 1 < length s.mib.my_addr

module _ {M : Type 0} (payload_max : ℕ) (construct : Construct → Option M) where
  -- What a step keeps.
  pub record Goes (s r : Station M) : Type 0 where
    pub ready : Ready payload_max r
    pub keeps : (x : Slot Frame) → Carries construct x s.sent → Carries construct x r.sent

  -- The parameters are made, whichever interface.
  construct_params-some :
      (s : Station M) (x : Slot Frame)
      → s.mib.tx_if_idx + 1 < length s.mib.my_addr
      → (p : Construct) × (construct_params s.mib s.node x ≡ some p)
        × (p.payload ≡ x.buff)
        × (p.payload_size ≡ x.len)
  unfolding construct_params
  construct_params-some s x h =
      let i = if x.if_num == 0 then s.mib.tx_if_idx else s.mib.tx_if_idx + 1 in
      let l : i < length s.mib.my_addr = ground arith in
      let (a, e) = get_elem?-some s.mib.my_addr i l in rw e (_, refl, refl, refl)

  module _ (accepts : Transmit M → Bool)
      (builds : (p : Construct) → (m : M) × (construct p ≡ some m)) where
    pub send_slot-sends :
        (s : Station M) (x : Slot Frame)
        → x.len ≤ payload_max
        → s.mib.tx_if_idx + 1 < length s.mib.my_addr
        → (r : Station M) × (send_slot payload_max construct accepts s x ≡ some r)
          × (r.node.tq ≡ s.node.tq)
          × (r.mib ≡ s.mib)
          × Carries construct x r.sent
          × ((y : Slot Frame) → Carries construct y s.sent → Carries construct y r.sent)
    unfolding send_slot transmit_params
    send_slot-sends s x l h =
        let (p, e, pay, size) = construct_params-some s x h in
        let (m, b) = builds p in
        let short : ltb payload_max x.len ≡ false = ground arith in
        let t = transmit_params s.mib x m in
        rw short (
          rw e (
            rw b (
              _,
              refl,
              if-elim (λ (n : Node). n.tq ≡ s.node.tq) (accepts t && s.node.print_time == 2) refl
                  refl,
              refl,
              Carries-last construct x s.sent t (p, b, pay, size),
              λ y. Carries-++ construct y s.sent (t ∷ []),
            )))

    served-deleteq : (q : Queue Frame) → is_empty q ≡ false → was_served (deleteq q).front ≡ true
    unfolding deleteq
    served-deleteq q e = rw e

    empty_contents : (q : Queue Frame) → is_empty q ≡ true → contents q ≡ []
    empty_contents q e = ground arith

    -- With nothing to send the thread does nothing.
    pub turn_idle :
        (s : Station M)
        → contents s.node.tq ≡ []
        → IsValid s.node.tq
        → tx_timer_thread payload_max construct accepts s ≡ some s
    unfolding tx_timer_thread
    turn_idle s e v = elim (Bool-cases (is_empty s.node.tq)) [
      | inl b ↦ rw b
      | inr b ↦ let f = front_slot-deleteq v b in absurd (cc)
    ]

    -- Otherwise it sends the oldest frame that waits.
    pub turn_sends :
        (s : Station M) {x : Slot Frame} {l : List (Slot Frame)}
        → Ready payload_max s
        → contents s.node.tq ≡ x ∷ l
        → (r : Station M) × (tx_timer_thread payload_max construct accepts s ≡ some r)
          × Goes s r
          × Carries construct x r.sent
          × (contents r.node.tq ≡ l)
    unfolding tx_timer_thread
    turn_sends s {x} {l} v e = elim (Bool-cases (is_empty s.node.tq)) [
      | inl b ↦ let f = empty_contents s.node.tq b in absurd (cc)
      | inr b ↦
          let q : Queue Frame = deleteq s.node.tq in
          let y : Slot Frame = front_slot q in
          let f : contents s.node.tq ≡ y ∷ contents q = front_slot-deleteq v.valid b in
          let short : All (λ z. Fits payload_max z.len) (y ∷ contents q) =
            subst (All (λ z. Fits payload_max z.len)) f v.short in
          let n : Station M = record s {
            node = record (s.node) { tq = q };
            mib = record (s.mib) { tx_wsm_body_len = y.len };
          } in
          let (r, sends, same_queue, same_mib, carried, keeps) =
            send_slot-sends n y short.0.1 v.interfaces in
          let hx : y ≡ x = cc in
          let hl : contents q ≡ l = cc in
          rw b (
            r,
            sends,
            record {
              ready = record {
                valid = subst IsValid (sym same_queue) (deleteq-IsValid v.valid);
                served =
                    subst (λ (k : Queue Frame). was_served k.front ≡ true) (sym same_queue)
                      (served-deleteq s.node.tq b);
                short =
                    subst (λ (k : Queue Frame). All (λ z. Fits payload_max z.len) (contents k))
                      (sym same_queue) short.1;
                interfaces =
                    subst (λ (k : Mib). k.tx_if_idx + 1 < length k.my_addr) (sym same_mib)
                      v.interfaces;
              };
              keeps = keeps;
            },
            subst (λ z. Carries construct z r.sent) hx carried,
            ap contents same_queue ∙ hl,
          )
    ]
