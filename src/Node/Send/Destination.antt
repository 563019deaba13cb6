-- ===== src/Node/Send/Destination.antt =====
-- Frames with a destination that wait in the queue together.
use mathlib.Core.Option
use ajou_etri_project.Base.{
  ℕ, ◌≤◌, ◌<◌, ◌≡◌, refl, ap, ◌∙◌, subst, List, [], ◌∷◌, ◌++◌, none, some, ◌>>=◌, length,
  length-append, Option-cases, inl, inr, arith,
}
use mathlib.Core.Option.{some_inj}
use ajou_etri_project.Msg.{Addr, Frame}
use ajou_etri_project.TxQueue.{Slot, addq, max_frame_len}
use ajou_etri_project.TxQueue.Fifo
use ajou_etri_project.TxQueue.Fifo.{Fifo}
use ajou_etri_project.TxQueue.Refine.{IsValid, view, contents, frame, addq-IsValid, addq_refines}
use ajou_etri_project.Node.{Node, send, send_to}

-- The frame waits behind the others, and its destination is in the global.
pub record Sent (a : Addr) (s : Slot Frame) (n m : Node) : Type 0 where
  pub valid : IsValid m.tq
  pub waits : contents m.tq ≡ contents n.tq ++ s ∷ []
  pub destination : m.dest_mac_addr ≡ a

push-waiting :
    (f : Fifo Frame) (s : Slot Frame)
    → length f.waiting < 19
    → (Fifo.push f s).waiting ≡ f.waiting ++ s ∷ []
unfolding Fifo.push
push-waiting f s h = ground arith

pub send_to-Sent :
    (a : Addr) (len : ℕ) (x : Frame) (uni chan : ℕ) (n : Node)
    → IsValid n.tq
    → len ≤ max_frame_len
    → length (contents n.tq) < 19
    → (m : Node) × (send_to a len x uni chan n ≡ some m) × Sent a (frame x len uni chan) n m
unfolding send_to send
send_to-Sent a len x uni chan n v l h = elim (Option-cases (addq n.tq len x uni chan)) [
  | inl e ↦ absurd (
      clash (
        subst (λ o. Option.map view o ≡ some (Fifo.push (view n.tq) (frame x len uni chan))) e
          (addq_refines len uni chan x v l)))
  | inr (q, e) ↦
      let g =
        subst (λ o. Option.map view o ≡ some (Fifo.push (view n.tq) (frame x len uni chan))) e
          (addq_refines len uni chan x v l) in
      (
        record n { dest_mac_addr = a; tq = q },
        rw e refl,
        record {
          valid = addq-IsValid len uni chan x v e;
          waits =
              ap (λ f. f.waiting) (some_inj.0 g)
              ∙ push-waiting (view n.tq) (frame x len uni chan) h;
          destination = refl;
        },
      )
]
  where
    clash : {f : Fifo Frame} → none ≡ some f → ⊥
    clash e = cc

append-two : (l : List (Slot Frame)) (s t : Slot Frame) → (l ++ s ∷ []) ++ t ∷ [] ≡ l ++ s ∷ t ∷ []
append-two [] s t = refl
append-two (x ∷ l) s t = ap (λ k. x ∷ k) (append-two l s t)

-- With at most 17 frames waiting in a valid queue, two frames of at most 2048 bytes for the nodes `a`
-- and `b` are queued one behind the other, and the one destination that is kept for both is `b`.
pub send_to-send_to :
    (a b : Addr) (k l : ℕ) (x y : Frame) (chan : ℕ) (n : Node)
    → IsValid n.tq
    → k ≤ max_frame_len
    → l ≤ max_frame_len
    → length (contents n.tq) ≤ 17
    → (m : Node) × ((send_to a k x 1 chan n >>= send_to b l y 1 chan) ≡ some m)
      × (contents m.tq ≡ contents n.tq ++ frame x k 1 chan ∷ frame y l 1 chan ∷ [])
      × (m.dest_mac_addr ≡ b)
send_to-send_to a b k l x y chan n v hk hl h =
    let (p, e, s) = send_to-Sent a k x 1 chan n v hk (omega arith) in
    let room : length (contents p.tq) < 19 =
      omega (arith, ap length s.waits, length-append (contents n.tq) (frame x k 1 chan ∷ [])) in
    let (m, f, t) = send_to-Sent b l y 1 chan p s.valid hl room in
    (
      m,
      rw e f,
      t.waits
          ∙ ap (λ c. c ++ frame y l 1 chan ∷ []) s.waits
          ∙ append-two (contents n.tq) (frame x k 1 chan) (frame y l 1 chan),
      t.destination,
    )
