-- ===== src/TxQueue/History.antt =====
-- Histories of the transmission queue.
use mathlib.Core.Option
use ajou_etri_project.Base.{
  ℕ, ◌≤◌, ◌≡◌, refl, ap, ◌∙◌, Option, some, List, [], ◌∷◌, arith, ◌>>=◌, All, Option-cases, inl,
  inr,
}
use ajou_etri_project.TxQueue.{max_frame_len, Queue, addq, deleteq}
use ajou_etri_project.TxQueue.Fifo
use ajou_etri_project.TxQueue.Fifo.{Fifo}
use ajou_etri_project.TxQueue.Refine.{
  IsValid, view, frame, addq-IsValid, deleteq-IsValid, addq_refines, deleteq_refines,
}

-- A client's calls: a frame with its length and flags, or a removal.
pub data Call (A : Type 0) : Type 0 where
  add : ℕ → A → ℕ → ℕ → Call A
  delete : Call A

module _ {A : Type 0} where
  pub step : Queue A → Call A → Option (Queue A)
  step q (add len x uni chan) = addq q len x uni chan
  step q delete = some (deleteq q)

  pub run : Queue A → List (Call A) → Option (Queue A)
  run q [] = some q
  run q (c ∷ cs) = step q c >>= λ r. run r cs

  pub fifo_run : Fifo A → List (Call A) → Fifo A
  fifo_run f [] = f
  fifo_run f (add len x uni chan ∷ cs) = fifo_run (Fifo.push f (frame x len uni chan)) cs
  fifo_run f (delete ∷ cs) = fifo_run (Fifo.pop f) cs

  abbrev pub IsShort : Call A → Type 0
  IsShort (add len x uni chan) = len ≤ max_frame_len
  IsShort delete = Unit

  same_view : {f g : Fifo A} → some f ≡ some g → f ≡ g
  same_view e = cc

  -- Whatever calls are made on a valid queue, with frames of at most 2048 bytes, none
  -- faults, and the queue holds what the abstract queue holds after the same calls.
  pub run_refines :
      (cs : List (Call A)) {q : Queue A}
      → IsValid q
      → All IsShort cs
      → Option.map view (run q cs) ≡ some (fifo_run (view q) cs)
  unfolding run step fifo_run
  run_refines [] v h = refl
  run_refines (add len x uni chan ∷ cs) {q} v h = elim (Option-cases (addq q len x uni chan)) [
    | inl n ↦ ground (arith, addq_refines len uni chan x v h.0)
    | inr (r, e) ↦
        let g : view r ≡ Fifo.push (view q) (frame x len uni chan) =
          same_view (rw e at (addq_refines len uni chan x v h.0)) in
        rw e
          (run_refines cs (addq-IsValid len uni chan x v e) h.1 ∙ ap (λ f. some (fifo_run f cs)) g)
  ]
  run_refines (delete ∷ cs) v h =
      run_refines cs (deleteq-IsValid v) h.1 ∙ ap (λ f. some (fifo_run f cs)) (deleteq_refines v)
