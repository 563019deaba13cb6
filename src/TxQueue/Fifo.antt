-- ===== src/TxQueue/Fifo.antt =====
-- What a client of the transmission queue sees: the frames that wait, oldest first, and whether one
-- was ever taken. A queue that was never served takes 20 frames, and its 21st replaces them all;
-- after the first removal it takes 19 and drops what does not fit.
use ajou_etri_project.Base.{Bool, true, false, List, [], ◌∷◌, ◌++◌, ◌==◌, if◌then◌else◌, length}
use ajou_etri_project.TxQueue.{Slot}

pub record Fifo {ℓ} (A : Type ℓ) : Type ℓ where
  pub waiting : List (Slot A)
  pub served : Bool

module _ {ℓ} {A : Type ℓ} where
  abbrev pub empty : Fifo A
  empty = record { waiting = []; served = false }

  unfoldable pub push : Fifo A → Slot A → Fifo A
  push f x =
      if f.served
      then if length f.waiting == 19 then f else record f { waiting = f.waiting ++ x ∷ [] }
      else if length f.waiting == 20
      then record f { waiting = x ∷ [] }
      else record f { waiting = f.waiting ++ x ∷ [] }

  pop_list : Bool → List (Slot A) → Fifo A
  pop_list b [] = record { waiting = []; served = b }
  pop_list b (x ∷ xs) = record { waiting = xs; served = true }

  unfoldable pub pop : Fifo A → Fifo A
  unfolding pop_list
  pop f = pop_list f.served f.waiting
