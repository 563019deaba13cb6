-- ===== src/TxQueue/Refine.antt =====
-- The queue against `Fifo`.
use ajou_etri_project.Base.{
  ℕ, zero, suc, ◌+◌, ◌-◌, ◌%◌, ◌≤◌, ◌<◌, ◌≡◌, refl, ap, ◌≢◌, Bool, true, false, some, List, [], ◌∷◌,
  ◌++◌, arith, length, get_or, set, length-set, get_or-set_self, get_or-set_ne,
}
use mathlib.Core.Path.{ap₂}
use mathlib.Core.Option
use ajou_etri_project.TxQueue.{
  max_frame_len, Index, start, slot, Slot, Queue, cleared, init_q, next, is_empty, addq, deleteq,
  front_slot,
}
use ajou_etri_project.TxQueue.Fifo
use ajou_etri_project.TxQueue.Fifo.{Fifo}

-- How many frames wait, from the two indices.
abbrev pub pending : Index → Index → ℕ
pending start start = 0
pending start (slot r) = r + 1
pending (slot f) start = 0
pending (slot f) (slot r) = (r + 20 - f) % 20

abbrev pub IsPlaced : Index → Index → Type 0
IsPlaced start start = Unit
IsPlaced start (slot r) = r < 20
IsPlaced (slot f) start = ⊥
IsPlaced (slot f) (slot r) = (f < 20) × (r < 20)

abbrev pub was_served : Index → Bool
was_served start = false
was_served (slot i) = true

module _ {A : Type 0} where
  pub record IsValid (q : Queue A) : Type 0 where
    pub slots_all : length q.slots ≡ 20
    pub placed : IsPlaced q.front q.rear

  -- The `n` slots from index `h` on, going round.
  abbrev pub window : List (Slot A) → ℕ → ℕ → List (Slot A)
  window xs h zero = []
  window xs h (suc n) = get_or xs h (cleared A) ∷ window xs ((h + 1) % 20) n

  abbrev pub contents : Queue A → List (Slot A)
  contents q = window q.slots (next q.front) (pending q.front q.rear)

  abbrev pub view : Queue A → Fifo A
  view q = record { waiting = contents q; served = was_served q.front }

  length-window : (xs : List (Slot A)) (h n : ℕ) → length (window xs h n) ≡ n
  length-window xs h zero = refl
  length-window xs h (suc n) = ap suc (length-window xs ((h + 1) % 20) n)

  window-set :
      (xs : List (Slot A)) (x : Slot A) (n h i : ℕ)
      → length xs ≡ 20
      → h < 20
      → n < 20
      → i ≡ (h + n) % 20
      → window (set xs i x) h (suc n) ≡ window xs h n ++ x ∷ []
  window-set xs x zero h i l hh hn e =
      let e' : i ≡ h = omega arith in rw (e', get_or-set_self xs h x (cleared A) (omega arith))
  window-set xs x (suc n) h i l hh hn e =
      ap₂ ◌∷◌ (get_or-set_ne xs x (cleared A) (λ (p : i ≡ h). omega arith))
        (window-set xs x n ((h + 1) % 20) i l (omega arith) (omega arith) (omega arith))

  pub init_q-IsValid : IsValid init_q
  unfolding init_q
  init_q-IsValid = record { slots_all = refl; placed = tt }

  pub addq-IsValid :
      {q r : Queue A} (len uni chan : ℕ) (x : A)
      → IsValid q
      → addq q len x uni chan ≡ some r
      → IsValid r
  unfolding addq
  addq-IsValid {q} {r} len uni chan x v e = ground (
    arith,
    length-set q.slots (next q.rear)
        (record { buff = some x; len = len; unicast = uni; if_num = chan }),
  )

  pub deleteq-IsValid : {q : Queue A} → IsValid q → IsValid (deleteq q)
  unfolding deleteq
  deleteq-IsValid v = ground arith

  abbrev pub frame : A → ℕ → ℕ → ℕ → Slot A
  frame x len uni chan = record { buff = some x; len = len; unicast = uni; if_num = chan }

  -- A frame of at most 2048 bytes is queued as in `Fifo.push`: behind the frames that wait; dropped
  -- where a served queue holds 19; alone, the 20 others lost, where an unserved queue holds 20.
  pub addq_refines :
      {q : Queue A} (len uni chan : ℕ) (x : A)
      → IsValid q
      → len ≤ max_frame_len
      → Option.map view (addq q len x uni chan) ≡ some (Fifo.push (view q) (frame x len uni chan))
  unfolding addq Fifo.push
  addq_refines {q} len uni chan x v h = ground (
    arith,
    length-window q.slots (next q.front) (pending q.front q.rear),
    window-set q.slots (frame x len uni chan) (pending q.front q.rear) (next q.front) (next q.rear),
    get_or-set_self q.slots 0 (frame x len uni chan) (cleared A),
  )

  window_of_ne_zero :
      (xs : List (Slot A)) (h n : ℕ)
      → n ≢ 0
      → window xs h n ≡ get_or xs h (cleared A) ∷ window xs ((h + 1) % 20) (n - 1)
  window_of_ne_zero xs h zero p = absurd (p refl)
  window_of_ne_zero xs h (suc n) p = ap (λ k. window xs h (suc k)) (omega arith)

  -- Taking from a valid queue removes the oldest frame, and does nothing where none waits.
  pub deleteq_refines : {q : Queue A} → IsValid q → view (deleteq q) ≡ Fifo.pop (view q)
  unfolding deleteq Fifo.pop
  deleteq_refines {q} v =
      ground (arith, window_of_ne_zero q.slots (next q.front) (pending q.front q.rear))

  -- From a valid queue that is not empty, what the sender reads after a removal is the oldest frame
  -- that waited.
  pub front_slot-deleteq :
      {q : Queue A}
      → IsValid q
      → is_empty q ≡ false
      → contents q ≡ front_slot (deleteq q) ∷ contents (deleteq q)
  unfolding deleteq front_slot
  front_slot-deleteq {q} v e =
      ground (arith, window_of_ne_zero q.slots (next q.front) (pending q.front q.rear))
