-- ===== src/TxQueue.antt =====
-- The transmission queue `tq` of wsm/mesh_extern.c and wsm/mesh_extern.h: Init_Q, IsEmpty, IsFull,
-- addq and deleteq. The four parallel arrays of `tx_queue` are one list of slots. A frame is of any
-- type `A`: the first `len` bytes of the caller's buffer; `none` is a slot that is still cleared.
pub mod Fifo
pub mod Refine
pub mod History
use ajou_etri_project.Base.{
  ℕ, suc, ◌+◌, ◌%◌, Bool, true, false, Option, none, some, List, ◌==◌, ltb, if◌then◌else◌, get_or,
  set, replicate,
}

abbrev pub max_queue : ℕ
max_queue = 20

abbrev pub max_frame_len : ℕ
max_frame_len = 2048

-- The `int` that `front` and `rear` hold: -1, or an index.
pub data Index : Type 0 where
  start : Index
  slot : ℕ → Index

pub record Slot {ℓ} (A : Type ℓ) : Type ℓ where
  pub buff : Option A
  pub len : ℕ
  pub unicast : ℕ
  pub if_num : ℕ

pub record Queue {ℓ} (A : Type ℓ) : Type ℓ where
  pub slots : List (Slot A)
  pub front : Index
  pub rear : Index

abbrev pub cleared {ℓ} : (A : Type ℓ) → Slot A
cleared A = record { buff = none; len = 0; unicast = 0; if_num = 0 }

-- (i + 1) % MAX_QUEUE
abbrev pub next : Index → ℕ
next start = 0
next (slot i) = (i + 1) % max_queue

abbrev pub same : Index → Index → Bool
same start start = true
same start (slot j) = false
same (slot i) start = false
same (slot i) (slot j) = i == j

module _ {ℓ} {A : Type ℓ} where
  unfoldable pub init_q : Queue A
  init_q = record { slots = replicate max_queue (cleared A); front = start; rear = start }

  abbrev pub is_empty : Queue A → Bool
  is_empty q = same q.front q.rear

  abbrev pub is_full : Queue A → Bool
  is_full q = same (slot (next q.rear)) q.front

  -- `none` where `memcpy` runs past the slot. A full queue drops the frame.
  unfoldable pub addq : Queue A → ℕ → A → ℕ → ℕ → Option (Queue A)
  addq q len frame uni_type if_chan =
      if is_full q
      then some q
      else if ltb max_frame_len len
      then none
      else some (record q {
        rear = slot (next q.rear);
        slots =
            set q.slots (next q.rear)
              (record { buff = some frame; len = len; unicast = uni_type; if_num = if_chan });
      })

  unfoldable pub deleteq : Queue A → Queue A
  deleteq q = if is_empty q then q else record q { front = slot (next q.front) }

  -- The slot `tq.…[tq.front]` that the sender reads after `deleteq`.
  unfoldable pub front_slot : Queue A → Slot A
  front_slot q = elim q.front [ start ↦ cleared A | slot i ↦ get_or q.slots i (cleared A) ]
