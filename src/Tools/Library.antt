-- ===== src/Tools/Library.antt =====
-- The calls of the V2X access library that chan and addr make, in their order, and how the tools end.
-- What a call returns is a parameter of the tools; a negative number is a failure.
use ajou_etri_project.Base.{ℕ, ◌≡◌, Bool, true, false, List, [], ◌∷◌, ◌++◌, ℤ, is_negative, All}

pub data Call : Type 0 where
  wal_open : (ret : ℤ) → Call
  access_channel : (if_idx ts0 ts1 : ℕ) → Call
  get_current_channel : (if_idx : ℕ) → Call
  set_if_mac_address : (if_idx mac : ℕ) → Call
  get_if_mac_address : (if_idx : ℕ) → Call
  wal_close : Call

-- The calls made, and the exit status.
pub record Ended : Type 0 where
  pub calls : List Call
  pub status : ℤ

-- A call that neither opens nor closes the library.
abbrev pub is_use : Call → Bool
is_use (wal_open ret) = false
is_use wal_close = false
is_use _ = true

-- The library is not opened, or not opened successfully, or opened first and closed last, with nothing
-- else than uses between.
pub data Bracketed : List Call → Type 0 where
  unopened : Bracketed []
  refused : (ret : ℤ) → is_negative ret ≡ true → Bracketed (wal_open ret ∷ [])
  closed :
      (ret : ℤ) (uses : List Call)
      → is_negative ret ≡ false
      → All (λ c. is_use c ≡ true) uses
      → Bracketed (wal_open ret ∷ (uses ++ wal_close ∷ []))
