-- ===== src/Tools/Addr.antt =====
-- The tool addr/addr.c. A text is its characters. What the library answers and makes of an
-- address, and what strtoul reads, are parameters.
pub mod Status
use ajou_etri_project.Base.{
  ℕ, ◌%◌, Bool, true, false, Option, none, some, List, [], ◌∷◌, ◌++◌, leb, if◌then◌else◌, ◌>>=◌, ℤ,
  pos, negsuc, is_negative, not, to_ℕ,
}
use ajou_etri_project.Tools.Library.{
  Call, Ended, wal_open, wal_close, set_if_mac_address, get_if_mac_address,
}
use ajou_etri_project.Tools.Chan.{Text, starts_with}

-- What the library answers; `octets` is what stands in the six octets after
-- WAL_ConvertMACAddressStrToOctets was given the text, or NULL. What setting and reading an address
-- return is only printed.
pub record Answers : Type 0 where
  pub opened : ℤ
  pub octets : Option Text → ℕ

-- The arguments after the program's name: the operation, the number read from the second one, and the
-- third one, if it is there.
pub record Arguments : Type 0 where
  pub operation : Text
  pub if_idx : ℕ
  pub address : Option Text

-- "set"
abbrev pub set_word : Text
set_word = 115 ∷ 101 ∷ 116 ∷ []

module _ (a : Answers) where
  unfoldable pub operate : Arguments → (if_idx : ℕ) → Call
  operate v i =
      if starts_with v.operation set_word
      then set_if_mac_address i (a.octets v.address)
      else get_if_mac_address i

  -- `none` for the arguments is fewer than two of them.
  unfoldable pub main : (signals : Bool) → Option Arguments → Ended
  main signals none = record { calls = []; status = pos 0 }
  main signals (some v) =
      let i = v.if_idx % 256 in
      if is_negative a.opened
      then record { calls = wal_open a.opened ∷ []; status = negsuc 0 }
      else if not signals
      then record { calls = wal_open a.opened ∷ wal_close ∷ []; status = negsuc 0 }
      else if leb (to_ℕ a.opened) i
      then record { calls = wal_open a.opened ∷ wal_close ∷ []; status = a.opened }
      else record { calls = wal_open a.opened ∷ operate v i ∷ wal_close ∷ []; status = pos 0 }
