-- ===== src/Radio.antt =====
-- The set-up of the radio: WSM_InitV2XLibs and Reset of wsm/wsm-mesh.c, and the part of its main that
-- does the same. What the V2X library and the kernel answer is a parameter.
pub mod Resetting
use ajou_etri_project.Base.{
  ℕ, zero, suc, ◌+◌, Bool, true, false, Option, none, some, List, [], ◌∷◌, ◌==◌, ltb, not,
  if◌then◌else◌, ◌>>=◌, set,
}
use ajou_etri_project.Msg.{Addr}
use ajou_etri_project.Settings.{Mib, trx, rx_only}
use ajou_etri_project.Sender.{TxTimers, init_tx_operation, release_tx_operation}

-- Whether Dot3_Init succeeds; the number of interfaces of WAL_Open, or its failure; the address of an
-- interface, or none; whether a channel can be accessed on an interface, and a PSID be added; the timer
-- that timer_create makes, and whether timer_settime succeeds.
pub record Answers : Type 0 where
  pub dot3_init : Bool
  pub wal_open : Option ℕ
  pub if_mac_address : ℕ → Option Addr
  pub access_channel : (if_idx chan_num : ℕ) → Bool
  pub add_wsr : ℕ → Bool
  pub create : List ℕ → Option ℕ
  pub arms : ℕ → Bool

-- The settings, with what the libraries hold: whether each is initialised, the calls of
-- WAL_AccessChannel that succeeded, the last first, and the sender's timers.
pub record Radio : Type 0 where
  pub mib : Mib
  pub dot3 : Bool
  pub wal : Bool
  pub accessed : List (ℕ × ℕ)
  pub tx_timers : TxTimers

module _ (a : Answers) where
  -- `none` where the call returns -1.
  unfoldable pub init_v2x_libs : Radio → Option Radio
  init_v2x_libs r = if not a.dot3_init then none else elim a.wal_open [
    | none ↦ none
    | some n ↦ some (record r { dot3 = true; wal = true; mib = record (r.mib) { if_num = n } })
  ]

  -- The addresses of `k` interfaces from `i` on; `none` where one has no address, and where `my_addr`,
  -- which has two places, has none for it.
  unfoldable pub read_addresses : (k i : ℕ) → List Addr → Option (List Addr)
  read_addresses zero i addrs = some addrs
  read_addresses (suc k) i addrs =
      if ltb i 2
      then (a.if_mac_address i >>= λ x. read_addresses k (i + 1) (set addrs i x))
      else none

  unfoldable pub access : (if_idx chan_num : ℕ) → Radio → Option Radio
  access if_idx chan_num r =
      if a.access_channel if_idx chan_num
      then some (record r { accessed = (if_idx, chan_num) ∷ r.accessed })
      else none

  abbrev pub transmits : Mib → Bool
  transmits m = elim m.op [ rx_only ↦ false | trx ↦ true ]

  unfoldable pub start_sending : Radio → Option Radio
  start_sending r =
      let t = init_tx_operation a.create a.arms r.tx_timers in
      if not (transmits r.mib)
      then some r
      else if t.0
      then some (record r { tx_timers = t.1 })
      else none

  -- From the addresses on; `none` where a step fails, after which Reset ends the program, and main
  -- releases the libraries and returns.
  unfoldable pub open_interfaces : Radio → Option Radio
  open_interfaces s = do
    addrs ← read_addresses s.mib.if_num 0 s.mib.my_addr
    let t = record s { mib = record (s.mib) { my_addr = addrs } }
    u ← access t.mib.tx_if_idx t.mib.tx_chan_num t
    v ← access 1 u.mib.tx_chan_num2 u
    if a.add_wsr v.mib.psid then start_sending v else none

  -- main, between the options and the tables; `signals` says whether the handlers of the two signals
  -- can be set.
  unfoldable pub main_set_up : (signals : Bool) → Radio → Option Radio
  main_set_up signals r = init_v2x_libs r >>= λ s. if signals then open_interfaces s else none

  -- Reset, with the globals `data_rate` and `receiving_channel`.
  unfoldable pub reset : (data_rate receiving_channel : ℕ) → Radio → Option Radio
  reset data_rate receiving_channel r =
      init_v2x_libs (record r {
        tx_timers = release_tx_operation r.tx_timers;
        dot3 = false;
        wal = false;
        mib = record (r.mib) { tx_datarate = data_rate; tx_chan_num2 = receiving_channel };
      })
      >>= open_interfaces
