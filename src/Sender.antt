-- ===== src/Sender.antt =====
-- The sending thread of wsm/wsm-tx.c and the POSIX timer that runs it. What the V2X library makes of a
-- frame, an MPDU or a refusal, whether it then transmits it, and how long a payload may be
-- (`kDot3WSMPayloadSize_Max`) are parameters.
pub mod Delivery
pub mod Doubled
pub mod Turns
use ajou_etri_project.Base.{
  ℕ, ◌+◌, Bool, true, false, Option, none, some, List, [], ◌∷◌, ◌++◌, ◌==◌, ltb, ◌&&◌,
  if◌then◌else◌, ◌>>=◌, get_elem?,
}
use ajou_etri_project.Msg.{Addr, Frame}
use ajou_etri_project.TxQueue
use ajou_etri_project.TxQueue.{Slot, front_slot}
use ajou_etri_project.Timer.{unlink}
use ajou_etri_project.Node.{Node, send}
use ajou_etri_project.Settings.{Mib}
use ajou_etri_project.Report.{Reporter}

-- struct Dot3MACAndWSMConstructParams, with the payload; a slot that is still cleared has none.
pub record Construct : Type 0 where
  pub chan_num : ℕ
  pub datarate : ℕ
  pub transmit_power : ℕ
  pub psid : ℕ
  pub priority : ℕ
  pub dst_mac_addr : Addr
  pub src_mac_addr : Addr
  pub payload : Option Frame
  pub payload_size : ℕ

-- A call of WAL_TransmitMPDU.
pub record Transmit (M : Type 0) : Type 0 where
  pub if_idx : ℕ
  pub mpdu : M
  pub datarate : ℕ
  pub tx_power : ℕ
  pub chan_num : ℕ

-- The daemon's variables: `sent` is the calls of WAL_TransmitMPDU so far.
pub record Station (M : Type 0) : Type 0 where
  pub node : Node
  pub mib : Mib
  pub sent : List (Transmit M)
  pub reporter : Reporter

-- The parameters for the frame in slot `x`; `none` where `my_addr` has no such interface.
unfoldable pub construct_params : Mib → Node → Slot Frame → Option Construct
construct_params m n x = do
  src ← get_elem? m.my_addr (if x.if_num == 0 then m.tx_if_idx else m.tx_if_idx + 1)
  some (record {
    chan_num = if x.if_num == 1 then m.tx_chan_num2 else m.tx_chan_num;
    datarate = m.tx_datarate;
    transmit_power = m.tx_power;
    psid = m.psid;
    priority = m.tx_priority;
    dst_mac_addr = if x.unicast == 1 then n.dest_mac_addr else m.tx_dst_mac_addr;
    src_mac_addr = src;
    payload = x.buff;
    payload_size = x.len;
  })

module _ {M : Type 0} where
  -- The second interface for frames of the service channel.
  unfoldable pub transmit_params : Mib → Slot Frame → M → Transmit M
  transmit_params m x mpdu = record {
    if_idx = if x.if_num == 1 then 1 else m.tx_if_idx;
    mpdu = mpdu;
    datarate = m.tx_datarate;
    tx_power = m.tx_power;
    chan_num = if x.if_num == 1 then m.tx_chan_num2 else m.tx_chan_num;
  }

  module _ (payload_max : ℕ) (construct : Construct → Option M) (accepts : Transmit M → Bool) where
    -- From the choice of the slot on.
    unfoldable pub send_slot : Station M → Slot Frame → Option (Station M)
    send_slot s x =
        if ltb payload_max x.len
        then none
        else (construct_params s.mib s.node x >>= λ p. elim (construct p) [
          | none ↦ some s
          | some mpdu ↦
              let t = transmit_params s.mib x mpdu in
              some (record s {
                sent = s.sent ++ t ∷ [];
                node =
                    if accepts t && s.node.print_time == 2
                    then record (s.node) { print_time = 0 }
                    else s.node;
              })
        ])

    -- WSM_TxTimerThread.
    unfoldable pub tx_timer_thread : Station M → Option (Station M)
    tx_timer_thread s =
        if TxQueue.is_empty s.node.tq
        then some s
        else let q = TxQueue.deleteq s.node.tq in
          let x = front_slot q in
          send_slot
            (record s {
              node = record (s.node) { tq = q };
              mib = record (s.mib) { tx_wsm_body_len = x.len };
            })
            x

-- The timers of the process that exist, and `g_tx_timer`.
pub record TxTimers : Type 0 where
  pub live : List ℕ
  pub g_tx_timer : ℕ

-- `create` is the timer that timer_create makes beside those that exist, if it makes one, and
-- `arms` whether timer_settime succeeds on it; `false` where the call returns -1.
module _ (create : List ℕ → Option ℕ) (arms : ℕ → Bool) where
  unfoldable pub init_tx_timer : TxTimers → Bool × TxTimers
  init_tx_timer t = elim (create t.live) [
    | none ↦ (false, t)
    | some i ↦ (arms i, record { live = i ∷ t.live; g_tx_timer = i })
  ]

  unfoldable pub init_tx_operation : TxTimers → Bool × TxTimers
  init_tx_operation t = let (ok, u) = init_tx_timer t in if ok then init_tx_timer u else (false, u)

-- timer_delete of `g_tx_timer`.
unfoldable pub release_tx_operation : TxTimers → TxTimers
release_tx_operation t = record t { live = unlink t.g_tx_timer t.live }
