-- ===== src/Reception.antt =====
-- The receive callback of wsm/wsm-rx.c, WSM_ProcessRxMPDUCallback with WSM_ProcessRxWSDU. What the V2X
-- library makes of an MPDU is a parameter.
use ajou_etri_project.Base.{ℕ, Bool, Option, some, ltb, if◌then◌else◌}
use ajou_etri_project.Msg.{Addr, Frame}
use ajou_etri_project.Node.{Node, Env}
use ajou_etri_project.Node.Receive.{receive_from}

-- What is received: V2X_AllocatePacketParseData fails, Dot3_ParseWSMMPDU fails, or there is a frame, with
-- its sender, for a service that was asked for or for another.
pub data Mpdu : Type 0 where
  unallocated unparsed : Mpdu
  wsdu : (interested_psid : Bool) → (src_mac_addr : Addr) → Frame → Mpdu

-- `kDbgMsgLevel_event` is 1.
unfoldable pub process_rx_wsdu :
    Env → (dbg : ℕ) → (interested_psid : Bool) → Addr → Frame → Node → Option Node
process_rx_wsdu env dbg interested_psid sender frame n =
    if ltb dbg 1
    then some n
    else if interested_psid
    then receive_from env sender frame n
    else some n

unfoldable pub process_rx_mpdu_callback : Env → (dbg : ℕ) → Mpdu → Node → Option Node
process_rx_mpdu_callback env dbg unallocated n = some n
process_rx_mpdu_callback env dbg unparsed n = some n
process_rx_mpdu_callback env dbg (wsdu i sender frame) n = process_rx_wsdu env dbg i sender frame n
