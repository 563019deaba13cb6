-- ===== src/Daemon/Relay.antt =====
-- A data frame on its way over several nodes: Data_process, Data_forward and Data_send_dst of wsm/aodv.c
-- with the sending thread of wsm/wsm-tx.c. The radio takes the parameters of a frame as the frame, and
-- brings it to the node with its destination's address.
pub mod Delivery
pub mod Turns
use ajou_etri_project.Base.{
  ℕ, ◌+◌, ◌≤◌, ◌<◌, ◌≡◌, ◌≢◌, ◌⊎◌, inl, inr, refl, sym, ap, ◌∙◌, Bool, true, false, Option, none,
  some, List, [], ◌∷◌, ◌++◌, ◌==◌, ltb, if◌then◌else◌, ◌>>=◌, ◌%◌, get_or, length, arith,
  Bool-cases,
}
use ajou_etri_project.Msg.{Addr, Frame, DataMsg, aodv, data4, sizeof_data}
use ajou_etri_project.TxQueue.{Queue, deleteq, is_empty, front_slot, max_frame_len}
use ajou_etri_project.TxQueue.Refine.{IsValid, contents, frame, front_slot-deleteq}
use ajou_etri_project.Route
use ajou_etri_project.Node.{Node, Env, to_ip, route, unicast, sch}
use ajou_etri_project.Node.Make.{make_data}
use ajou_etri_project.Node.Send.{data_forward}
use ajou_etri_project.Node.Send.Destination.{send_to-Sent}
use ajou_etri_project.Node.Data.{copy_bytes, get32, data_send_dst, data_process}
use ajou_etri_project.Node.Receive.{receive}
use ajou_etri_project.Sender.{
  Construct, Transmit, Station, construct_params, transmit_params, send_slot, tx_timer_thread,
}
use ajou_etri_project.Sender.Turns.{get_elem?-some}

-- The last of a list.
abbrev pub newest {ℓ} : {A : Type ℓ} → List A → Option A
newest [] = none
newest (t ∷ []) = some t
newest (t ∷ u ∷ l) = newest (u ∷ l)

abbrev pub takes : Construct → Option Construct
takes p = some p

abbrev pub accepts : Transmit Construct → Bool
accepts t = true

-- The frame that was transmitted last, where it is for this address.
abbrev pub brought : Addr → List (Transmit Construct) → Option Frame
brought a l = newest l >>= λ t. if t.mpdu.dst_mac_addr == a then t.mpdu.payload else none

-- The frame is received by the first node; what its sending thread then sends is received by the next one,
-- and so on. The state of the last one is the result.
unfoldable pub relay : ℕ → Env → Frame → List (Station Construct) → Option (Station Construct)
relay payload_max env f [] = none
relay payload_max env f (s ∷ []) = receive env f s.node >>= λ n. some (record s { node = n })
relay payload_max env f (s ∷ t ∷ l) = do
  n ← receive env f s.node
  r ← tx_timer_thread payload_max takes accepts (record s { node = n })
  g ← brought t.node.my_mac r.sent
  relay payload_max env g (t ∷ l)

-- The IPv4 address that a data frame is for.
abbrev pub target : DataMsg → ℕ
target d = get32 d.body 16

-- A node on the way: it is not meant, nothing waits in its queue, and its route to the address goes over
-- `next`.
pub record Relays (d : DataMsg) (next : Addr) (s : Station Construct) : Type 0 where
  pub elsewhere : s.node.my_ip ≢ target d
  pub valid : IsValid s.node.tq
  pub idle : contents s.node.tq ≡ []
  pub interfaces : s.mib.tx_if_idx + 1 < length s.mib.my_addr
  pub index : ℕ
  pub found : Route.find_ip s.node.rt_t (target d) ≡ some index
  pub next_hop : (route s.node index).next_hop ≡ next

-- Each node has a route over the next one, and the last one is meant.
abbrev pub Along : DataMsg → List (Station Construct) → Type 0
Along d [] = ⊥
Along d (s ∷ []) = s.node.my_ip ≡ target d
Along d (s ∷ t ∷ l) = Relays d t.node.my_mac s × Along d (t ∷ l)
