-- ===== src/Daemon/Relay/Turns.antt =====
-- What the sending thread brings to the next node.
use ajou_etri_project.Base.{
  ℕ, ◌+◌, ◌≤◌, ◌<◌, ◌≡◌, inl, inr, refl, true, false, some, List, [], ◌∷◌, ◌++◌, ◌==◌, ltb,
  if◌then◌else◌, length, arith, Bool-cases,
}
use ajou_etri_project.Msg.{Frame}
use ajou_etri_project.TxQueue.{Queue, deleteq, is_empty, front_slot}
use ajou_etri_project.TxQueue.Refine.{IsValid, contents, frame, front_slot-deleteq}
use ajou_etri_project.Node.{unicast, sch}
use ajou_etri_project.Sender.{
  Construct, Transmit, Station, construct_params, transmit_params, send_slot, tx_timer_thread,
}
use ajou_etri_project.Sender.Turns.{get_elem?-some}
use ajou_etri_project.Daemon.Relay.{newest, takes, accepts, brought}

newest-++ : {A : Type 0} (l : List A) (t : A) → newest (l ++ t ∷ []) ≡ some t
newest-++ [] t = refl
newest-++ (u ∷ []) t = refl
newest-++ (u ∷ v ∷ l) t = newest-++ (v ∷ l) t

empty_contents : (q : Queue Frame) → is_empty q ≡ true → contents q ≡ []
empty_contents q e = ground arith

-- A slot with a frame for one node on the service channel is sent to the address kept.
slot-brings :
    (payload_max len : ℕ) (f : Frame) (s : Station Construct)
    → len ≤ payload_max
    → s.mib.tx_if_idx + 1 < length s.mib.my_addr
    → (r : Station Construct) × (send_slot payload_max takes accepts s (frame f len unicast sch)
        ≡ some r)
      × (brought s.node.dest_mac_addr r.sent ≡ some f)
unfolding send_slot construct_params transmit_params
slot-brings payload_max len f s h i =
    let (src, e) = get_elem?-some s.mib.my_addr (s.mib.tx_if_idx + 1) i in
    let short : ltb payload_max len ≡ false = ground arith in
    let same : (s.node.dest_mac_addr == s.node.dest_mac_addr) ≡ true = ground arith in
    let p : Construct = record {
      chan_num = s.mib.tx_chan_num2;
      datarate = s.mib.tx_datarate;
      transmit_power = s.mib.tx_power;
      psid = s.mib.psid;
      priority = s.mib.tx_priority;
      dst_mac_addr = s.node.dest_mac_addr;
      src_mac_addr = src;
      payload = some f;
      payload_size = len;
    } in
    let t : Transmit Construct = record {
      if_idx = 1;
      mpdu = p;
      datarate = s.mib.tx_datarate;
      tx_power = s.mib.tx_power;
      chan_num = s.mib.tx_chan_num2;
    } in
    (
      record s {
        sent = s.sent ++ t ∷ [];
        node = if s.node.print_time == 2 then record (s.node) { print_time = 0 } else s.node;
      },
      rw short (rw e refl),
      rw (newest-++ s.sent t) (rw same refl),
    )

-- The only frame that waits.
pub turn-brings :
    (payload_max len : ℕ) (f : Frame) (s : Station Construct)
    → IsValid s.node.tq
    → contents s.node.tq ≡ frame f len unicast sch ∷ []
    → len ≤ payload_max
    → s.mib.tx_if_idx + 1 < length s.mib.my_addr
    → (r : Station Construct) × (tx_timer_thread payload_max takes accepts s ≡ some r)
      × (brought s.node.dest_mac_addr r.sent ≡ some f)
unfolding tx_timer_thread
turn-brings payload_max len f s v e h i = elim (Bool-cases (is_empty s.node.tq)) [
  | inl b ↦ let c = empty_contents s.node.tq b in absurd (cc)
  | inr b ↦
      let q : Queue Frame = deleteq s.node.tq in
      let w : contents s.node.tq ≡ front_slot q ∷ contents q = front_slot-deleteq v b in
      let x : front_slot q ≡ frame f len unicast sch = cc in
      let n : Station Construct = record s {
        node = record (s.node) { tq = q };
        mib = record (s.mib) { tx_wsm_body_len = len };
      } in
      let (r, run, brings) = slot-brings payload_max len f n h i in (r, rw b (rw x run), brings)
]
