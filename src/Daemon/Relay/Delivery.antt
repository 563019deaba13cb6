-- ===== src/Daemon/Relay/Delivery.antt =====
-- A data frame reaches its target over any number of nodes.
use ajou_etri_project.Base.{
  ℕ, ◌+◌, ◌≤◌, ◌≡◌, ◌⊎◌, refl, sym, ap, ◌∙◌, true, false, Option, none, some, List, [], ◌∷◌, ◌++◌,
  ◌==◌, ltb, ◌>>=◌, ◌%◌, get_or, length, arith,
}
use ajou_etri_project.Msg.{Addr, DataMsg, aodv, data4, sizeof_data}
use ajou_etri_project.TxQueue.{max_frame_len}
use ajou_etri_project.TxQueue.Refine.{IsValid, contents, frame}
use ajou_etri_project.Route
use ajou_etri_project.Node.{Node, Env, to_ip, route, unicast, sch}
use ajou_etri_project.Node.Make.{make_data}
use ajou_etri_project.Node.Send.{data_forward}
use ajou_etri_project.Node.Send.Destination.{send_to-Sent}
use ajou_etri_project.Node.Data.{copy_bytes, get32, data_send_dst, data_process}
use ajou_etri_project.Node.Receive.{receive}
use ajou_etri_project.Sender.{Construct, Station}
use ajou_etri_project.Daemon.Relay.{newest, brought, relay, target, Relays, Along}
use ajou_etri_project.Daemon.Relay.Turns.{turn-brings}

data_forward-found :
    (dst size : ℕ) (body : List ℕ) (n : Node) (i : ℕ)
    → Route.find_ip n.rt_t dst ≡ some i
    → data_forward dst size body n ≡ (
        make_data (route n i).next_hop size body n >>= λ m.
        some (record m { data_cnt = (m.data_cnt + 1) % 4294967296 }))
unfolding data_forward
data_forward-found dst size body n i e =
    ap
      (λ (o : Option ℕ). elim o as (λ _. Option Node) [
        | none ↦ some n
        | some i ↦ make_data (route n i).next_hop size body n >>= λ m.
            some (record m { data_cnt = (m.data_cnt + 1) % 4294967296 })
      ])
      e

copy_bytes-all : (l : List ℕ) → copy_bytes (length l) l ≡ some l
unfolding copy_bytes
copy_bytes-all [] = refl
copy_bytes-all (b ∷ l) = rw (copy_bytes-all l) refl

copied : (d : DataMsg) → length d.body ≡ d.size → copy_bytes d.size d.body ≡ some d.body
copied d e = ap (λ k. copy_bytes k d.body) (sym e) ∙ copy_bytes-all d.body

-- A node on the way queues the frame for the next one.
data_process-Relays :
    (d : DataMsg) (next : Addr) (s : Station Construct)
    → Relays d next s
    → length d.body ≡ d.size
    → sizeof_data + d.size ≤ max_frame_len
    → (m : Node) × (data_process d s.node ≡ some m)
      × IsValid m.tq
      × (contents m.tq ≡ frame (aodv (data4 d)) (sizeof_data + d.size) unicast sch ∷ [])
      × (m.dest_mac_addr ≡ next)
unfolding data_process make_data
data_process-Relays d next s p c h =
    let n : Node = record (s.node) { src_ip = get32 d.body 12; dst_ip = target d } in
    let hop = (route s.node p.index).next_hop in
    let (m, run, sent) =
      send_to-Sent hop (sizeof_data + d.size) (aodv (data4 d)) unicast sch n p.valid h
        (omega (arith, ap length p.idle)) in
    let short : ltb max_frame_len (d.size + sizeof_data) ≡ false = ground arith in
    let other : (s.node.my_ip == target d) ≡ false = ground (arith, p.elsewhere) in
    let f = data_forward-found (target d) d.size d.body n p.index p.found in
    (
      record m { data_cnt = (m.data_cnt + 1) % 4294967296 },
      rw short (rw (copied d c) (rw other (rw f (rw run refl)))),
      sent.valid,
      sent.waits
          ∙ ap (λ l. l ++ frame (aodv (data4 d)) (sizeof_data + d.size) unicast sch ∷ []) p.idle,
      sent.destination ∙ p.next_hop,
    )

-- The last node hands the packet out.
data_process-target :
    (d : DataMsg) (n : Node)
    → n.my_ip ≡ target d
    → get_or d.body 9 0 ≡ 17 ⊎ get_or d.body 9 0 ≡ 6
    → length d.body ≡ d.size
    → sizeof_data + d.size ≤ max_frame_len
    → (m : Node) × (data_process d n ≡ some m)
      × (m.out ≡ to_ip (get_or d.body 9 0) d.size d.body ∷ n.out)
unfolding data_process data_send_dst
data_process-target d n e p c h =
    let short : ltb max_frame_len (d.size + sizeof_data) ≡ false = ground arith in
    let here : (n.my_ip == target d) ≡ true = ground (arith, e) in
    (
      data_send_dst d.body d.size (record n { src_ip = get32 d.body 12; dst_ip = target d }),
      rw short (rw (copied d c) (rw here refl)),
      ground (arith, p),
    )

-- Where each node on the way has a route to the frame's address over the next one, addresses for both
-- interfaces, and nothing else waiting to be sent, and where the library builds every frame up to its
-- limit, the radio takes it, and it comes to the node with its destination's address: a received data frame
-- with as many bytes behind it as its size says, UDP or TCP, that fits the queue's slots and the library,
-- reaches the node that has the address over all of them, and this hands the packet out; no node on the
-- way faults.
pub relay-delivers :
    (payload_max : ℕ) (env : Env) (d : DataMsg) (path : List (Station Construct))
    → Along d path
    → get_or d.body 9 0 ≡ 17 ⊎ get_or d.body 9 0 ≡ 6
    → length d.body ≡ d.size
    → sizeof_data + d.size ≤ max_frame_len
    → sizeof_data + d.size ≤ payload_max
    → (s : Station Construct) × (r : Station Construct) × (newest path ≡ some s)
      × (relay payload_max env (aodv (data4 d)) path ≡ some r)
      × (r.node.out ≡ to_ip (get_or d.body 9 0) d.size d.body ∷ s.node.out)
unfolding relay receive
relay-delivers payload_max env d [] a p c h k = absurd a
relay-delivers payload_max env d (s ∷ []) a p c h k =
    let (m, run, o) = data_process-target d s.node a p c h in
    (s, record s { node = m }, refl, rw run refl, o)
relay-delivers payload_max env d (s ∷ t ∷ l) (a, b) p c h k =
    let (m, run, valid, waits, to) = data_process-Relays d t.node.my_mac s a c h in
    let (u, turn, brings) =
      turn-brings payload_max (sizeof_data + d.size) (aodv (data4 d)) (record s { node = m }) valid
        waits k a.interfaces in
    let e = ap (λ x. brought x u.sent) (sym to) ∙ brings in
    let (z, r, last, rest, o) = relay-delivers payload_max env d (t ∷ l) b p c h k in
    (z, r, last, rw run (rw turn (rw e rest)), o)
