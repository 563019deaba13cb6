-- ===== src/Node/Make.antt =====
-- The messages that the node builds and queues: the functions Make_msg_format_* of wsm/aodv.c, with
-- Perr_send and Perr_unicast, and Data_start2.
pub mod Keeping
use ajou_etri_project.Base.{
  ℕ, zero, suc, ◌+◌, ◌*◌, ◌%◌, Bool, true, false, Option, none, some, List, [], ◌∷◌, ◌==◌, ltb,
  if◌then◌else◌, ◌>>=◌, get_elem?,
}
use ajou_etri_project.Msg.{
  Addr, Msg, Frame, Preq, Prep, Rann, RannAck, Hello, DataMsg, Perr, PerrUni, aodv, hello,
  sch_hello, rann, preq, prep, data4, data8, perr, perr_uni, rann_ack, sizeof_preq, sizeof_prep,
  sizeof_ext, sizeof_rann, sizeof_rann_ack, sizeof_hello, sizeof_data, sizeof_perr, sizeof_perr_uni,
}
use ajou_etri_project.Node.{
  Node, Env, Cycle, half, one, one_half, broadcast, unicast, cch, sch, send, send_to, find_route,
  route,
}
use ajou_etri_project.Node.Log.{log_if_on}

-- The first `n` addresses behind a message; `none` where the buffer holds fewer.
unfoldable pub take_ext : ℕ → List Addr → Option (List Addr)
take_ext zero ext = some []
take_ext (suc n) [] = none
take_ext (suc n) (a ∷ ext) = take_ext n ext >>= λ l. some (a ∷ l)

abbrev own_hello : Node → Hello
own_hello n = record { r_ch = n.receiving_channel; orig_addr = n.my_mac; orig_ip = n.my_ip }

unfoldable pub make_hello : Node → Option Node
make_hello n = send sizeof_hello (aodv (hello (own_hello n))) broadcast cch n

unfoldable pub make_sch_hello : Node → Option Node
make_sch_hello n = send sizeof_hello (aodv (sch_hello (own_hello n))) broadcast sch n

-- 2 is fast, 1 slow, 0 the default.
abbrev pub period_code : Cycle → ℕ
period_code half = 2
period_code one_half = 1
period_code one = 0

unfoldable pub make_rann : Addr → Node → Option Node
make_rann reset_addr n =
    send sizeof_rann
      (aodv (
        rann (record {
          orig_addr = n.my_mac;
          order = n.rann_order;
          ttl = 3;
          metric = n.metric % 256;
          data_rate = n.data_rate;
          recv_channel = n.receiving_channel;
          reset = n.route_reset;
          log = if n.nms_log_on then 2 else 1;
          update_period = period_code n.update_cycle;
          rann_id = n.rann_id;
          reset_addr = reset_addr;
        })))
      broadcast cch (record n { route_reset = 0 })

unfoldable pub make_rann_ack : Addr → Addr → ℕ → Node → Option Node
make_rann_ack origin_addr next_addr alm n =
    send_to next_addr sizeof_rann_ack
      (aodv
        (rann_ack (record { orig_addr = origin_addr; next_addr = next_addr; alm_next_hop = alm })))
      unicast cch n

unfoldable pub make_preq : Addr → ℕ → Node → Option Node
make_preq dest order n =
    send (sizeof_preq + sizeof_ext)
      (aodv (
        preq
          (record {
            hcnt = 1;
            dest_addr = dest;
            orig_addr = n.my_mac;
            ttl = 4;
            r_ch = n.receiving_channel;
            seqno = order;
            orig_ip = n.my_ip;
            alm = 0;
          })
          (n.my_mac ∷ [])))
      broadcast cch n

-- The answer to a PREQ goes back along the addresses behind it: the last one is the next hop, the
-- others travel with it.
unfoldable pub make_prep : Preq → List Addr → Node → Option Node
make_prep p ext n = do
  let ext_length = (p.hcnt + 255) % 256
  path ← take_ext ext_length ext
  next ← get_elem? ext ext_length
  send_to next (sizeof_prep + sizeof_ext * ext_length)
      (aodv (
        prep
          (record {
            hcnt = 1;
            dest_addr = p.orig_addr;
            dest_ip = p.orig_ip;
            orig_addr = n.root_addr;
            ext_length = ext_length;
            orig_ip = n.my_ip;
            seqno = p.seqno % 256;
          })
          path))
      unicast cch n

unfoldable pub make_data : Addr → ℕ → List ℕ → Node → Option Node
make_data dest size body n =
    send_to dest (sizeof_data + size) (aodv (data4 (record { size = size; body = body }))) unicast
      sch n

-- Data_start2.
unfoldable pub data_start2 : Addr → ℕ → List ℕ → Node → Option Node
data_start2 dest size body n =
    send_to dest (sizeof_data + size) (aodv (data8 (record { size = size; body = body }))) unicast
      sch n

-- Perr_send.
unfoldable pub make_perr : Addr → Addr → Node → Option Node
make_perr timeout_addr dest_addr n = do
  let msg = perr (record { timeout_addr = timeout_addr; dest_addr = dest_addr })
  m ← send sizeof_perr (aodv msg) broadcast cch n
  log_if_on sizeof_perr msg m

-- With no route to the root the entry is read through NULL. The frame is queued as a broadcast.
unfoldable pub make_perr_unicast : Addr → Node → Option Node
make_perr_unicast timeout_node n = do
  i ← find_route n n.root_addr 1 n.my_mac
  send_to (route n i).next_hop sizeof_perr_uni
      (aodv (perr_uni (record { timeout_addr = timeout_node; orig_addr = n.my_mac }))) broadcast cch
      n

-- Every byte of `dest_mac_addr` is set to the low byte of the address of `root_addr`.
unfoldable pub perr_unicast : Env → Addr → Node → Option Node
perr_unicast env timeout_node n = do
  m ← make_perr_unicast timeout_node n
  some (record m { dest_mac_addr = env.root_addr_ptr * 0x010101010101 })
