-- ===== src/Settings.antt =====
-- The start options of wsm/wsm-input-params.c and the settings of wsm/wsm.h that they fill, beside the
-- globals of the daemon that they set. An option carries what the C library and the V2X library make
-- of its argument: a number, an address, or the four numbers of an IPv4 address. The loop over
-- `getopt_long` is the recursion over the options in their order.
pub mod Precedence
use ajou_etri_project.Base.{
  ℕ, ◌+◌, ◌-◌, ◌*◌, ◌%◌, ◌^◌, Bool, true, false, List, [], ◌∷◌, ◌==◌, ltb, if◌then◌else◌,
}
use ajou_etri_project.Msg.{Addr}
use ajou_etri_project.Node.{Node}

pub data Operation : Type 0 where
  rx_only trx : Operation

pub record Mib : Type 0 where
  pub op : Operation
  pub if_num : ℕ
  pub psid : ℕ
  pub dbg : ℕ
  pub my_addr : List Addr
  pub tx_if_idx : ℕ
  pub tx_chan_num : ℕ
  pub tx_chan_num2 : ℕ
  pub tx_datarate : ℕ
  pub tx_power : ℕ
  pub tx_priority : ℕ
  pub tx_dst_mac_addr : Addr
  pub tx_wsm_body_len : ℕ
  pub tx_interval : ℕ

-- The options, as `options` of WSM_ParsingInputParameters lists them.
pub data Choice : Type 0 where
  if_idx psid chan rate power prio : ℕ → Choice
  dst : Addr → Choice
  len interval dbg root : ℕ → Choice
  ip : (a b c d : ℕ) → Choice
  metric hop log : ℕ → Choice

-- `ip_set` says whether an address was given.
pub record Setup : Type 0 where
  pub mib : Mib
  pub node : Node
  pub ip_set : Bool

-- A `uint32_t` or an `unsigned int`.
abbrev pub to_u32 : ℕ → ℕ
to_u32 n = n % 2 ^ 32

-- The address with `a` in its lowest byte.
abbrev pub ip_value : ℕ → ℕ → ℕ → ℕ → ℕ
ip_value a b c d = to_u32 (d * 2 ^ 24 + c * 2 ^ 16 + b * 2 ^ 8 + a)

unfoldable pub root_node_set : ℕ → Node → Node
root_node_set value n = if ltb value 2 then record n { root_node = value } else n

abbrev root_choice : ℕ → Node → Node
root_choice value n =
    if ltb (to_u32 value) 2 then root_node_set (to_u32 value) n else root_node_set 0 n

-- The metric of option 12; `DEFAULT_METRIC_VALUE` is 1.
abbrev pub metric_choice : ℕ → ℕ
metric_choice value = if ltb (to_u32 value) 2 then to_u32 value else 1

-- The last byte of the address that belongs to a place in the line of nodes.
abbrev pub hop_byte : ℕ → ℕ
hop_byte value = if value == 0 then 12 else if value == 1 then 13 else if value == 2 then 14 else 15

abbrev hop_choice : ℕ → Setup → Setup
hop_choice value s =
    let n = if value == 0 then root_node_set 1 s.node else s.node in
    record s {
      node = if s.ip_set then n else record n { my_ip = ip_value 192 168 20 (hop_byte value) };
    }

unfoldable pub process_option : Setup → Choice → Setup
process_option s (if_idx v) = record s { mib = record (s.mib) { tx_if_idx = to_u32 v } }
process_option s (psid v) = record s { mib = record (s.mib) { psid = v } }
process_option s (chan v) = record s { mib = record (s.mib) { tx_chan_num = v } }
process_option s (rate v) = record s { mib = record (s.mib) { tx_datarate = v } }
process_option s (power v) = record s { mib = record (s.mib) { tx_power = v } }
process_option s (prio v) = record s { mib = record (s.mib) { tx_priority = v } }
process_option s (dst a) = record s { mib = record (s.mib) { tx_dst_mac_addr = a } }
process_option s (len v) = record s { mib = record (s.mib) { tx_wsm_body_len = v } }
process_option s (interval v) = record s { mib = record (s.mib) { tx_interval = to_u32 v } }
process_option s (dbg v) = record s { mib = record (s.mib) { dbg = to_u32 v } }
process_option s (root v) = record s { node = root_choice v s.node }
process_option s (ip a b c d) = record s {
  node = record (s.node) { my_ip = ip_value a b c d };
  ip_set = true;
}
process_option s (metric v) = record s {
  node = record (s.node) { config = record (s.node.config) { metric = metric_choice v } };
}
process_option s (hop v) = hop_choice (to_u32 v) s
process_option s (log v) = record s { node = record (s.node) { nms_log_on = to_u32 v == 1 } }

abbrev pub with_defaults : Mib → Mib
with_defaults m = record m {
  op = trx;
  tx_if_idx = 0;
  psid = 32;
  tx_chan_num = 178;
  tx_chan_num2 = 172;
  tx_datarate = 12;
  tx_power = 10;
  tx_priority = 7;
  tx_wsm_body_len = 100;
  tx_interval = 50000;
  dbg = 1;
  tx_dst_mac_addr = 2 ^ 48 - 1;
}

unfoldable pub process_options : Setup → List Choice → Setup
process_options s [] = s
process_options s (o ∷ os) = process_options (process_option s o) os

-- WSM_ParsingInputParameters, after `main` has cleared the settings.
unfoldable pub parse : Mib → Node → List Choice → Setup
parse m n os = process_options (record { mib = with_defaults m; node = n; ip_set = false }) os
