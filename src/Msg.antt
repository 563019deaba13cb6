-- ===== src/Msg.antt =====
-- The messages of wsm/aodv.h as they stand in a frame, and their sizes. A six-byte address is one
-- number, its first byte the most significant: `memcmp(a, b, 6) == 0` is equality, and the address
-- that `memset(…, 0, 6)` writes is 0. An IPv4 address is the `uint32_t` that holds it. The addresses
-- that follow a PREQ or a PREP (`AODV_ext`) are the list of all that the buffer holds behind it.
use ajou_etri_project.Base.{ℕ, List}

abbrev pub Addr : Type 0
Addr = ℕ

abbrev pub blank_addr : Addr
blank_addr = 0

pub record Preq : Type 0 where
  pub hcnt : ℕ
  pub dest_addr : Addr
  pub orig_addr : Addr
  pub ttl : ℕ
  pub r_ch : ℕ
  pub seqno : ℕ
  pub orig_ip : ℕ
  pub alm : ℕ

pub record Prep : Type 0 where
  pub hcnt : ℕ
  pub dest_addr : Addr
  pub dest_ip : ℕ
  pub orig_addr : Addr
  pub ext_length : ℕ
  pub orig_ip : ℕ
  pub seqno : ℕ

pub record Rann : Type 0 where
  pub orig_addr : Addr
  pub order : ℕ
  pub ttl : ℕ
  pub metric : ℕ
  pub data_rate : ℕ
  pub recv_channel : ℕ
  pub reset : ℕ
  pub log : ℕ
  pub update_period : ℕ
  pub rann_id : ℕ
  pub reset_addr : Addr

pub record RannAck : Type 0 where
  pub orig_addr : Addr
  pub next_addr : Addr
  pub alm_next_hop : ℕ

pub record Hello : Type 0 where
  pub r_ch : ℕ
  pub orig_addr : Addr
  pub orig_ip : ℕ

-- DATA with the bytes that follow it.
pub record DataMsg : Type 0 where
  pub size : ℕ
  pub body : List ℕ

pub record Perr : Type 0 where
  pub timeout_addr : Addr
  pub dest_addr : Addr

pub record PerrUni : Type 0 where
  pub timeout_addr : Addr
  pub orig_addr : Addr

-- By the type byte: 0 HELLO, 1 RANN, 2 PREQ, 3 PREP, 4 and 8 DATA, 5 PERR, 7 PERR_UNI, 9 HELLO sent
-- on the service channel, 10 RANN_ACK.
pub data Msg : Type 0 where
  hello sch_hello : Hello → Msg
  rann : Rann → Msg
  preq : Preq → List Addr → Msg
  prep : Prep → List Addr → Msg
  data4 data8 : DataMsg → Msg
  perr : Perr → Msg
  perr_uni : PerrUni → Msg
  rann_ack : RannAck → Msg

-- A frame: one message, a log record (type 6, NMSLOGINFO) with the messages logged behind it, or a
-- frame whose type byte is none of these.
pub data Frame : Type 0 where
  aodv : Msg → Frame
  nms_log : (orig_addr : Addr) (size : ℕ) → List Msg → Frame
  other : ℕ → Frame

-- `sizeof`, with the padding that the alignment of `uint32_t` asks for.
abbrev pub sizeof_preq : ℕ
sizeof_preq = 28

abbrev pub sizeof_prep : ℕ
sizeof_prep = 28

abbrev pub sizeof_ext : ℕ
sizeof_ext = 6

abbrev pub sizeof_rann : ℕ
sizeof_rann = 28

abbrev pub sizeof_rann_ack : ℕ
sizeof_rann_ack = 20

abbrev pub sizeof_hello : ℕ
sizeof_hello = 12

abbrev pub sizeof_data : ℕ
sizeof_data = 8

abbrev pub sizeof_perr : ℕ
sizeof_perr = 13

abbrev pub sizeof_perr_uni : ℕ
sizeof_perr_uni = 13

abbrev pub sizeof_nms_log_info : ℕ
sizeof_nms_log_info = 12
