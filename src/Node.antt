-- ===== src/Node.antt =====
-- The state of the mesh daemon: the globals of wsm/aodv.c and wsm/mesh_extern.c, and what it calls
-- on them. A function of the daemon takes the state and returns the new one; `none` is a fault: an
-- access through NULL or outside an object, or `exit`. What leaves the node other than through the
-- transmission queue is listed in `out`, the last first. Text that is printed is left out.
pub mod Keeps
pub mod Log
pub mod Make
pub mod Send
pub mod Hello
pub mod Rann
pub mod RouteRequest
pub mod RouteReply
pub mod RouteError
pub mod Data
pub mod Alm
pub mod Control
pub mod Receive
pub mod Start
pub mod Console
pub mod Run
pub mod Sound
use ajou_etri_project.Base.{
  ℕ, ◌+◌, ◌%◌, Bool, true, false, Option, none, some, List, [], ◌∷◌, ◌==◌, if◌then◌else◌, ◌>>=◌,
  get_or, modify, map,
}
use ajou_etri_project.Msg.{Addr, Msg, Frame, Preq}
use ajou_etri_project.TxQueue
use ajou_etri_project.Timer
use ajou_etri_project.Timer.{Timeval, Timers}
use ajou_etri_project.Route
use ajou_etri_project.Nms

-- `update_cycle`, of which only the values 0.5, 1 and 1.5 are stored.
pub data Cycle : Type 0 where
  half one one_half : Cycle

-- The functions that timers run, `prep_send` with the place of its PREQ in `tmp_preq`.
pub data Handler : Type 0 where
  hello_send sch_hello_send sch_hello_check rann_send alm_calculator nms_alm_calculator : Handler
  data_count hello_timeout_process perr_rann_mechanism api_reset_process : Handler
  prep_send : ℕ → Handler

abbrev pub sch_hello_timer : ℕ
sch_hello_timer = 0

abbrev pub sch_hello_check_timer : ℕ
sch_hello_check_timer = 1

abbrev pub hello_timer : ℕ
hello_timer = 2

abbrev pub rann_timer : ℕ
rann_timer = 3

abbrev pub hello_timeout_timer : ℕ
hello_timeout_timer = 4

abbrev pub alm_timer : ℕ
alm_timer = 5

abbrev pub nms_alm_timer : ℕ
nms_alm_timer = 6

abbrev pub data_timer : ℕ
data_timer = 7

abbrev pub perr_rann_timer : ℕ
perr_rann_timer = 8

abbrev pub api_reset_timer : ℕ
api_reset_timer = 9

abbrev pub route_select_timer : ℕ → ℕ
route_select_timer i = 10 + i

-- Reset() and Program_reboot() of wsm/wsm-mesh.c, `send` to the management system, and `sendto` on a
-- raw socket.
pub data Output : Type 0 where
  api_reset reboot : Output
  to_nms : (orig_addr : Addr) (size : ℕ) → List Msg → Output
  to_ip : (protocol : ℕ) (size : ℕ) → List ℕ → Output

-- struct TMP; `t_ext` has five places.
pub record Tmp : Type 0 where
  pub used : Bool
  pub t_preq : Preq
  pub t_ext : List Addr

pub record Node : Type 0 where
  pub root_node : ℕ
  pub config : Nms.Config
  pub open config use *
  pub route_reset : ℕ
  pub api_reset_flag : ℕ
  pub reboot_flag : ℕ
  pub rann_id : ℕ
  pub rann_order : ℕ
  pub update_cycle : Cycle
  pub nms_log_on : Bool
  pub nms_connection : ℕ
  pub my_ip : ℕ
  pub my_mac : Addr
  pub root_addr : Addr
  pub dest_mac_addr : Addr
  pub src_mac_addr : Addr
  pub config_end : Bool
  pub command_on : Bool
  pub timer_cnt : ℕ
  pub data_cnt : ℕ
  pub b_data_cnt : ℕ
  pub print_time : ℕ
  pub perr_rann_check : ℕ
  pub perr_rann_node : Addr
  pub src_ip : ℕ
  pub dst_ip : ℕ
  pub rt_t : Route.Table
  pub tmp_preq : List Tmp
  pub nms_t : Nms.Table
  pub tq : TxQueue.Queue Frame
  pub timers : Timers Handler
  pub log_orig : Addr
  pub log_size : ℕ
  pub log_buff : List Msg
  pub out : List Output

-- What a call meets outside the program's variables: the time, the bytes at `&now` in
-- rt_table_update, and the low byte of the address of `root_addr`.
pub record Env : Type 0 where
  pub now : Timeval
  pub stack : Timeval
  pub root_addr_ptr : ℕ

abbrev pub broadcast : ℕ
broadcast = 0

abbrev pub unicast : ℕ
unicast = 1

abbrev pub cch : ℕ
cch = 0

abbrev pub sch : ℕ
sch = 1

-- addq on the daemon's queue: the length, the frame, broadcast or unicast, the channel.
unfoldable pub send : ℕ → Frame → ℕ → ℕ → Node → Option Node
send len frame uni_type if_chan n = do
  q ← TxQueue.addq n.tq len frame uni_type if_chan
  some (record n { tq = q })

-- addq after `memcpy(dest_mac_addr, …)`: the destination of a unicast frame is a global, not a part of
-- the queued frame.
unfoldable pub send_to : Addr → ℕ → Frame → ℕ → ℕ → Node → Option Node
send_to dest len frame uni_type if_chan n =
    send len frame uni_type if_chan (record n { dest_mac_addr = dest })

unfoldable pub set_timeout : Env → ℕ → ℕ → Node → Option Node
set_timeout env timer msec n = do
  t ← Timer.timer_set_timeout env.now n.timers timer msec
  some (record n { timers = t })

unfoldable pub start_timer : ℕ → Handler → Node → Option Node
start_timer timer f n = do t ← Timer.timer_init n.timers timer f; some (record n { timers = t })

abbrev pub stop_timer : ℕ → Node → Node
stop_timer timer n = record n { timers = Timer.timer_remove n.timers timer }

abbrev pub timer_used : Node → ℕ → Bool
timer_used n timer = (Timer.timer_at n.timers timer).used

-- RANN_INTERVAL * update_cycle, in milliseconds.
abbrev pub rann_period : Cycle → ℕ
rann_period half = 2500
rann_period one = 5000
rann_period one_half = 7500

-- `config_time` is a `uint8_t` that is given the value 5000.
abbrev pub config_time : ℕ
config_time = 5000 % 256

abbrev pub find_route : Node → Addr → ℕ → Addr → Option ℕ
find_route n dest source_consider source = Route.find n.rt_t dest source_consider source

abbrev pub route : Node → ℕ → Route.Route
route n i = Route.entry n.rt_t i

abbrev pub set_tmp_used : ℕ → Bool → Node → Node
set_tmp_used i b n = record n { tmp_preq = modify n.tmp_preq i (λ t. record t { used = b }) }

-- rt_table_empty: the entry, or with 10 the table, and with it what waits in `tmp_preq`.
unfoldable pub rt_table_empty : ℕ → Node → Node
rt_table_empty index n = record n {
  rt_t = Route.empty_route n.rt_t index;
  tmp_preq =
      if index == 10
      then map {A = Tmp} (λ t. record t { used = false }) n.tmp_preq
      else modify n.tmp_preq index (λ t. record t { used = false });
}

-- nms_table_insert.
abbrev pub nms_insert : Addr → Addr → ℕ → ℕ → ℕ → Node → Node
nms_insert addr neighbor r_ch state is_hello n = record n {
  nms_t = Nms.insert n.config n.nms_t addr neighbor r_ch state is_hello;
}

-- nms_table_find, and nms_table_update of the row found or nms_table_insert of a new one.
abbrev pub nms_record : Addr → Addr → ℕ → ℕ → ℕ → Node → Node
nms_record addr neighbor r_ch state is_hello n = elim (Nms.find n.nms_t addr) [
  | none ↦ nms_insert addr neighbor r_ch state is_hello n
  | some i ↦ record n {
    nms_t = modify n.nms_t i (λ r. Nms.update n.config r neighbor r_ch state is_hello);
  }
]

-- rt_NMS_reset.
unfoldable pub rt_nms_reset : Node → Option Node
rt_nms_reset n = do
  t ← if n.root_node == 1 then Nms.empty_rows n.config n.my_mac n.nms_t 12 else some n.nms_t
  some (rt_table_empty 10 (record n { nms_t = t }))
