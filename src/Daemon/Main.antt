-- ===== src/Daemon/Main.antt =====
-- `main` of wsm/wsm-mesh.c up to its last loop: the options, the radio, the tables and the threads. What
-- the libraries and the kernel answer is a parameter.
pub mod Settled
pub mod Waiting
use ajou_etri_project.Base.{
  ℕ, ◌^◌, ◌-◌, Bool, true, false, Option, none, some, List, [], ◌∷◌, ◌++◌, ◌==◌, ltb, if◌then◌else◌,
  ◌>>=◌, ℤ, pos, is_negative, is_positive, replicate,
}
use ajou_etri_project.Msg.{Addr, Preq, Frame}
use ajou_etri_project.TxQueue.{slot, max_queue, cleared}
use ajou_etri_project.Timer.{zero_time}
use ajou_etri_project.Route
use ajou_etri_project.Nms
use ajou_etri_project.Node.{Node, one}
use ajou_etri_project.Settings.{Mib, Choice, rx_only, parse}
use ajou_etri_project.Sender.{Construct, Transmit, Station}
use ajou_etri_project.Radio.{Answers, Radio, init_v2x_libs, open_interfaces}
use ajou_etri_project.Daemon.{Event, on_node, prepare, run}

pub data Thread : Type 0 where
  netlink_thread command_thread hello_rann_thread nms_send_thread nms_recv_thread : Thread

-- Whether the netlink socket opens, and what pthread_create returns.
pub record Starts : Type 0 where
  pub netlink_socket : Bool
  pub pthread_create : Thread → ℤ

-- A thread more, if it is made; `none` is `exit(0)`.
unfoldable pub create : Starts → Thread → List Thread → Option (List Thread)
create b t running =
    let thr_rc = b.pthread_create t in
    if is_negative thr_rc
    then none
    else if is_positive thr_rc
    then some running
    else some (running ++ t ∷ [])

-- The threads that run when main waits.
unfoldable pub start_threads : Starts → (root_node : ℕ) → Option (List Thread)
start_threads b root_node = do
  l ← if b.netlink_socket then create b netlink_thread [] else some []
  m ← create b command_thread l
  k ← create b hello_rann_thread m
  if root_node == 1 then (create b nms_send_thread k >>= create b nms_recv_thread) else some k

-- How main goes: it shows its usage, cannot set the libraries up, releases them again (so too where
-- there are three interfaces and `my_addr` has two places), ends by `exit(0)`, or waits while threads run.
pub data Going (M : Type 0) : Type 0 where
  usage refused released exited : Going M
  running : List Thread → Station M → Going M

-- The variables before main. `rt_list` and `nms_list` are not initialised.
abbrev pub no_preq : Preq
no_preq = record {
  hcnt = 0;
  dest_addr = 0;
  orig_addr = 0;
  ttl = 0;
  r_ch = 0;
  seqno = 0;
  orig_ip = 0;
  alm = 0;
}

abbrev pub initial_node : Route.Table → Nms.Table → Node
initial_node rt_list nms_list = record {
  root_node = 0;
  config = record { receiving_channel = 172; data_rate = 12; metric = 1 };
  route_reset = 0;
  api_reset_flag = 0;
  reboot_flag = 0;
  rann_id = 0;
  rann_order = 0;
  update_cycle = one;
  nms_log_on = false;
  nms_connection = 0;
  my_ip = 0;
  my_mac = 0;
  root_addr = 0;
  dest_mac_addr = 2 ^ 48 - 1;
  src_mac_addr = 0x000102030405;
  config_end = false;
  command_on = false;
  timer_cnt = 0;
  data_cnt = 0;
  b_data_cnt = 0;
  print_time = 0;
  perr_rann_check = 0;
  perr_rann_node = 0;
  src_ip = 0;
  dst_ip = 0;
  rt_t = rt_list;
  tmp_preq = replicate 10 (record { used = false; t_preq = no_preq; t_ext = [] });
  nms_t = nms_list;
  tq = record { slots = replicate max_queue (cleared Frame); front = slot 0; rear = slot 0 };
  timers = record {
    timers = replicate 20 (record { used = false; timeout = zero_time; handler = none });
    tq = [];
    exp_tq = [];
  };
  log_orig = 0;
  log_size = 0;
  log_buff = [];
  out = [];
}

abbrev pub initial_mib : Mib
initial_mib = record {
  op = rx_only;
  if_num = 0;
  psid = 0;
  dbg = 0;
  my_addr = 0 ∷ 0 ∷ [];
  tx_if_idx = 0;
  tx_chan_num = 0;
  tx_chan_num2 = 0;
  tx_datarate = 0;
  tx_power = 0;
  tx_priority = 0;
  tx_dst_mac_addr = 0;
  tx_wsm_body_len = 0;
  tx_interval = 0;
}

abbrev pub initial_radio : Mib → Radio
initial_radio m = record {
  mib = m;
  dot3 = false;
  wal = false;
  accessed = [];
  tx_timers = record { live = []; g_tx_timer = 0 };
}

module _ {M : Type 0} where
  abbrev pub initial : Route.Table → Nms.Table → Station M
  initial rt_list nms_list = record {
    node = initial_node rt_list nms_list;
    mib = initial_mib;
    sent = [];
    reporter = record { client = pos 0; client_ext = pos 0; row = 0; sent = [] };
  }

  -- From the tables on; `none` is a fault.
  unfoldable pub start_daemon : Starts → Addr → Station M → Option (Going M)
  start_daemon b mac s = do
    u ← on_node (prepare s.mib mac) s
    some (elim (start_threads b u.node.root_node) [ none ↦ exited | some l ↦ running l u ])

  -- main, which clears the settings first; `signals` says whether the handlers of the two signals can be
  -- set, and `os` are the options among the `argc` words.
  unfoldable pub main :
      Answers → Bool → Starts → Addr → (argc : ℕ) → List Choice → Station M → Option (Going M)
  main a signals b mac argc os s =
      let p = parse initial_mib s.node os in
      if ltb argc 2 then some usage else elim (init_v2x_libs a (initial_radio p.mib)) [
        | none ↦ some refused
        | some r ↦ elim (if signals then open_interfaces a r else none) [
          | none ↦ some released
          | some u ↦ start_daemon b mac (record s { mib = u.mib; node = p.node })
        ]
      ]

-- What the threads, the timers and the callback do while main waits.
module _ {M : Type 0} (payload_max : ℕ) (construct : Construct → Option M)
    (accepts : Transmit M → Bool) where
  unfoldable pub go_on : List Event → Going M → Option (Going M)
  go_on es (running l s) = run payload_max construct accepts es s >>= λ u. some (running l u)
  go_on es usage = some usage
  go_on es refused = some refused
  go_on es released = some released
  go_on es exited = some exited
