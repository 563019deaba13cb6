-- ===== src/Tests/Nodes.antt =====
-- The daemon of wsm/aodv.c at a concrete state.
use ajou_etri_project.Base.{
  ℕ, zero, suc, ◌++◌, ◌>>=◌, ◌+◌, ◌*◌, ◌≤◌, ◌≡◌, refl, replicate, false, none, some, List, [], ◌∷◌,
  get_or, ◌==◌, Ensures, inl, arith,
}
use ajou_etri_project.Msg.{Addr, Preq, Prep, Rann, Perr, aodv, preq, prep, perr}
use ajou_etri_project.TxQueue.{init_q}
use ajou_etri_project.TxQueue.Refine.{init_q-IsValid, contents, frame}
use ajou_etri_project.Timer.{Timer, Timers, zero_time}
use ajou_etri_project.Route
use ajou_etri_project.Nms
use ajou_etri_project.Node.{Node, Env, Handler, one, api_reset_process, hello_timeout_process}
use ajou_etri_project.Node.{send, send_to}
use ajou_etri_project.Node.Make.{make_prep}
use ajou_etri_project.Node.Send.{preq_forward, prep_forward}
use ajou_etri_project.Node.Send.Path.{passed, reply, preq_forward-make_prep}
use ajou_etri_project.Node.Send.Destination.{send_to-send_to}
use ajou_etri_project.Node.Run.{handle}
use ajou_etri_project.Node.Sound.Handling.{handle-IsSound}
use ajou_etri_project.Node.Sound.{IsSound}
use ajou_etri_project.Node.Sound.Receiving.{receive-IsSound}
use ajou_etri_project.Node.Receive.{receive}
use ajou_etri_project.Node.RouteError.{perr_process}
use ajou_etri_project.Node.RouteError.Dropped.{IsClean, perr_process-IsClean}
use ajou_etri_project.Node.Rann.{rann_process}
use ajou_etri_project.Node.Rann.Period.{rann_process-update_cycle}
use ajou_etri_project.Node.RouteRequest.{is_repeated}
use ajou_etri_project.Node.RouteRequest.Places.{is_repeated-third}
use ajou_etri_project.Node.RouteReply.{prep_process}
use ajou_etri_project.Node.RouteReply.Faults.{prep_process-beyond}
use ajou_etri_project.Node.Control.{change, receive_command}
use ajou_etri_project.Node.Control.Allowed.{IsAllowed, receive_command-IsAllowed}
use ajou_etri_project.Node.Alm.{measure}
use ajou_etri_project.Node.Alm.Percent.{IsRing, measure-percent}

abbrev pub idle : Timer Handler
idle = record { used = false; timeout = zero_time; handler = some api_reset_process }

abbrev idle_timers : Timers Handler
idle_timers = record { timers = replicate 20 idle; tq = []; exp_tq = [] }

abbrev no_preq : Preq
no_preq = record {
  hcnt = 0;
  dest_addr = 0;
  orig_addr = 0;
  ttl = 0;
  r_ch = 0;
  seqno = 0;
  orig_ip = 0;
  alm = 0;
}

-- Node 1 after its start, with a neighbour, 5, through which it reaches the root, 9.
abbrev pub some_node : Node
some_node = record {
  root_node = 0;
  config = record { receiving_channel = 172; data_rate = 12; metric = 1 };
  route_reset = 0;
  api_reset_flag = 0;
  reboot_flag = 0;
  rann_id = 3;
  rann_order = 4;
  update_cycle = one;
  nms_log_on = false;
  nms_connection = 0;
  my_ip = 20;
  my_mac = 1;
  root_addr = 9;
  dest_mac_addr = 0;
  src_mac_addr = 5;
  config_end = false;
  command_on = false;
  timer_cnt = 0;
  data_cnt = 0;
  b_data_cnt = 0;
  print_time = 0;
  perr_rann_check = 0;
  perr_rann_node = 0;
  src_ip = 0;
  dst_ip = 0;
  rt_t =
      record Route.blank {
        dest_addr = 5;
        source_addr = 1;
        next_hop = 5;
        hcnt = 1;
        state = 1;
        hello_cnt = 3;
      }
      ∷ record Route.blank { dest_addr = 9; source_addr = 1; next_hop = 5; hcnt = 2; state = 1 }
      ∷ replicate 8 Route.blank;
  tmp_preq = replicate 10 (record { used = false; t_preq = no_preq; t_ext = [] });
  nms_t = replicate 12 Nms.blank_row;
  tq = init_q;
  timers = idle_timers;
  log_orig = 1;
  log_size = 0;
  log_buff = [];
  out = [];
}

pub unused :
    (n i : ℕ)
    → (get_or
        (replicate n idle)
        i
        (record { used = false; timeout = zero_time; handler = none })).used
      ≡ false
unused zero i = refl
unused (suc n) zero = refl
unused (suc n) (suc i) = unused n i

idle_flags :
    (i : ℕ)
    → (get_or
        (replicate 20 idle)
        i
        (record { used = false; timeout = zero_time; handler = none })).used
      ≡ false
idle_flags i = unused 20 i

pub some_node-IsSound : IsSound 0 some_node
some_node-IsSound = record {
  routes = refl;
  waiting = refl;
  rows = refl;
  queue = init_q-IsValid;
  clocks = record {
    ordered = tt;
    distinct = tt;
    distinct_exp = tt;
    apart = λ i. refl;
    flag = idle_flags;
  };
  clock_count = refl;
  expired = omega arith;
}

abbrev pub noon : Env
noon = record {
  now = record { tv_sec = 43200; tv_usec = 0 };
  stack = zero_time;
  root_addr_ptr = 64;
}

-- A request of node 7 for node 1, over node 5.
abbrev pub asked : Preq
asked = record no_preq {
  hcnt = 2;
  dest_addr = 1;
  orig_addr = 7;
  ttl = 3;
  r_ch = 174;
  seqno = 8;
  orig_ip = 27;
}

receive-IsSound_example :
    Ensures (IsSound 0) (receive noon (aodv (preq asked (7 ∷ 5 ∷ []))) some_node)
receive-IsSound_example = receive-IsSound noon (aodv (preq asked (7 ∷ 5 ∷ []))) some_node-IsSound

abbrev lost_five : Perr
lost_five = record { timeout_addr = 5; dest_addr = 5 }

perr_process-IsClean_example :
    (m : Node) × (perr_process lost_five some_node ≡ some m) × IsClean 5 10 m
perr_process-IsClean_example =
    perr_process-IsClean lost_five some_node refl (λ e. omega arith) refl refl

abbrev pub slower : Rann
slower = record {
  orig_addr = 9;
  order = 5;
  ttl = 3;
  metric = 2;
  data_rate = 12;
  recv_channel = 174;
  reset = 0;
  log = 1;
  update_period = 1;
  rann_id = 3;
  reset_addr = 0;
}

rann_process-update_cycle_example :
    Ensures (λ m. m.update_cycle ≡ some_node.update_cycle) (rann_process noon slower some_node)
rann_process-update_cycle_example = rann_process-update_cycle noon slower some_node

is_repeated-third_example :
    (is_repeated 1 3 0 0 (7 ∷ 8 ∷ 1 ∷ []) ≡ none)
    × ((d : Addr) (l : List Addr) → is_repeated 1 3 0 0 (7 ∷ 8 ∷ 1 ∷ d ∷ l) ≡ some (1 == d))
is_repeated-third_example = is_repeated-third 1 7 8 (λ e. omega arith) (λ e. omega arith)

-- The answer of the root for node 7, still two addresses from it.
abbrev answer : Prep
answer = record {
  hcnt = 1;
  dest_addr = 7;
  dest_ip = 27;
  orig_addr = 9;
  ext_length = 2;
  orig_ip = 29;
  seqno = 4;
}

prep_process-beyond_example : prep_process noon answer (7 ∷ 8 ∷ []) some_node ≡ none
prep_process-beyond_example =
    prep_process-beyond noon answer (7 ∷ 8 ∷ []) some_node refl (omega arith)

receive_command-IsAllowed_example :
    Ensures (λ m. IsAllowed m.config) (receive_command noon (change 2 24 184) some_node)
receive_command-IsAllowed_example =
    receive_command-IsAllowed noon (change 2 24 184) some_node
      (record { known_metric = omega arith; known_rate = inl refl; known_channel = refl })

abbrev heard_route : Route.Route
heard_route = record Route.blank {
  alm_buffer = 1 ∷ 0 ∷ 1 ∷ replicate 7 0;
  alm_buffer_pointer = 9;
  sch_hello_cnt = 4;
  sch_hello_detector = 2;
}

heard_route-IsRing : IsRing heard_route
heard_route-IsRing = record { bits = ground arith; places = refl; pointer = omega arith }

measure-percent_example : measure 3 heard_route ≤ 100
measure-percent_example = measure-percent 3 heard_route heard_route-IsRing

-- A request of node 7 that came over node 5, for the root, 9.
abbrev wanted : Preq
wanted = record asked { dest_addr = 9 }

preq_forward-make_prep_example :
    (preq_forward wanted (7 ∷ 5 ∷ []) some_node
      ≡ send (28 + 6 * 3) (aodv (preq (passed wanted) (7 ∷ 5 ∷ 1 ∷ []))) 0 0 some_node)
    × (make_prep (passed wanted) (7 ∷ 5 ∷ 1 ∷ []) some_node
        ≡ send_to 1
            (28 + 6 * 2)
            (aodv (prep (reply wanted some_node 2) (7 ∷ 5 ∷ [])))
            1
            0
            some_node)
    × (prep_forward (reply wanted some_node 2) (7 ∷ 5 ∷ []) some_node
        ≡ send_to 5 (28 + 6 * 1) (aodv (prep (reply wanted some_node 1) (7 ∷ []))) 1 0 some_node)
preq_forward-make_prep_example =
    preq_forward-make_prep wanted (7 ∷ []) 5 some_node some_node refl (omega arith)
      (λ e. omega arith) ((λ e. omega arith), ((λ e. omega arith), tt))

send_to-send_to_example :
    (m : Node) × ((send_to 5 13 (aodv (perr lost_five)) 1 0 some_node
        >>= send_to 8 13 (aodv (perr lost_five)) 1 0)
      ≡ some m)
    × (contents m.tq
        ≡ contents some_node.tq
          ++ frame (aodv (perr lost_five)) 13 1 0 ∷ frame (aodv (perr lost_five)) 13 1 0 ∷ [])
    × (m.dest_mac_addr ≡ 8)
unfolding init_q
send_to-send_to_example =
    send_to-send_to 5 8 13 13 (aodv (perr lost_five)) (aodv (perr lost_five)) 0 some_node
      init_q-IsValid (omega arith) (omega arith) (omega arith)

handle-IsSound_example : Ensures (IsSound 0) (handle noon hello_timeout_process some_node)
handle-IsSound_example = handle-IsSound noon hello_timeout_process some_node-IsSound
