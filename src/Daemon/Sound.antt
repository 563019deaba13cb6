-- ===== src/Daemon/Sound.antt =====
-- The invariant of the daemon's state, over whatever its threads do.
use ajou_etri_project.Base.{
  ℕ, refl, get_elem?, Bool, Option, List, [], ◌∷◌, ◌==◌, ltb, ◌&&◌, ◌||◌, Ensures, Ensures-bind,
  Ensures-if, Ensures-elim, Ensures-any, if-elim, faults, ends,
}
use ajou_etri_project.Msg.{Addr, Frame}
use ajou_etri_project.TxQueue
use ajou_etri_project.TxQueue.{Slot}
use ajou_etri_project.TxQueue.Refine.{deleteq-IsValid}
use ajou_etri_project.Settings.{Mib}
use ajou_etri_project.Node.{Node, Env}
use ajou_etri_project.Node.Receive.{receive_from}
use ajou_etri_project.Reception.{
  Mpdu, unallocated, unparsed, wsdu, process_rx_wsdu, process_rx_mpdu_callback,
}
use ajou_etri_project.Node.Start.{start_thread}
use ajou_etri_project.Node.Run.{timer_timeout}
use ajou_etri_project.Report.{
  Reporter, Incoming, disconnected, failed, command, receive_step, Sending, delivered, accepted,
  no_listen, no_accept, begin_round, send_row, report_step,
}
use ajou_etri_project.Node.Console.{choose}
use ajou_etri_project.Node.Sound.{IsSound, same_parts, with_queue}
use ajou_etri_project.Node.Sound.Receiving.{receive-IsSound}
use ajou_etri_project.Node.Sound.Rounds.{timer_timeout-IsSound}
use ajou_etri_project.Node.Sound.Starting.{rt_table_init-IsSound, start_thread-IsSound}
use ajou_etri_project.Node.Sound.Commanding.{receive_command-IsSound, choose-IsSound}
use ajou_etri_project.Sender.{
  Construct, Transmit, Station, construct_params, transmit_params, send_slot, tx_timer_thread,
}
use ajou_etri_project.Netlink.{netlink_receive}
use ajou_etri_project.Daemon.{
  Event, start, heard, clock, commanded, reported, chosen, packet, sending, prepare, on_node, step,
  run, launch,
}

-- No expired timer waits between two steps.
abbrev pub IsSettled : {M : Type 0} → Station M → Type 0
IsSettled s = IsSound 0 s.node

pub prepare-IsSound :
    (m : Mib) (mac : Addr) {n : Node} → IsSound 0 n → Ensures (IsSound 0) (prepare m mac n)
unfolding prepare
prepare-IsSound m mac v = rt_table_init-IsSound mac (same_parts v refl)

netlink_receive-IsSound :
    (size : ℕ) (payload : List ℕ) {n : Node}
    → IsSound 0 n
    → IsSound 0 (netlink_receive size payload n)
unfolding netlink_receive
netlink_receive-IsSound size payload v =
    if-elim (IsSound 0) (ltb size 28 || ltb 4096 size) v (same_parts v refl)

receive_from-IsSound :
    (env : Env) (sender : Addr) (frame : Frame) {n : Node}
    → IsSound 0 n
    → Ensures (IsSound 0) (receive_from env sender frame n)
unfolding receive_from
receive_from-IsSound env sender frame v = receive-IsSound env frame (same_parts v refl)

callback-IsSound :
    (env : Env) (dbg : ℕ) (mpdu : Mpdu) {n : Node}
    → IsSound 0 n
    → Ensures (IsSound 0) (process_rx_mpdu_callback env dbg mpdu n)
unfolding process_rx_mpdu_callback process_rx_wsdu
callback-IsSound env dbg unallocated v = ends v
callback-IsSound env dbg unparsed v = ends v
callback-IsSound env dbg (wsdu i sender frame) v =
    Ensures-if (ltb dbg 1) (ends v)
      (Ensures-if i (receive_from-IsSound env sender frame v) (ends v))

receive_step-IsSound :
    (env : Env) (i : Incoming) {n : Node} → IsSound 0 n → Ensures (IsSound 0) (receive_step env i n)
unfolding receive_step
receive_step-IsSound env (disconnected listens accepts) v =
    Ensures-if listens (Ensures-if accepts (ends v) faults) faults
receive_step-IsSound env failed v = ends v
receive_step-IsSound env (command c) v = receive_command-IsSound env c v

abbrev IsSoundPair : Node × Reporter → Type 0
IsSoundPair s = IsSound 0 s.0

begin_round-IsSound : (n : Node) (r : Reporter) → IsSound 0 n → IsSoundPair (begin_round (n, r))
unfolding begin_round
begin_round-IsSound n r v = if-elim IsSoundPair (r.row == 0) (same_parts v refl) v

report_step-IsSound :
    (a : Sending) (n : Node) (r : Reporter)
    → IsSound 0 n
    → Ensures IsSoundPair (report_step a (n, r))
unfolding report_step send_row
report_step-IsSound delivered n r v =
    Ensures-bind
      (Ensures-any {P = λ _. Unit {0}}
        (get_elem? (begin_round (n, r)).0.nms_t (begin_round (n, r)).1.row) (λ _. tt))
      (λ x _. ends (begin_round-IsSound n r v))
report_step-IsSound (accepted fd) n r v = ends (same_parts (begin_round-IsSound n r v) refl)
report_step-IsSound no_listen n r v = faults
report_step-IsSound no_accept n r v = faults

module _ {M : Type 0} where
  pub on_node-IsSettled :
      (f : Node → Option Node) (s : Station M)
      → Ensures (IsSound 0) (f s.node)
      → Ensures IsSettled (on_node f s)
  on_node-IsSettled f s h = Ensures-bind h (λ n v. ends v)

module _ {M : Type 0} (payload_max : ℕ) (construct : Construct → Option M)
    (accepts : Transmit M → Bool) where
  send_slot-IsSettled :
      (x : Slot Frame) (s : Station M)
      → IsSettled s
      → Ensures IsSettled (send_slot payload_max construct accepts s x)
  unfolding send_slot
  send_slot-IsSettled x s v = Ensures-if (ltb payload_max x.len) faults (
      Ensures-bind (Ensures-any {P = λ _. Unit {0}} (construct_params s.mib s.node x) (λ _. tt))
        (λ p _. Ensures-elim (construct p) (ends v) (λ m. ends (
          if-elim (IsSound 0) (accepts (transmit_params s.mib x m) && s.node.print_time == 2)
            (same_parts v refl) v))))

  tx_timer_thread-IsSettled :
      (s : Station M)
      → IsSettled s
      → Ensures IsSettled (tx_timer_thread payload_max construct accepts s)
  unfolding tx_timer_thread
  tx_timer_thread-IsSettled s v =
      Ensures-if (TxQueue.is_empty s.node.tq) (ends v)
        (send_slot-IsSettled _ _ (with_queue v (deleteq-IsValid v.queue)))

  step-IsSettled :
      (e : Event) (s : Station M)
      → IsSettled s
      → Ensures IsSettled (step payload_max construct accepts e s)
  unfolding step
  step-IsSettled (start env random) s v =
      on_node-IsSettled (start_thread env random) s (start_thread-IsSound env random v)
  step-IsSettled (heard env mpdu) s v =
      on_node-IsSettled (process_rx_mpdu_callback env s.mib.dbg mpdu) s
        (callback-IsSound env s.mib.dbg mpdu v)
  step-IsSettled (clock env) s v =
      on_node-IsSettled (timer_timeout env) s (timer_timeout-IsSound env v)
  step-IsSettled (commanded env i) s v =
      on_node-IsSettled (receive_step env i) s (receive_step-IsSound env i v)
  step-IsSettled (reported a) s v =
      Ensures-bind (report_step-IsSound a s.node s.reporter v) (λ r w. ends w)
  step-IsSettled (chosen env c) s v = on_node-IsSettled (choose env c) s (choose-IsSound env c v)
  step-IsSettled (packet size payload) s v = ends (netlink_receive-IsSound size payload v)
  step-IsSettled sending s v = tx_timer_thread-IsSettled s v

  pub run-IsSettled :
      (es : List Event) (s : Station M)
      → IsSettled s
      → Ensures IsSettled (run payload_max construct accepts es s)
  unfolding run
  run-IsSettled [] s v = ends v
  run-IsSettled (e ∷ es) s v = Ensures-bind (step-IsSettled e s v) (λ r w. run-IsSettled es r w)

  -- Whatever MPDUs and packets are received, however often the timers are looked at, whatever the management
  -- system and the console ask for and the sending thread does, in whatever order: after `main` has
  -- prepared them, the variables of the daemon stay as the invariant says, with no expired timer that
  -- waits between two steps, unless a step faults.
  launch-IsSettled :
      (mac : Addr) (es : List Event) (s : Station M)
      → IsSettled s
      → Ensures IsSettled (launch payload_max construct accepts mac es s)
  unfolding launch
  launch-IsSettled mac es s v =
      Ensures-bind (on_node-IsSettled (prepare s.mib mac) s (prepare-IsSound s.mib mac v))
        (λ r w. run-IsSettled es r w)
