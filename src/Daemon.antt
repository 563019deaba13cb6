-- ===== src/Daemon.antt =====
-- The program as a whole, of wsm/wsm-mesh.c: what `main` sets before it starts the threads, and the
-- threads that share the daemon's state, one step of one of them at a time: the receive callback, the
-- loop of Hello_Rann_thread_func, the loop of Netlink_thread_func, the sending thread, the
-- two loops that talk to the management system, and the console.
pub mod Deaf
pub mod Main
pub mod Relay
pub mod Sound
use ajou_etri_project.Base.{ℕ, ◌%◌, Bool, Option, none, some, List, [], ◌∷◌, ◌>>=◌}
use ajou_etri_project.Msg.{Addr}
use ajou_etri_project.Node.{Node, Env}
use ajou_etri_project.Reception.{Mpdu, process_rx_mpdu_callback}
use ajou_etri_project.Node.Run.{timer_timeout}
use ajou_etri_project.Report.{Incoming, receive_step, Sending, report_step}
use ajou_etri_project.Node.Console.{Choice, choose}
use ajou_etri_project.Node.Start.{rt_table_init, start_thread}
use ajou_etri_project.Settings.{Mib}
use ajou_etri_project.Netlink.{netlink_receive}
use ajou_etri_project.Sender.{Construct, Transmit, Station, tx_timer_thread}

-- From the end of the radio's set-up to the threads: the channel, the rate of the options as a
-- `uint8_t`, the log with the address that `my_mac` holds so far, and the tables.
unfoldable pub prepare : Mib → Addr → Node → Option Node
prepare m mac n = rt_table_init mac (record n {
  config = record (n.config) { receiving_channel = 172; data_rate = m.tx_datarate % 256 };
  log_orig = n.my_mac;
  log_size = 0;
  log_buff = [];
})

pub data Event : Type 0 where
  start : Env → (random : ℕ) → Event
  heard : Env → Mpdu → Event
  clock : Env → Event
  commanded : Env → Incoming → Event
  reported : Sending → Event
  chosen : Env → Choice → Event
  packet : (receive_size : ℕ) → List ℕ → Event
  sending : Event

module _ {M : Type 0} where
  abbrev pub on_node : (Node → Option Node) → Station M → Option (Station M)
  on_node f s = f s.node >>= λ n. some (record s { node = n })

module _ {M : Type 0} (payload_max : ℕ) (construct : Construct → Option M)
    (accepts : Transmit M → Bool) where
  unfoldable pub step : Event → Station M → Option (Station M)
  step (start env random) s = on_node (start_thread env random) s
  step (heard env mpdu) s = on_node (process_rx_mpdu_callback env s.mib.dbg mpdu) s
  step (clock env) s = on_node (timer_timeout env) s
  step (commanded env i) s = on_node (receive_step env i) s
  step (reported a) s =
      report_step a (s.node, s.reporter) >>= λ r. some (record s { node = r.0; reporter = r.1 })
  step (chosen env c) s = on_node (choose env c) s
  step (packet size payload) s = some (record s { node = netlink_receive size payload s.node })
  step sending s = tx_timer_thread payload_max construct accepts s

  unfoldable pub run : List Event → Station M → Option (Station M)
  run [] s = some s
  run (e ∷ es) s = step e s >>= run es

  -- `main` from the tables on, and then the threads.
  unfoldable pub launch : Addr → List Event → Station M → Option (Station M)
  launch mac es s = on_node (prepare s.mib mac) s >>= run es
