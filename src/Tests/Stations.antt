-- ===== src/Tests/Stations.antt =====
-- The program's options, its sending thread and the whole daemon at concrete states.
use ajou_etri_project.Base.{
  ℕ, ◌≡◌, refl, replicate, Bool, true, some, Option, List, [], ◌∷◌, length, arith, pos,
}
use ajou_etri_project.Msg.{Frame, other, aodv, perr}
use ajou_etri_project.TxQueue.{Queue, slot, cleared}
use ajou_etri_project.TxQueue.Refine.{frame}
use ajou_etri_project.Settings.{Mib, trx}
use ajou_etri_project.Sender.{Construct, Transmit, Station, TxTimers}
use ajou_etri_project.Sender.Turns.{Carries, Ready}
use ajou_etri_project.Sender.Delivery.{turn, post, run, run-Carries}
use ajou_etri_project.Report.{Reporter}
use ajou_etri_project.Tests.Nodes.{some_node}

abbrev pub some_mib : Mib
some_mib = record {
  op = trx;
  if_num = 2;
  psid = 32;
  dbg = 1;
  my_addr = 1 ∷ 2 ∷ [];
  tx_if_idx = 0;
  tx_chan_num = 178;
  tx_chan_num2 = 172;
  tx_datarate = 12;
  tx_power = 10;
  tx_priority = 7;
  tx_dst_mac_addr = 281474976710655;
  tx_wsm_body_len = 100;
  tx_interval = 50000;
}

abbrev no_timers : TxTimers
no_timers = record { live = []; g_tx_timer = 0 }

abbrev pub count_up : List ℕ → Option ℕ
count_up l = some (length l)

abbrev pub always : ℕ → Bool
always i = true

-- Two frames wait in a queue that was served.
abbrev pub lost : Frame
lost = aodv (perr (record { timeout_addr = 5; dest_addr = 5 }))

abbrev busy_queue : Queue Frame
busy_queue = record {
  slots =
      cleared Frame ∷ frame lost 13 0 0 ∷ frame (other 77) 40 1 1 ∷ replicate 17 (cleared Frame);
  front = slot 0;
  rear = slot 2;
}

-- The management system is connected.
abbrev pub connected : Reporter
connected = record { client = pos 6; client_ext = pos 6; row = 0; sent = [] }

abbrev busy_station : Station Construct
busy_station = record {
  node = record some_node { tq = busy_queue };
  mib = some_mib;
  sent = [];
  reporter = connected;
}

abbrev pub made : Construct → Option Construct
made p = some p

abbrev pub taken : Transmit Construct → Bool
taken t = true

busy_station-Ready : Ready 1400 busy_station
busy_station-Ready = record {
  valid = record { slots_all = refl; placed = (omega arith, omega arith) };
  served = refl;
  short = ((omega arith, omega arith), ((omega arith, omega arith), tt));
  interfaces = omega arith;
}

run-Carries_example :
    (r : Station Construct) × (run 1400 made taken busy_station
        (turn ∷ post 20 lost 0 0 ∷ turn ∷ [])
      ≡ some r)
    × Carries made (frame (other 77) 40 1 1) r.sent
run-Carries_example =
    run-Carries 1400 made taken (λ p. (p, refl)) (turn ∷ post 20 lost 0 0 ∷ turn ∷ []) busy_station
      1 busy_station-Ready (tt, ((omega arith, omega arith), (tt, tt))) refl (omega arith)

abbrev pub idle_station : Station Construct
idle_station = record { node = some_node; mib = some_mib; sent = []; reporter = connected }
