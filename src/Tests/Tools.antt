-- ===== src/Tests/Tools.antt =====
-- The radio's set-up, the packets of the kernel and the forwarder at concrete states.
use ajou_etri_project.Base.{
  ℕ, ◌+◌, ◌≡◌, refl, Bool, true, some, List, [], ◌∷◌, ◌++◌, ◌==◌, not, length, Ensures, arith,
}
use ajou_etri_project.Node.Data.{get32}
use ajou_etri_project.Radio.{Answers, Radio, reset}
use ajou_etri_project.Radio.Resetting.{IsOpen, reset-IsOpen}
use ajou_etri_project.Netlink.{
  Kernel, pre_routing, nf_accept, bytes32, udp_dest, hooking, netlink_receive,
}
use ajou_etri_project.Netlink.Passing.{netlink_receive-hooking}
use ajou_etri_project.Udpfwd.{Interface, wave_data0}
use ajou_etri_project.Tests.Nodes.{some_node}
use ajou_etri_project.Tests.Stations.{some_mib, count_up, always}

abbrev two_interfaces : Answers
two_interfaces = record {
  dot3_init = true;
  wal_open = some 2;
  if_mac_address = λ i. some (i + 1);
  access_channel = λ i c. true;
  add_wsr = λ p. true;
  create = count_up;
  arms = always;
}

-- After the start, with its two timers.
abbrev running : Radio
running = record {
  mib = some_mib;
  dot3 = true;
  wal = true;
  accessed = [];
  tx_timers = record { live = 1 ∷ 0 ∷ []; g_tx_timer = 1 };
}

reset-IsOpen_example :
    Ensures
      (λ s.
        IsOpen (record some_mib { tx_datarate = 18; tx_chan_num2 = 174 }) s
        × (length s.tx_timers.live ≡ 3))
      (reset two_interfaces 18 174 running)
reset-IsOpen_example = reset-IsOpen two_interfaces 18 174 running refl refl

-- A UDP packet to port 80 from 10.0.0.1 to 10.0.0.2.
abbrev some_packet : List ℕ
some_packet =
    69 ∷ 0 ∷ 0 ∷ 28 ∷ 0 ∷ 0 ∷ 0 ∷ 0 ∷ 64 ∷ 17 ∷ 0 ∷ 0 ∷ 10 ∷ 0 ∷ 0 ∷ 1 ∷ 10 ∷ 0 ∷ 0 ∷ 2 ∷ 0 ∷ 99 ∷ 0
    ∷ 80 ∷ 0 ∷ 8 ∷ 0 ∷ 0 ∷ []

abbrev listening : Kernel
listening = record { pid = 77; sent = [] }

netlink_receive-hooking_example :
    (hooking (λ i. true) (λ p m. true) pre_routing some_packet listening
      ≡ some (nf_accept, record listening { sent = (77, bytes32 28 ++ some_packet) ∷ [] }))
    × ((netlink_receive 48 (bytes32 28 ++ some_packet) some_node).src_ip ≡ get32 some_packet 12)
    × ((netlink_receive 48 (bytes32 28 ++ some_packet) some_node).dst_ip ≡ get32 some_packet 16)
unfolding udp_dest
netlink_receive-hooking_example =
    netlink_receive-hooking (λ i. true) (λ p m. true) some_packet 48 listening some_node refl
      (λ e. omega arith) (λ e. omega arith) refl refl (omega arith) (omega arith)

abbrev not_nine : List ℕ → Bool
not_nine b = not (length b == 9)

abbrev wave : Interface
wave = record { ifa_name = wave_data0; ifa_addr = some (2, 7) }
