-- ===== src/Tests/Journeys.antt =====
-- A data frame over three nodes.
use ajou_etri_project.Base.{
  ℕ, ◌≡◌, refl, replicate, some, List, [], ◌∷◌, ◌++◌, arith, inl, find_index,
}
use ajou_etri_project.Msg.{Addr, DataMsg, aodv, data4}
use ajou_etri_project.TxQueue.{init_q}
use ajou_etri_project.TxQueue.Refine.{init_q-IsValid}
use ajou_etri_project.Route
use ajou_etri_project.Node.{to_ip}
use ajou_etri_project.Sender.{Construct, Station}
use ajou_etri_project.Daemon.Relay.{newest, relay, Along}
use ajou_etri_project.Daemon.Relay.Delivery.{relay-delivers}
use ajou_etri_project.Tests.Nodes.{some_node, noon}
use ajou_etri_project.Tests.Stations.{some_mib, connected}

-- A UDP packet of twenty bytes for the address 29.
abbrev packet : DataMsg
packet = record { size = 20; body = replicate 9 0 ++ 17 ∷ (replicate 6 0 ++ 29 ∷ 0 ∷ 0 ∷ 0 ∷ []) }

-- The node with a MAC address and an IPv4 address, whose route to 29 goes over a node.
abbrev node_over : (mac : Addr) (address : ℕ) (next : Addr) → Station Construct
node_over mac address next = record {
  node = record some_node {
    my_mac = mac;
    my_ip = address;
    rt_t =
        record Route.blank { dest_addr = 9; dest_ip = 29; next_hop = next; hcnt = 2; state = 1 }
        ∷ replicate 9 Route.blank;
  };
  mib = some_mib;
  sent = [];
  reporter = connected;
}

abbrev journey : List (Station Construct)
journey = node_over 1 20 5 ∷ node_over 5 21 9 ∷ node_over 9 29 9 ∷ []

journey-Along : Along packet journey
unfolding init_q Route.find_ip find_index
journey-Along = (
  record {
    elsewhere = λ e. omega arith;
    valid = init_q-IsValid;
    idle = refl;
    interfaces = omega arith;
    index = 0;
    found = refl;
    next_hop = refl;
  },
  (
    record {
      elsewhere = λ e. omega arith;
      valid = init_q-IsValid;
      idle = refl;
      interfaces = omega arith;
      index = 0;
      found = refl;
      next_hop = refl;
    },
    refl,
  ),
)

relay-delivers_example :
    (s : Station Construct) × (r : Station Construct) × (newest journey ≡ some s)
    × (relay 1400 noon (aodv (data4 packet)) journey ≡ some r)
    × (r.node.out ≡ to_ip 17 20 packet.body ∷ s.node.out)
relay-delivers_example =
    relay-delivers 1400 noon packet journey journey-Along (inl refl) refl (omega arith)
      (omega arith)
