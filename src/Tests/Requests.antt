-- ===== src/Tests/Requests.antt =====
-- Copies of a request, and announcements, at concrete states of the daemon.
use ajou_etri_project.Base.{
  ℕ, ◌≡◌, refl, replicate, true, false, some, List, [], ◌∷◌, ◌++◌, ◌*◌, ◌+◌, ◌>>=◌, map, length,
  All, arith, none, find_index, find_last,
}
use ajou_etri_project.Msg.{Addr, Preq, Rann, aodv, prep, sizeof_prep, sizeof_ext}
use ajou_etri_project.Route
use ajou_etri_project.Route.{is_route_to}
use ajou_etri_project.Node.{Node, Tmp, send_to, unicast, cch, set_tmp_used, prep_send}
use ajou_etri_project.Node.Send.Path.{reply}
use ajou_etri_project.Node.Run.{handle}
use ajou_etri_project.Node.RouteRequest.{tmp_at}
use ajou_etri_project.Node.RouteRequest.Waiting.{view}
use ajou_etri_project.Node.RouteRequest.Choice.{Candidate, Awaits}
use ajou_etri_project.Node.RouteRequest.Copies.{Copy, candidate, IsCopy}
use ajou_etri_project.Node.RouteRequest.Fewest.{arrive_all, IsFewest}
use ajou_etri_project.Node.RouteRequest.Answer.{enter_path, arrive_all-answered}
use ajou_etri_project.TxQueue.{addq, init_q}
use ajou_etri_project.Node.{send}
use ajou_etri_project.Node.Log.{log_if_on}
use ajou_etri_project.Node.Make.{make_rann_ack}
use ajou_etri_project.Node.Send.{rann_forward, send_rann_ack}
use ajou_etri_project.Node.Rann.{
  rann_process, follow_rann, take_metric, take_channel, take_data_rate, take_commands, answer_rann,
}
use ajou_etri_project.Node.Rann.Again.{rann_process-again}
use ajou_etri_project.Tests.Nodes.{some_node, noon, asked, slower}

-- A request of node 7 for node 1 that came over `hops` hops.
abbrev over : ℕ → Preq
over hops = record asked { hcnt = hops }

abbrev unused : Tmp
unused = record { used = false; t_preq = over 0; t_ext = [] }

-- Node 1, where the answer to the copy over the nodes 7, 8 and 5 waits.
abbrev answering : Node
answering = record some_node {
  root_node = 1;
  rt_t =
      Route.blank
      ∷ record Route.blank { dest_addr = 7; source_addr = 1; next_hop = 5; hcnt = 3; state = 1 }
      ∷ replicate 8 Route.blank;
  tmp_preq =
      unused ∷ record { used = true; t_preq = over 3; t_ext = 7 ∷ 8 ∷ 5 ∷ [] } ∷ replicate 8 unused;
}

abbrev waiting : Candidate
waiting = record { hops = 3; path = 7 ∷ 8 ∷ 5 ∷ []; next = 5 }

answering-Awaits : Awaits (view answering) 1 7 1 waiting
unfolding find_index find_last
answering-Awaits = record {
  mine = refl;
  quiet = refl;
  metric = refl;
  first = refl;
  last = refl;
  room = omega arith;
  far = omega arith;
  near = omega arith;
  whole = refl;
  hops = refl;
  via = refl;
  waits = refl;
  kept = refl;
  asker = refl;
  behind = refl;
}

-- Two more copies, the first over four hops and the second over two.
abbrev copies : List Copy
copies =
    record { env = noon; from = 4; request = over 4; ext = 7 ∷ 8 ∷ 3 ∷ 4 ∷ [] }
    ∷ record { env = noon; from = 6; request = over 2; ext = 7 ∷ 6 ∷ [] }
    ∷ []

copies-IsCopy : All (IsCopy 1 7) copies
copies-IsCopy = (
  record { mine = refl; asker = refl; far = omega arith; near = omega arith; whole = refl },
  (record { mine = refl; asker = refl; far = omega arith; near = omega arith; whole = refl }, tt),
)

arrive_all-answered_example :
    (m : Node) × (x : Candidate) × (front : List Addr) × (a : Addr) × (arrive_all copies answering
      ≡ some m)
    × IsFewest x (waiting ∷ map candidate copies)
    × (x.path ≡ front ++ a ∷ [])
    × ((tmp_at m 1).t_preq.orig_addr ≡ 7)
    × (handle noon (prep_send 1) m ≡ (
        send_to a
          (sizeof_prep + sizeof_ext * length front)
          (aodv (prep (reply (tmp_at m 1).t_preq m (length front)) front))
          unicast
          cch
          (set_tmp_used 1 false m)
        >>= enter_path (tmp_at m 1).t_preq (tmp_at m 1).t_ext))
arrive_all-answered_example =
    arrive_all-answered copies noon answering 1 7 1 waiting answering-Awaits copies-IsCopy

-- An announcement that changes no setting.
abbrev plain : Rann
plain = record slower { ttl = 2; metric = 0; data_rate = 0; recv_channel = 0 }

-- The state after it.
abbrev followed : Node
followed = elim (rann_process noon plain some_node) [ none ↦ some_node | some m ↦ m ]

follows_plain : rann_process noon plain some_node ≡ some followed
unfolding rann_process follow_rann take_metric take_channel take_data_rate take_commands answer_rann
    log_if_on rann_forward send_rann_ack make_rann_ack send send_to addq Route.find find_index
    init_q
follows_plain = refl

rann_process-again_example : rann_process noon (record plain { ttl = 1 }) followed ≡ some followed
rann_process-again_example =
    rann_process-again noon noon plain (record plain { ttl = 1 }) some_node followed
      (λ e. omega arith) follows_plain refl (omega arith)
