-- ===== src/Tests/Reports.antt =====
-- The reports to the management system, the receive callback and the tools at concrete inputs.
use ajou_etri_project.Base.{
  ◌≡◌, refl, true, some, none, [], ◌∷◌, ◌++◌, map, pos, negsuc, replicate, Ensures, arith,
}
use ajou_etri_project.Node.{Node}
use ajou_etri_project.Report.{Reporter, delivered, accepted}
use ajou_etri_project.Report.Rounds.{report_rows, to_arrive, report_rows-sent}
use ajou_etri_project.Report.Stale.{reconnected-client_ext}
use ajou_etri_project.Settings.{dbg, root, parse}
use ajou_etri_project.Sender.{Construct, Station}
use ajou_etri_project.Reception.{wsdu}
use ajou_etri_project.Daemon
use ajou_etri_project.Daemon.Deaf.{hear, run-parse}
use ajou_etri_project.Tools.Library.{Bracketed}
use ajou_etri_project.Tools.Chan
use ajou_etri_project.Tools.Chan.Closing.{main-Bracketed}
use ajou_etri_project.Udpfwd.{Interface, wave_data0}
use ajou_etri_project.Udpfwd.Sockets
use ajou_etri_project.Udpfwd.Sockets.{no_sockets}
use ajou_etri_project.Tests.Nodes.{some_node, noon}
use ajou_etri_project.Tests.Stations.{some_mib, connected, made, taken, lost, idle_station}

report_rows-sent_example :
    (m : Node) × (q : Reporter) × (report_rows
        (delivered ∷ accepted 9 ∷ delivered ∷ [])
        (some_node, connected)
      ≡ some (m, q))
    × (q.sent
        ≡ connected.sent
          ++ to_arrive some_node.nms_t connected.client 0 (delivered ∷ accepted 9 ∷ delivered ∷ []))
    × (m.nms_t ≡ some_node.nms_t)
report_rows-sent_example =
    report_rows-sent (delivered ∷ accepted 9 ∷ delivered ∷ []) some_node connected 0
      (tt, (tt, (tt, tt))) (omega arith) refl

-- The third row is lost.
abbrev third : Reporter
third = record connected { row = 2 }

reconnected-client_ext_example :
    (m : Node) × (q : Reporter) × (report_rows
        (accepted 9 ∷ replicate 3 delivered)
        (some_node, third)
      ≡ some (m, q))
    × (m.nms_connection ≡ 1)
    × (q.client ≡ pos 9)
    × (q.client_ext ≡ third.client)
reconnected-client_ext_example =
    reconnected-client_ext 3 9 some_node third (omega arith) (omega arith) (omega arith) refl

abbrev deaf_station : Station Construct
deaf_station = record idle_station {
  mib = (parse some_mib some_node (dbg 2 ∷ dbg 0 ∷ root 1 ∷ [])).mib;
}

run-parse_example :
    Daemon.run 1400 made taken (map hear ((noon, wsdu true 5 lost) ∷ [])) deaf_station
    ≡ some deaf_station
run-parse_example =
    run-parse 1400 made taken some_mib some_node (dbg 2 ∷ []) (root 1 ∷ []) 0 deaf_station
      ((noon, wsdu true 5 lost) ∷ []) (refl, tt) refl refl

abbrev two_radios : Chan.Answers
two_radios = record { opened = pos 2; access = λ i a b. pos 0; current = λ i. negsuc 4 }

main-Bracketed_example :
    Ensures
      (λ r. Bracketed r.calls)
      (Chan.main two_radios true (some Chan.check_word) (Chan.found 3 none ∷ []))
main-Bracketed_example =
    main-Bracketed two_radios true (some Chan.check_word) (Chan.found 3 none ∷ [])

abbrev all_open : Sockets.Answers
all_open = record {
  src_socket = true;
  src_device = true;
  src_bind = true;
  bcast_socket = true;
  bcast_device = true;
  bcast_flag = true;
}

abbrev wave_interface : Interface
wave_interface = record { ifa_name = wave_data0; ifa_addr = some (2, 77) }
