-- ===== src/Tests/Starts.antt =====
-- The start of the daemon at concrete answers.
use ajou_etri_project.Base.{
  ◌≡◌, refl, replicate, true, false, some, List, [], ◌∷◌, length, Ensures, arith, ◌>>=◌, pos, ℤ,
  suc, is_negative,
}
use ajou_etri_project.Route
use ajou_etri_project.Nms
use ajou_etri_project.Settings.{Choice, hop, metric, parse}
use ajou_etri_project.Sender.{Construct, Station}
use ajou_etri_project.Report.{delivered}
use ajou_etri_project.Reception.{wsdu}
use ajou_etri_project.Radio.{Answers}
use ajou_etri_project.Daemon.{start, heard, clock, reported, sending}
use ajou_etri_project.Daemon.Main.{
  initial_mib, Thread, netlink_thread, command_thread, hello_rann_thread, nms_send_thread,
  nms_recv_thread, Starts, running, initial, main, go_on,
}
use ajou_etri_project.Daemon.Main.Settled.{IsGood, main-IsGood}
use ajou_etri_project.Daemon.Main.Waiting.{Succeeds, made_of, wanted, main-waits}
use ajou_etri_project.Tests.Nodes.{noon}
use ajou_etri_project.Tests.Stations.{made, taken, lost, count_up, always}

-- Two interfaces with the addresses 1 and 2.
abbrev two_radios : Answers
two_radios = record {
  dot3_init = true;
  wal_open = some 2;
  if_mac_address = λ i. some (suc i);
  access_channel = λ i c. true;
  add_wsr = λ p. true;
  create = count_up;
  arms = always;
}

-- The thread for netlink cannot be made.
abbrev no_netlink : Starts
no_netlink = record {
  netlink_socket = true;
  pthread_create = λ t. elim t as (λ _. ℤ) [
    | netlink_thread ↦ pos 11
    | command_thread ↦ pos 0
    | hello_rann_thread ↦ pos 0
    | nms_send_thread ↦ pos 0
    | nms_recv_thread ↦ pos 0
  ];
}

-- The root.
abbrev as_root : List Choice
as_root = hop 0 ∷ metric 1 ∷ []

abbrev fresh : Station Construct
fresh = initial (replicate 10 Route.blank) (replicate 12 Nms.blank_row)

main-IsGood_example : Ensures IsGood (
    main two_radios true no_netlink 7 5 as_root fresh
    >>= go_on 1400 made taken (
        start noon 4
        ∷ heard noon (wsdu true 5 lost)
        ∷ clock noon
        ∷ reported delivered
        ∷ sending
        ∷ []))
main-IsGood_example =
    main-IsGood 1400 made taken two_radios true no_netlink 7 5 as_root (replicate 10 Route.blank)
      (replicate 12 Nms.blank_row)
      (start noon 4
        ∷ heard noon (wsdu true 5 lost)
        ∷ clock noon
        ∷ reported delivered
        ∷ sending
        ∷ [])
      refl refl

two_radios-Succeeds : Succeeds two_radios 2
two_radios-Succeeds = record {
  dot3 = refl;
  interfaces = refl;
  addresses = λ i. (suc i, refl);
  channels = λ i c. refl;
  psids = λ p. refl;
  timers = λ l. (length l, refl);
  settable = λ i. refl;
}

never_negative : (t : Thread) → is_negative (no_netlink.pthread_create t) ≡ false
never_negative netlink_thread = refl
never_negative command_thread = refl
never_negative hello_rann_thread = refl
never_negative nms_send_thread = refl
never_negative nms_recv_thread = refl

main-waits_example :
    (u : Station Construct) × (main two_radios true no_netlink 7 5 as_root fresh
      ≡ some (
          running
            (made_of no_netlink
              (wanted no_netlink (parse initial_mib fresh.node as_root).node.root_node))
            u))
main-waits_example =
    main-waits two_radios 2 true no_netlink 7 5 as_root fresh (omega arith) two_radios-Succeeds
      (omega arith) never_negative
