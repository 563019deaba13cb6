-- ===== src/Daemon/Main/Settled.antt =====
-- The invariant of the daemon's state from the start of the program on.
use ajou_etri_project.Base.{
  ℕ, ◌≡◌, refl, ◌∙◌, zero, suc, replicate, false, Bool, Option, none, List, [], ◌∷◌, Ensures,
  Ensures-bind, Ensures-if, Ensures-elim, ends, length, get_or, arith, if-elim, if◌then◌else◌,
  ◌>>=◌, Option-elim, ltb, ◌==◌,
}
use ajou_etri_project.Msg.{Addr}
use ajou_etri_project.Route
use ajou_etri_project.Nms
use ajou_etri_project.Timer.{Timer, zero_time}
use ajou_etri_project.Node.{Node, Handler}
use ajou_etri_project.Node.Sound.{IsSound, parts, same_parts}
use ajou_etri_project.Settings.{
  Mib, Choice, Setup, if_idx, psid, chan, rate, power, prio, dst, len, interval, dbg, root, ip,
  metric, hop, log, root_node_set, to_u32, process_option, process_options, parse, with_defaults,
}
use ajou_etri_project.Sender.{Construct, Transmit, Station}
use ajou_etri_project.Radio.{Answers, init_v2x_libs, open_interfaces}
use ajou_etri_project.Daemon.{Event, prepare}
use ajou_etri_project.Daemon.Sound.{IsSettled, on_node-IsSettled, prepare-IsSound, run-IsSettled}
use ajou_etri_project.Daemon.Main.{
  initial_mib, Starts, Going, usage, refused, released, exited, running, initial, initial_node,
  initial_radio, start_threads, start_daemon, main, go_on,
}

root_node_set-parts : (v : ℕ) (n : Node) → parts (root_node_set v n) ≡ parts n
unfolding root_node_set
root_node_set-parts v n = ground arith

-- The root's flag after a place in the line.
abbrev hop_node : ℕ → Node → Node
hop_node v n = if to_u32 v == 0 then root_node_set 1 n else n

process_option-parts : (s : Setup) (o : Choice) → parts (process_option s o).node ≡ parts s.node
unfolding process_option
process_option-parts s (if_idx v) = refl
process_option-parts s (psid v) = refl
process_option-parts s (chan v) = refl
process_option-parts s (rate v) = refl
process_option-parts s (power v) = refl
process_option-parts s (prio v) = refl
process_option-parts s (dst a) = refl
process_option-parts s (len v) = refl
process_option-parts s (interval v) = refl
process_option-parts s (dbg v) = refl
process_option-parts s (root v) =
    if-elim (λ (n : Node). parts n ≡ parts s.node) (ltb (to_u32 v) 2)
      (root_node_set-parts (to_u32 v) s.node) (root_node_set-parts 0 s.node)
process_option-parts s (ip a b c d) = refl
process_option-parts s (metric v) = refl
process_option-parts s (hop v) =
    let e : parts (hop_node v s.node) ≡ parts s.node =
      if-elim (λ (n : Node). parts n ≡ parts s.node) (to_u32 v == 0) (root_node_set-parts 1 s.node)
        refl in
    if-elim (λ (n : Node). parts n ≡ parts s.node) s.ip_set e e
process_option-parts s (log v) = refl

process_options-parts :
    (s : Setup) (os : List Choice) → parts (process_options s os).node ≡ parts s.node
unfolding process_options
process_options-parts s [] = refl
process_options-parts s (o ∷ os) =
    process_options-parts (process_option s o) os ∙ process_option-parts s o

parse-IsSound :
    (m : Mib) (os : List Choice) {n : Node} → IsSound 0 n → IsSound 0 (parse m n os).node
unfolding parse
parse-IsSound m os {n} v =
    same_parts v
      (process_options-parts (record { mib = with_defaults m; node = n; ip_set = false }) os)

abbrev idle : Timer Handler
idle = record { used = false; timeout = zero_time; handler = none }

replicate-unused : (k i : ℕ) → (get_or (replicate k idle) i idle).used ≡ false
replicate-unused zero i = refl
replicate-unused (suc k) zero = refl
replicate-unused (suc k) (suc i) = replicate-unused k i

initial_node-IsSound :
    (rt_list : Route.Table) (nms_list : Nms.Table)
    → length rt_list ≡ 10
    → length nms_list ≡ 12
    → IsSound 0 (initial_node rt_list nms_list)
initial_node-IsSound rt_list nms_list h k = record {
  routes = h;
  waiting = refl;
  rows = k;
  queue = record { slots_all = refl; placed = (omega arith, omega arith) };
  clocks = record {
    ordered = tt;
    distinct = tt;
    distinct_exp = tt;
    apart = λ i. refl;
    flag = replicate-unused 20;
  };
  clock_count = refl;
  expired = omega arith;
}

-- The daemon's variables are as the invariant says, if main waits.
abbrev pub IsGood : {M : Type 0} → Going M → Type 0
IsGood (running l s) = IsSettled s
IsGood usage = Unit
IsGood refused = Unit
IsGood released = Unit
IsGood exited = Unit

module _ {M : Type 0} where
  start_daemon-IsGood :
      (b : Starts) (mac : Addr) (s : Station M)
      → IsSettled s
      → Ensures IsGood (start_daemon b mac s)
  unfolding start_daemon
  start_daemon-IsGood b mac s v =
      Ensures-bind (on_node-IsSettled (prepare s.mib mac) s (prepare-IsSound s.mib mac v))
        (λ u w. ends (Option-elim IsGood (start_threads b u.node.root_node) tt (λ l. w)))

  main_waits-IsGood :
      (a : Answers) (signals : Bool) (b : Starts) (mac : Addr) (argc : ℕ) (os : List Choice)
      (s : Station M)
      → IsSettled s
      → Ensures IsGood (main a signals b mac argc os s)
  unfolding main
  main_waits-IsGood a signals b mac argc os s v =
      let p = parse initial_mib s.node os in
      Ensures-if (ltb argc 2) (ends tt) (
        Ensures-elim (init_v2x_libs a (initial_radio p.mib)) (ends tt) (λ r.
          Ensures-elim (if signals then open_interfaces a r else none) (ends tt) (λ u.
            start_daemon-IsGood b mac (record s { mib = u.mib; node = p.node })
              (parse-IsSound initial_mib os v))))

module _ {M : Type 0} (payload_max : ℕ) (construct : Construct → Option M)
    (accepts : Transmit M → Bool) where
  go_on-IsGood :
      (es : List Event) (e : Going M)
      → IsGood e
      → Ensures IsGood (go_on payload_max construct accepts es e)
  unfolding go_on
  go_on-IsGood es (running l s) v =
      Ensures-bind (run-IsSettled payload_max construct accepts es s v) (λ u w. ends w)
  go_on-IsGood es usage v = ends tt
  go_on-IsGood es refused v = ends tt
  go_on-IsGood es released v = ends tt
  go_on-IsGood es exited v = ends tt

  -- Whatever the options are and the libraries and the kernel answer, whatever the tables hold that main does
  -- not initialise, and whatever the threads, the timers and the receive callback then do, in whatever order:
  -- where main gets to wait, the daemon's variables stay as the invariant says (ten routes, ten waiting
  -- requests, twelve rows, twenty timers, a valid transmission queue and a valid timer queue), with no expired
  -- timer that waits between two steps, unless a step faults.
  pub main-IsGood :
      (a : Answers) (signals : Bool) (b : Starts) (mac : Addr) (argc : ℕ) (os : List Choice)
      (rt_list : Route.Table) (nms_list : Nms.Table) (es : List Event)
      → length rt_list ≡ 10
      → length nms_list ≡ 12
      → Ensures IsGood (
          main a signals b mac argc os (initial rt_list nms_list)
          >>= go_on payload_max construct accepts es)
  main-IsGood a signals b mac argc os rt_list nms_list es h k =
      Ensures-bind
        (main_waits-IsGood a signals b mac argc os (initial rt_list nms_list)
          (initial_node-IsSound rt_list nms_list h k))
        (λ e v. go_on-IsGood es e v)
