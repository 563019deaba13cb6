-- ===== src/Daemon/Main/Waiting.antt =====
-- The start of the program where the calls it depends on succeed.
use ajou_etri_project.Base.{
  ℕ, zero, suc, ◌+◌, ◌≤◌, ltb, ◌≡◌, refl, ◌∙◌, ap, Bool, true, false, Option, none, some, List, [],
  ◌∷◌, ◌++◌, ◌==◌, if◌then◌else◌, is_negative, is_positive, arith, set, Bool-cases, inl, inr,
}
use ajou_etri_project.Msg.{Addr}
use ajou_etri_project.Nms
use ajou_etri_project.Settings.{Choice, parse}
use ajou_etri_project.Sender.{Station, TxTimers, init_tx_timer, init_tx_operation}
use ajou_etri_project.Node.{Node, rt_table_empty}
use ajou_etri_project.Node.Start.{rt_table_init}
use ajou_etri_project.Radio.{
  Answers, Radio, init_v2x_libs, read_addresses, access, transmits, start_sending, open_interfaces,
}
use ajou_etri_project.Daemon.{prepare}
use ajou_etri_project.Daemon.Main.{
  initial_mib, Thread, netlink_thread, command_thread, hello_rann_thread, nms_send_thread,
  nms_recv_thread, Starts, running, released, create, start_threads, start_daemon, main,
  initial_radio,
}

-- The threads of the list that are made.
abbrev pub made_of : Starts → List Thread → List Thread
made_of b [] = []
made_of b (t ∷ l) = if is_positive (b.pthread_create t) then made_of b l else t ∷ made_of b l

-- The threads that main starts.
abbrev pub wanted : Starts → ℕ → List Thread
wanted b root_node =
    (if b.netlink_socket then netlink_thread ∷ [] else [])
    ++ command_thread
      ∷ hello_rann_thread
      ∷ (if root_node == 1 then nms_send_thread ∷ nms_recv_thread ∷ [] else [])

start_threads-made_of :
    (b : Starts) (root_node : ℕ)
    → ((t : Thread) → is_negative (b.pthread_create t) ≡ false)
    → start_threads b root_node ≡ some (made_of b (wanted b root_node))
unfolding start_threads create
start_threads-made_of b root_node h = ground (
  arith,
  h netlink_thread,
  h command_thread,
  h hello_rann_thread,
  h nms_send_thread,
  h nms_recv_thread,
)

-- The libraries start with `count` interfaces, each has an address, every channel can be accessed and
-- every PSID added, and timers can be made and set.
pub record Succeeds (a : Answers) (count : ℕ) : Type 0 where
  pub dot3 : a.dot3_init ≡ true
  pub interfaces : a.wal_open ≡ some count
  pub addresses : (i : ℕ) → (x : Addr) × (a.if_mac_address i ≡ some x)
  pub channels : (i c : ℕ) → a.access_channel i c ≡ true
  pub psids : (p : ℕ) → a.add_wsr p ≡ true
  pub timers : (l : List ℕ) → (i : ℕ) × (a.create l ≡ some i)
  pub settable : (i : ℕ) → a.arms i ≡ true

module _ (a : Answers) (count : ℕ) (s : Succeeds a count) where
  init_v2x_libs-succeeds :
      (r : Radio) → (t : Radio) × (init_v2x_libs a r ≡ some t) × (t.mib.if_num ≡ count)
  unfolding init_v2x_libs
  init_v2x_libs-succeeds r = (
    record r { dot3 = true; wal = true; mib = record (r.mib) { if_num = count } },
    rw s.dot3 (rw s.interfaces refl),
    refl,
  )

  read_addresses-succeeds :
      (k i : ℕ) (l : List Addr) → i + k ≤ 2 → (m : List Addr) × (read_addresses a k i l ≡ some m)
  unfolding read_addresses
  read_addresses-succeeds zero i l h = (l, refl)
  read_addresses-succeeds (suc k) i l h =
      let (x, e) = s.addresses i in
      let (m, run) = read_addresses-succeeds k (i + 1) (set l i x) (omega arith) in
      (m, ground (arith, e, run))

  init_tx_timer-succeeds :
      (t : TxTimers) → (u : TxTimers) × (init_tx_timer a.create a.arms t ≡ (true, u))
  unfolding init_tx_timer
  init_tx_timer-succeeds t =
      let (i, e) = s.timers t.live in
      (
        record { live = i ∷ t.live; g_tx_timer = i },
        ap
              (λ (o : Option ℕ). elim o as (λ _. Bool × TxTimers) [
                | none ↦ (false, t)
                | some i ↦ (a.arms i, record { live = i ∷ t.live; g_tx_timer = i })
              ])
              e
            ∙ ap (λ (c : Bool). (c, record { live = i ∷ t.live; g_tx_timer = i })) (s.settable i),
      )

  init_tx_operation-succeeds :
      (t : TxTimers) → (u : TxTimers) × (init_tx_operation a.create a.arms t ≡ (true, u))
  unfolding init_tx_operation
  init_tx_operation-succeeds t =
      let (u, e) = init_tx_timer-succeeds t in let (v, f) = init_tx_timer-succeeds u in (v, rw e f)

  start_sending-succeeds : (r : Radio) → (t : Radio) × (start_sending a r ≡ some t)
  unfolding start_sending
  start_sending-succeeds r = elim (Bool-cases (transmits a r.mib)) [
    | inl e ↦
        let (u, run) = init_tx_operation-succeeds r.tx_timers in
        (record r { tx_timers = u }, rw e (rw run refl))
    | inr e ↦ (r, rw e refl)
  ]

  access-succeeds :
      (i c : ℕ) (r : Radio) → access a i c r ≡ some (record r { accessed = (i, c) ∷ r.accessed })
  unfolding access
  access-succeeds i c r = rw (s.channels i c) refl

  open_interfaces-succeeds :
      (r : Radio) → r.mib.if_num ≤ 2 → (t : Radio) × (open_interfaces a r ≡ some t)
  unfolding open_interfaces
  open_interfaces-succeeds r h =
      let (l, e) = read_addresses-succeeds r.mib.if_num 0 r.mib.my_addr (omega arith) in
      let r1 : Radio = record r { mib = record (r.mib) { my_addr = l } } in
      let r2 : Radio = record r1 { accessed = (r.mib.tx_if_idx, r.mib.tx_chan_num) ∷ r.accessed } in
      let r3 : Radio = record r1 { accessed = (1, r.mib.tx_chan_num2) ∷ r2.accessed } in
      let (t, run) = start_sending-succeeds r3 in
      (
        t,
        rw e (
            rw (access-succeeds r.mib.tx_if_idx r.mib.tx_chan_num r1)
              (rw (access-succeeds 1 r.mib.tx_chan_num2 r2) (rw (s.psids r.mib.psid) run))),
      )

-- The tables are prepared without a fault.
prepare-ends :
    {M : Type 0} (mac : Addr) (x : Station M)
    → (n : Node) × (prepare x.mib mac x.node ≡ some n) × (n.root_node ≡ x.node.root_node)
unfolding prepare rt_table_init Nms.empty_rows rt_table_empty
prepare-ends mac x = (_, refl, refl)

start_daemon-ends :
    {M : Type 0} (b : Starts) (mac : Addr) (x : Station M)
    → ((t : Thread) → is_negative (b.pthread_create t) ≡ false)
    → (u : Station M) × (start_daemon b mac x
        ≡ some (running (made_of b (wanted b x.node.root_node)) u))
unfolding start_daemon
start_daemon-ends b mac x h =
    let (n, run, e) = prepare-ends mac x in
    (record x { node = n }, rw run (rw (start_threads-made_of b n.root_node h) (rw e refl)))

-- Where main has arguments, the calls for the radio succeed with at most two interfaces, and
-- pthread_create returns a negative number for no thread: if the handlers of the two signals can be set,
-- main gets to wait, and the threads that run are those that it starts and that can be made, so that one
-- that cannot be made never ends the program; otherwise main releases the libraries and ends.
pub main-waits :
    {M : Type 0} (a : Answers) (count : ℕ) (signals : Bool) (b : Starts) (mac : Addr) (argc : ℕ)
    (os : List Choice) (x : Station M)
    → 2 ≤ argc
    → Succeeds a count
    → count ≤ 2
    → ((t : Thread) → is_negative (b.pthread_create t) ≡ false)
    → (u : Station M) × (main a signals b mac argc os x
        ≡ some (
            if signals
            then running (made_of b (wanted b (parse initial_mib x.node os).node.root_node)) u
            else released))
unfolding main
main-waits a count signals b mac argc os x h s k d =
    let p = parse initial_mib x.node os in
    let few : ltb argc 2 ≡ false = ground arith in
    let (r, e, n) = init_v2x_libs-succeeds a count s (initial_radio p.mib) in
    let (t, f) = open_interfaces-succeeds a count s r (omega (arith, n, k)) in
    let (u, run) = start_daemon-ends b mac (record x { mib = t.mib; node = p.node }) d in
    elim (Bool-cases signals) [
      | inl c ↦ (u, rw few (rw e (rw c (rw f run))))
      | inr c ↦ (x, rw few (rw e (rw c refl)))
    ]
