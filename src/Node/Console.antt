-- ===== src/Node/Console.antt =====
-- The console: the switch of Command_thread_func of wsm/wsm-mesh.c, with the functions of wsm/aodv.c
-- that only it calls, Data_start3, PREP_TEST_CCH and PREP_TEST_SCH.
pub mod Metric
use ajou_etri_project.Base.{
  ℕ, zero, suc, ◌+◌, ◌*◌, ◌%◌, Bool, true, false, Option, none, some, List, [], ◌∷◌, ◌==◌, ltb,
  if◌then◌else◌, ◌>>=◌, ℤ, pos, negsuc,
}
use ajou_etri_project.Msg.{Addr, aodv, prep, data8, sizeof_prep, sizeof_data}
use ajou_etri_project.TxQueue
use ajou_etri_project.Node.{
  Node, Env, Output, reboot, unicast, cch, sch, send_to, route, rt_table_empty,
}
use ajou_etri_project.Node.Make.{data_start2}
use ajou_etri_project.Node.Send.{hello_start}
use ajou_etri_project.Node.Start.{timer_reset, hello_timeout_start}
use ajou_etri_project.Node.Control.{change, control, reopened}

unfoldable pub data_start3 : Addr → ℕ → List ℕ → Node → Option Node
data_start3 dest size body n =
    send_to dest (sizeof_data + size) (aodv (data8 (record { size = size; body = body }))) unicast
      cch n

-- PREP_TEST_CCH and PREP_TEST_SCH, which differ in the channel.
unfoldable pub prep_test : ℕ → Addr → Node → Option Node
prep_test if_chan dest n =
    send_to dest sizeof_prep
      (aodv (
        prep
          (record {
            hcnt = 1;
            dest_addr = dest;
            dest_ip = n.my_ip;
            orig_addr = n.my_mac;
            ext_length = 0;
            orig_ip = n.my_ip;
            seqno = 1;
          })
          []))
      unicast if_chan n

-- The menu: 1 to 11, 13, 14, 15, 19 and 0, with what `scanf` read, and any other number.
pub data Choice : Type 0 where
  start_config preq_prep hello_timeout : Choice
  delete_route : (index : ℤ) → Choice
  new_root : Option Addr → Choice
  print_tables send_data reset channel_change rate_change metric_change : Choice
  prep_cch prep_sch data_cch root_reboot leave other : Choice

-- `buff[i] = i` from `i` on.
abbrev pub counted : ℕ → ℕ → List ℕ
counted zero i = []
counted (suc k) i = i % 256 ∷ counted k (i + 1)

abbrev pub first_dest : Node → Addr
first_dest n = (route n 0).dest_addr

-- Init_Q, with `print_time` set, so that the next frame sent is noted.
abbrev pub watched : Node → Node
watched n = record n { print_time = 1; tq = TxQueue.init_q }

abbrev pub delete_index : ℤ → Node → Node
delete_index (pos i) n = if ltb 10 i then n else rt_table_empty i n
delete_index (negsuc i) n = n

-- The root alone does the rest.
abbrev pub if_root : (Node → Option Node) → Node → Option Node
if_root f n = if n.root_node == 1 then f n else some n

unfoldable pub choose : Env → Choice → Node → Option Node
choose env start_config n =
    hello_start env (record (rt_table_empty 10 (timer_reset n)) { rann_order = 0 })
choose env preq_prep n = some (record n { rann_order = (n.rann_order + 1) % 4294967296 })
choose env hello_timeout n = hello_timeout_start env (timer_reset n)
choose env (delete_route index) n = some (delete_index index n)
choose env (new_root none) n = some n
choose env (new_root (some a)) n = some (record n { root_addr = a })
choose env print_tables n = some n
choose env send_data n = data_start2 (first_dest n) 1000 (counted 1000 0) (watched n)
choose env reset n = some (reopened n)
choose env channel_change n =
    if_root
      (λ m.
        control env (change 1 m.data_rate 174)
          (reopened (record m { config = record (m.config) { receiving_channel = 174 } })))
      n
choose env rate_change n =
    if_root
      (λ m.
        control env (change 1 18 m.receiving_channel)
          (reopened (record m { config = record (m.config) { data_rate = 18 } })))
      n
choose env metric_change n =
    if_root
      (λ m.
        control env (change 2 m.data_rate m.receiving_channel)
          (record m { config = record (m.config) { metric = 2 } }))
      n
choose env prep_cch n = if_root (λ m. prep_test cch (first_dest m) m) n
choose env prep_sch n = if_root (λ m. prep_test sch (first_dest m) m) n
choose env data_cch n =
    if_root (λ m. data_start3 (first_dest m) 1000 (counted 1000 0) (watched m)) n
choose env root_reboot n = if_root (λ m. some (record m { out = reboot ∷ m.out })) n
choose env leave n = some (timer_reset n)
choose env other n = some n
