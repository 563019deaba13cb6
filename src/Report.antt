-- ===== src/Report.antt =====
-- The two connections to the management system, of wsm/wsm-mesh.c: NMS_TCP_send_func, which sends the
-- rows of the table of all nodes, and the loop of NMS_TCP_recv_func, which receives commands. A socket is
-- its descriptor. What the socket calls return is a parameter. `none` is the end of the program.
pub mod Rounds
pub mod Stale
use ajou_etri_project.Base.{
  ℕ, ◌+◌, ◌%◌, ◌^◌, Bool, true, false, Option, none, some, List, [], ◌∷◌, ◌++◌, ◌==◌, if◌then◌else◌,
  ◌>>=◌, ℤ, pos, negsuc, get_elem?,
}
use ajou_etri_project.Msg.{Addr}
use ajou_etri_project.Nms.{Row}
use ajou_etri_project.Node.{Node, Env}
use ajou_etri_project.Node.Control.{Command, receive_command}

-- The 110 bytes of a row that are sent: the fields up to `alm_next_hop`, which stands at offset 108, and
-- of this the first two bytes, the low ones of a little-endian machine.
pub record Sent : Type 0 where
  pub addr : Addr
  pub receiving_channel : ℕ
  pub node_state : ℕ
  pub metric : ℕ
  pub data_rate : ℕ
  pub neighbor_node : List Addr
  pub uplink_path : List Addr
  pub alm_low : ℕ

unfoldable pub first_bytes : Row → Sent
first_bytes r = record {
  addr = r.addr;
  receiving_channel = r.receiving_channel;
  node_state = r.node_state;
  metric = r.metric;
  data_rate = r.data_rate;
  neighbor_node = r.neighbor_node;
  uplink_path = r.uplink_path;
  alm_low = r.alm_next_hop % 2 ^ 16;
}

-- `nms_tcp_send_client` and `nms_tcp_send_client_ext`, the variable `i` of the loop, and what was sent
-- where, in its order.
pub record Reporter : Type 0 where
  pub client : ℤ
  pub client_ext : ℤ
  pub row : ℕ
  pub sent : List (ℤ × Sent)

-- Before the loop: `binds` says whether bind succeeds, `accepted` is what accept returns, -1 included.
unfoldable pub connect : (binds : Bool) → (accepted : ℤ) → Option Reporter
connect binds accepted =
    if binds
    then some (record { client = accepted; client_ext = pos 0; row = 0; sent = [] })
    else none

-- What a send returns, and after a failure what listen and accept do.
pub data Sending : Type 0 where
  delivered : Sending
  accepted : (fd : ℕ) → Sending
  no_listen no_accept : Sending

-- The head of the outer loop.
unfoldable pub begin_round : Node × Reporter → Node × Reporter
begin_round (n, r) =
    if r.row == 0
    then (record n { nms_connection = 1 }, record r { client_ext = r.client })
    else (n, r)

-- After a row comes the next one, and after eight of them the first.
abbrev pub next_row : ℕ → ℕ
next_row i = if i == 7 then 0 else i + 1

unfoldable pub send_row : Sending → Node × Reporter → Option (Node × Reporter)
send_row delivered (n, r) = do
  x ← get_elem? n.nms_t r.row
  some (n, record r { row = next_row r.row; sent = r.sent ++ (r.client, first_bytes x) ∷ [] })
send_row (accepted fd) (n, r) =
    some (record n { nms_connection = 1 }, record r { client = pos fd; row = next_row r.row })
send_row no_listen (n, r) = none
send_row no_accept (n, r) = none

-- One row: the loop from one `usleep` to the next.
unfoldable pub report_step : Sending → Node × Reporter → Option (Node × Reporter)
report_step a s = send_row a (begin_round s)

-- What recv returns: nothing, with what listen and accept then do, an error, or a command.
pub data Incoming : Type 0 where
  disconnected : (listens accepts : Bool) → Incoming
  failed : Incoming
  command : Command → Incoming

unfoldable pub receive_step : Env → Incoming → Node → Option Node
receive_step env (disconnected listens accepts) n =
    if listens then (if accepts then some n else none) else none
receive_step env failed n = some n
receive_step env (command c) n = receive_command env c n
