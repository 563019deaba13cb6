-- ===== src/Netlink.antt =====
-- The path of packets from the kernel to the daemon: the netfilter hook of wsm/Netlink/kajou.c, and
-- the loop of Netlink_thread_func of wsm/wsm-mesh.c that takes its messages. Whether the kernel
-- allocates a message of a size, and whether it can hand it to a process, are parameters.
pub mod Loading
pub mod Passing
use ajou_etri_project.Base.{
  ℕ, ◌+◌, ◌*◌, ◌/◌, ◌%◌, Bool, true, false, Option, none, some, List, [], ◌∷◌, ◌++◌, ◌==◌, ltb, not,
  ◌||◌, if◌then◌else◌, ◌>>=◌, get_elem?, length,
}
use ajou_etri_project.Node.{Node}
use ajou_etri_project.Node.Data.{get32}

pub data Verdict : Type 0 where
  nf_drop nf_accept : Verdict

pub data Hook : Type 0 where
  pre_routing other_hook : Hook

-- `pid`, and the messages sent, the last first, each with the process it is for.
pub record Kernel : Type 0 where
  pub pid : ℕ
  pub sent : List (ℕ × List ℕ)

-- hello_nl_recv_msg: the daemon's greeting, with its process.
unfoldable pub hello_nl_recv_msg : (nlmsg_pid : ℕ) → Kernel → Kernel
hello_nl_recv_msg nlmsg_pid k = record k { pid = nlmsg_pid }

-- The bytes of a `unsigned int` on a little-endian machine.
abbrev pub bytes32 : ℕ → List ℕ
bytes32 n = n % 256 ∷ n / 256 % 256 ∷ n / 65536 % 256 ∷ n / 16777216 % 256 ∷ []

-- The destination port behind an IPv4 header, whatever protocol it names, as the machine reads the two
-- bytes; `none` where the packet ends before.
unfoldable pub udp_dest : List ℕ → Option ℕ
udp_dest skb = do
  first ← get_elem? skb 0
  let header = first % 16 * 4
  low ← get_elem? skb (header + 2)
  high ← get_elem? skb (header + 3)
  some (low + 256 * high)

module _ (allocates : ℕ → Bool) (delivers : ℕ → List ℕ → Bool) where
  -- The packet as it lies in the buffer, from its IPv4 header on.
  unfoldable pub hooking : Hook → List ℕ → Kernel → Option (Verdict × Kernel)
  hooking hook skb k = do
    dest ← udp_dest skb
    let m = bytes32 (length skb) ++ skb
    some (
        if dest == 5632 || k.pid == 0 then (nf_accept, k) else elim hook [
          | other_hook ↦ (nf_accept, k)
          | pre_routing ↦
              if not (allocates (length skb + 4))
              then (nf_drop, k)
              else if not (delivers k.pid m)
              then (nf_drop, k)
              else (nf_accept, record k { sent = (k.pid, m) ∷ k.sent })
        ])

-- A message, `receive_size` bytes with its header, whose payload lies in a cleared buffer. What the
-- message is about is kept, and nothing is sent on.
unfoldable pub netlink_receive : ℕ → List ℕ → Node → Node
netlink_receive receive_size payload n =
    if ltb receive_size 28 || ltb 4096 receive_size
    then n
    else record n { src_ip = get32 payload 16; dst_ip = get32 payload 20 }
