-- ===== src/Udpfwd/Sockets.antt =====
-- The two sockets of udpfwd.c, from their opening to the end of the program.
use ajou_etri_project.Base.{
  ℕ, Bool, true, false, not, Option, none, some, List, [], ◌&&◌, if◌then◌else◌, ◌>>=◌,
}
use ajou_etri_project.Udpfwd.{Interface, Received, datagram, error, null, freed, find_own, forward}

-- Which of the two sockets are open.
pub record Sockets : Type 0 where
  pub src_fd : Bool
  pub bcast_fd : Bool

-- Whether the calls succeed: socket, the binding to an interface, and bind; then socket, the binding to
-- an interface, and the leave to broadcast.
pub record Answers : Type 0 where
  pub src_socket : Bool
  pub src_device : Bool
  pub src_bind : Bool
  pub bcast_socket : Bool
  pub bcast_device : Bool
  pub bcast_flag : Bool

-- `close`; `none` for a socket that is not open.
unfoldable pub close_src : Sockets → Option Sockets
close_src s = if s.src_fd then some (record s { src_fd = false }) else none

unfoldable pub close_bcast : Sockets → Option Sockets
close_bcast s = if s.bcast_fd then some (record s { bcast_fd = false }) else none

-- `exit(1)`, or the sockets for the main loop.
pub data Opened : Type 0 where
  exits : Sockets → Opened
  ready : Sockets → Opened

abbrev pub exit_after : Option Sockets → Option Opened
exit_after o = o >>= λ s. some (exits s)

unfoldable pub open_sockets : Answers → Sockets → Option Opened
open_sockets a s =
    let s1 = record s { src_fd = true } in
    let s2 = record s1 { bcast_fd = true } in
    if not a.src_socket
    then some (exits s)
    else if not a.src_device
    then exit_after (close_src s1)
    else if not a.src_bind
    then exit_after (close_src s1)
    else if not a.bcast_socket
    then exit_after (close_src s1)
    else if not a.bcast_device
    then exit_after (close_src s2 >>= close_bcast)
    else if not a.bcast_flag
    then exit_after (close_src s2 >>= close_bcast)
    else some (ready s2)

-- How main ends: with which sockets, and what it has broadcast.
pub record Ended : Type 0 where
  pub sockets : Sockets
  pub out : List (List ℕ)

abbrev pub no_sockets : Sockets
no_sockets = record { src_fd = false; bcast_fd = false }

abbrev pub serve : (List ℕ → Bool) → List Interface → List Received → Opened → Option Ended
serve sends ifs l (exits s) = some (record { sockets = s; out = [] })
serve sends ifs l (ready s) = do
  out ← forward sends (freed (find_own ifs null)) l
  t ← close_src s
  u ← close_bcast t
  some (record { sockets = u; out = out })

-- main, after its arguments were accepted, where the loop ends after `l`.
unfoldable pub main : Answers → (List ℕ → Bool) → List Interface → List Received → Option Ended
main a sends ifs l = open_sockets a no_sockets >>= serve sends ifs l

abbrev pub all_succeed : Answers → Bool
all_succeed a =
    a.src_socket && a.src_device && a.src_bind && a.bcast_socket && a.bcast_device && a.bcast_flag

abbrev pub is_datagram : Received → Bool
is_datagram (datagram addr bytes) = true
is_datagram error = false
