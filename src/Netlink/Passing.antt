-- ===== src/Netlink/Passing.antt =====
-- What the daemon reads is what the hook saw.
use ajou_etri_project.Base.{
  ℕ, ◌+◌, ◌≤◌, ◌≡◌, ◌≢◌, Bool, true, false, some, List, ◌∷◌, ◌++◌, ◌==◌, ltb, length, arith,
}
use ajou_etri_project.Node.{Node}
use ajou_etri_project.Node.Data.{get32}
use ajou_etri_project.Netlink.{
  Kernel, pre_routing, nf_accept, bytes32, udp_dest, hooking, netlink_receive,
}

-- A packet before routing whose second header names another destination port than 22 passes while a
-- daemon is known and the message for it can be made and handed over; and the daemon, if the message
-- comes with a size that it takes, then knows the two addresses of the packet's IPv4 header.
pub netlink_receive-hooking :
    (allocates : ℕ → Bool) (delivers : ℕ → List ℕ → Bool) (skb : List ℕ) (receive_size : ℕ)
    (k : Kernel) (n : Node) {dest : ℕ}
    → udp_dest skb ≡ some dest
    → dest ≢ 5632
    → k.pid ≢ 0
    → allocates (length skb + 4) ≡ true
    → delivers k.pid (bytes32 (length skb) ++ skb) ≡ true
    → 28 ≤ receive_size
    → receive_size ≤ 4096
    → let m = bytes32 (length skb) ++ skb in
      (hooking allocates delivers pre_routing skb k
        ≡ some (nf_accept, record k { sent = (k.pid, m) ∷ k.sent }))
      × ((netlink_receive receive_size m n).src_ip ≡ get32 skb 12)
      × ((netlink_receive receive_size m n).dst_ip ≡ get32 skb 16)
unfolding hooking netlink_receive
netlink_receive-hooking allocates delivers skb receive_size k n {dest} e p q a d l u =
    let port : (dest == 5632) ≡ false = ground arith in
    let known : (k.pid == 0) ≡ false = ground arith in
    let size : (ltb receive_size 28) ≡ false = ground arith in
    let size' : (ltb 4096 receive_size) ≡ false = ground arith in
    (rw e (rw port (rw known (rw a (rw d)))), rw size (rw size'), rw size (rw size'))
