-- ===== src/Interfaces.antt =====
-- The addresses of a network interface: mesh_get_ipv4_address and mesh_get_mac_address of
-- wsm/mesh_extern.c. A name is its characters, and NULL is `none`. What the kernel and inet_ntoa answer is
-- a parameter.
use ajou_etri_project.Base.{
  ℕ, zero, suc, ◌+◌, Bool, Option, none, some, List, [], ◌∷◌, if◌then◌else◌, ℤ, pos, negsuc,
}
use ajou_etri_project.Msg.{Addr}
use ajou_etri_project.Udpfwd.{Name}

abbrev pub take : {A : Type 0} → ℕ → List A → List A
take zero l = []
take (suc n) [] = []
take (suc n) (x ∷ l) = x ∷ take n l

-- Whether a socket can be opened; the IPv4 address of an interface and its text; the address of its
-- hardware.
pub record Answers : Type 0 where
  pub socket : Bool
  pub ipv4 : Name → Option ℕ
  pub ntoa : ℕ → Name
  pub hardware : Name → Option Addr

-- The result of a call: the status, what the caller's buffer holds, and how many sockets the process has
-- open.
pub record Read (A : Type 0) : Type 0 where
  pub status : ℤ
  pub buffer : A
  pub sockets : ℕ

module _ (a : Answers) where
  -- The name goes to the 15 places of `ifr_name`, and the text to the 16 of the buffer.
  unfoldable pub mesh_get_ipv4_address :
      (ifname : Option Name) → (address : Option Name) → ℕ → Read (Option Name)
  mesh_get_ipv4_address none address s = record { status = negsuc 0; buffer = address; sockets = s }
  mesh_get_ipv4_address (some ifname) none s = record {
    status = negsuc 0;
    buffer = none;
    sockets = s;
  }
  mesh_get_ipv4_address (some ifname) (some address) s =
      if a.socket
      then elim (a.ipv4 (take 15 ifname)) [
        | none ↦ record { status = negsuc 0; buffer = some address; sockets = s + 1 }
        | some ip ↦ record { status = pos 0; buffer = some (take 16 (a.ntoa ip)); sockets = s + 1 }
      ]
      else record { status = negsuc 0; buffer = some address; sockets = s }

  unfoldable pub mesh_get_mac_address :
      (ifname : Option Name) → (mac_addr : Option Addr) → ℕ → Read (Option Addr)
  mesh_get_mac_address none mac_addr s = record {
    status = negsuc 0;
    buffer = mac_addr;
    sockets = s;
  }
  mesh_get_mac_address (some ifname) none s = record {
    status = negsuc 0;
    buffer = none;
    sockets = s;
  }
  mesh_get_mac_address (some ifname) (some mac_addr) s =
      if a.socket
      then elim (a.hardware (take 15 ifname)) [
        | none ↦ record { status = negsuc 0; buffer = some mac_addr; sockets = s + 1 }
        | some mac ↦ record { status = pos 0; buffer = some mac; sockets = s + 1 }
      ]
      else record { status = negsuc 0; buffer = some mac_addr; sockets = s }
