-- ===== src/Udpfwd.antt =====
-- The tool udpfwd/udpfwd.c, which broadcasts on one interface the datagrams that arrive at a port of
-- another. A name is its characters. `none` is the end of the program by `exit(1)`, or an access through
-- a null pointer. Sockets and what the kernel says of its interfaces are parameters.
pub mod Filter
pub mod Names
pub mod Sockets
use ajou_etri_project.Base.{
  ℕ, ◌+◌, Bool, true, false, Option, none, some, List, [], ◌∷◌, ◌==◌, ltb, leb, not, ◌||◌, ◌&&◌,
  if◌then◌else◌, ◌>>=◌, length,
}

abbrev pub Name : Type 0
Name = List ℕ

abbrev pub same_name : Name → Name → Bool
same_name [] [] = true
same_name [] (d ∷ b) = false
same_name (c ∷ a) [] = false
same_name (c ∷ a) (d ∷ b) = c == d && same_name a b

-- What getopt returns, with the number that `atoi` reads; a negative one is 0 here, and is refused as 0
-- is.
pub data Choice : Type 0 where
  source_if : Name → Choice
  source_port : ℕ → Choice
  broadcast_if : Name → Choice
  broadcast_port : ℕ → Choice
  help : Choice

pub record Arguments : Type 0 where
  pub src_ifname : Option Name
  pub src_port : ℕ
  pub bcast_ifname : Option Name
  pub bcast_port : ℕ

-- The loop over the options; `usage` ends the program.
unfoldable pub take_options : Arguments → List Choice → Option Arguments
take_options a [] = some a
take_options a (source_if n ∷ os) = take_options (record a { src_ifname = some n }) os
take_options a (source_port p ∷ os) = take_options (record a { src_port = p }) os
take_options a (broadcast_if n ∷ os) = take_options (record a { bcast_ifname = some n }) os
take_options a (broadcast_port p ∷ os) = take_options (record a { bcast_port = p }) os
take_options a (help ∷ os) = none

-- An entry of getifaddrs: its name, and its address, a family with the IPv4 address, or NULL.
pub record Interface : Type 0 where
  pub ifa_name : Name
  pub ifa_addr : Option (ℕ × ℕ)

abbrev pub af_inet : ℕ
af_inet = 2

abbrev pub af_inet6 : ℕ
af_inet6 = 10

abbrev pub is_named : Name → Interface → Bool
is_named name i = elim i.ifa_addr [
  | none ↦ false
  | some (family, a) ↦ (family == af_inet || family == af_inet6) && same_name name i.ifa_name
]

abbrev pub search : Name → List Interface → ℕ → ℕ
search name [] status = status
search name (i ∷ l) status = search name l (if is_named name i then 0 else status)

-- What getifaddrs gives: the interfaces, or the error.
pub data Interfaces : Type 0 where
  listed : List Interface → Interfaces
  failed : (errno : ℕ) → Interfaces

-- EINVAL is 22 and ENOENT 2.
unfoldable pub find_ifname : Option Name → Interfaces → ℕ
find_ifname none ifs = 22
find_ifname (some name) ifs =
    if leb (length name) 1
    then 22
    else elim ifs [ failed errno ↦ errno | listed l ↦ search name l 2 ]

-- The tests before the sockets are opened.
unfoldable pub accept_arguments : (argc : ℕ) → List Choice → Interfaces → Option Arguments
accept_arguments argc os ifs = do
  a ←
      take_options (record { src_ifname = none; src_port = 0; bcast_ifname = none; bcast_port = 0 })
        os
  if not (argc == 9)
        || leb a.src_port 1023
        || leb a.bcast_port 1023
        || not (find_ifname a.src_ifname ifs == 0)
        || not (find_ifname a.bcast_ifname ifs == 0)
      then none
      else some a

-- "wave-data0"
abbrev pub wave_data0 : Name
wave_data0 = 119 ∷ 97 ∷ 118 ∷ 101 ∷ 45 ∷ 100 ∷ 97 ∷ 116 ∷ 97 ∷ 48 ∷ []

-- `myAddr`: null, into the list of interfaces where it holds this address, or into the list after it was
-- freed.
pub data Pointer : Type 0 where
  null dangling : Pointer
  into_list : (s_addr : ℕ) → Pointer

-- `none` for a read through a pointer that points to no object.
abbrev pub deref : Pointer → Option ℕ
deref null = none
deref dangling = none
deref (into_list a) = some a

-- The pointer after freeifaddrs.
unfoldable pub freed : Pointer → Pointer
freed null = null
freed dangling = dangling
freed (into_list a) = dangling

abbrev own_of : Interface → Pointer → Pointer
own_of i found =
    if same_name i.ifa_name wave_data0
    then elim i.ifa_addr [
      | none ↦ found
      | some (family, a) ↦ if family == af_inet then into_list a else found
    ]
    else found

-- The last IPv4 address of wave-data0.
unfoldable pub find_own : List Interface → Pointer → Pointer
find_own [] found = found
find_own (i ∷ l) found = find_own l (own_of i found)

-- What recvfrom gives: the sender's address and the bytes, or an error.
pub data Received : Type 0 where
  datagram : (addr : ℕ) → List ℕ → Received
  error : Received

-- The main loop over what is received while the program runs: the datagrams broadcast, the first
-- first. `sends` says whether sendto succeeds.
unfoldable pub forward : (List ℕ → Bool) → Pointer → List Received → Option (List (List ℕ))
forward sends own [] = some []
forward sends own (error ∷ l) = some []
forward sends own (datagram addr bytes ∷ l) =
    let rest = forward sends own l in
    elim (deref own) [
      | none ↦ none
      | some mine ↦
          if addr == mine
          then rest
          else if not (sends bytes)
          then some []
          else (rest >>= λ out. some (bytes ∷ out))
    ]
