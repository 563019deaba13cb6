-- ===== src/Node/Data.antt =====
-- Data_process, Data_process2 and Data_send_dst of wsm/aodv.c.
use ajou_etri_project.Base.{
  ℕ, zero, suc, ◌+◌, ◌*◌, ◌%◌, Option, none, some, List, [], ◌∷◌, ◌==◌, ltb, if◌then◌else◌, ◌>>=◌,
  get_or,
}
use ajou_etri_project.Msg.{DataMsg, data8, sizeof_data}
use ajou_etri_project.TxQueue.{max_frame_len}
use ajou_etri_project.Node.{Node, to_ip}
use ajou_etri_project.Node.Log.{log_if_on}
use ajou_etri_project.Node.Make.{data_start2}
use ajou_etri_project.Node.Send.{data_forward}

-- The `uint32_t` at an offset, as a little-endian machine reads it; the copy is padded with zeros.
abbrev pub get32 : List ℕ → ℕ → ℕ
get32 b i =
    get_or b i 0
    + 256 * get_or b (i + 1) 0
    + 65536 * get_or b (i + 2) 0
    + 16777216 * get_or b (i + 3) 0

-- Only UDP (17) and TCP (6) packets leave through a raw socket.
unfoldable pub data_send_dst : List ℕ → ℕ → Node → Node
data_send_dst body size n =
    let protocol = get_or body 9 0 in
    let count = (n.data_cnt + 1) % 4294967296 in
    if protocol == 17
    then record n { data_cnt = count; out = to_ip 17 size body ∷ n.out }
    else if protocol == 6
    then record n { data_cnt = count; out = to_ip 6 size body ∷ n.out }
    else record n { data_cnt = count }

-- memcpy of the first `size` bytes behind the message; `none` where it reads past the frame.
unfoldable pub copy_bytes : ℕ → List ℕ → Option (List ℕ)
copy_bytes zero l = some []
copy_bytes (suc k) [] = none
copy_bytes (suc k) (b ∷ l) = copy_bytes k l >>= λ c. some (b ∷ c)

-- The message is copied with as many bytes as its size says to a cleared buffer, from which everything
-- else is read and sent.
unfoldable pub data_process : DataMsg → Node → Option Node
data_process d n =
    if ltb max_frame_len (d.size + sizeof_data)
    then none
    else (copy_bytes d.size d.body >>= λ msg.
        let dst = get32 msg 16 in
        let m = record n { src_ip = get32 msg 12; dst_ip = dst } in
        if n.my_ip == dst then some (data_send_dst msg d.size m) else data_forward dst d.size msg m)

-- The data goes back to the node that it came from.
unfoldable pub data_process2 : DataMsg → Node → Option Node
data_process2 d n =
    if ltb max_frame_len (d.size + sizeof_data)
    then none
    else (copy_bytes d.size d.body >>= λ msg.
        log_if_on (d.size + sizeof_data) (data8 (record { size = d.size; body = msg })) n >>= λ m.
        data_start2 m.src_mac_addr d.size msg m)
