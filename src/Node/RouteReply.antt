-- ===== src/Node/RouteReply.antt =====
-- Prep_process of wsm/aodv.c.
pub mod Faults
use ajou_etri_project.Base.{
  ℕ, zero, suc, ◌+◌, ◌-◌, ◌*◌, ◌%◌, Bool, true, false, ◌&&◌, not, Option, none, some, List, ◌==◌,
  ltb, if◌then◌else◌, ◌>>=◌, get_elem?,
}
use ajou_etri_project.Msg.{Addr, Prep, prep, sizeof_prep, sizeof_ext}
use ajou_etri_project.Route
use ajou_etri_project.Node.{Node, Env, find_route, route}
use ajou_etri_project.Node.Log.{log_if_on}
use ajou_etri_project.Node.Send.{prep_forward}
use ajou_etri_project.Node.Hello.{modify_route, insert_route}

-- The address behind the message that came last, if the message has any.
abbrev pub last_ext : Prep → List Addr → Option Addr
last_ext p ext = if p.ext_length == 0 then some 0 else get_elem? ext (p.ext_length - 1)

-- The route to the root. Where the message is this node's own and no route is there, an entry is
-- updated through NULL.
unfoldable pub uplink : Env → Prep → Addr → Node → Option Node
uplink env p prev n = elim (find_route n p.orig_addr 1 p.dest_addr) [
  | some i ↦ some (modify_route i (λ r. Route.update env.stack r n.src_mac_addr p.hcnt 0 p.seqno) n)
  | none ↦
      if n.my_mac == p.orig_addr
      then none
      else (insert_route env
            (record {
              dest = p.orig_addr;
              next = n.src_mac_addr;
              source = p.dest_addr;
              prev_exist = p.ext_length;
              prev = prev;
              hcnt = p.hcnt;
              ip = p.orig_ip;
              hello_cnt = 0;
              alm = 0;
              seqno = p.seqno;
            })
            n
          >>= λ r. some r.1)
]

-- The route to the node that asked. The pointer that stood at the last address is moved on by the
-- same amount again before the next hop is read.
unfoldable pub downlink : Env → Prep → List Addr → Node → Option Node
downlink env p ext n = do
  next ← get_elem? ext ((p.ext_length - 1) + (p.ext_length - 1))
  elim (find_route n p.dest_addr 0 p.dest_addr) [
    | some _ ↦ some n
    | none ↦
        insert_route env
          (record {
            dest = p.dest_addr;
            next = next;
            source = p.orig_addr;
            prev_exist = 1;
            prev = n.src_mac_addr;
            hcnt = p.ext_length;
            ip = p.dest_ip;
            hello_cnt = 0;
            alm = 0;
            seqno = 0;
          })
          n
        >>= λ r. some r.1
  ]

unfoldable pub prep_process : Env → Prep → List Addr → Node → Option Node
prep_process env p ext n = do
  a ← log_if_on (sizeof_prep + p.ext_length * sizeof_ext) (prep p ext) n
  prev ← last_ext p ext
  b ← uplink env p prev a
  if p.ext_length == 0
      then some b
      else (downlink env p ext b >>= prep_forward (record p { hcnt = (p.hcnt + 1) % 256 }) ext)
