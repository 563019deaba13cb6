-- ===== src/Node/Keeps.antt =====
-- Building, queueing and logging messages: which of the daemon's variables it leaves alone.
use ajou_etri_project.Base.{
  ℕ, ◌+◌, ◌≡◌, refl, ◌∙◌, Option, List, Ensures, Ensures-bind, Ensures-if, Ensures-of, Ensures-map,
  Ensures-elim, ◌>>=◌, ends, faults, ltb, ◌==◌,
}
use ajou_etri_project.Msg.{Addr, Msg, Frame, nms_log, sizeof_nms_log_info}
use ajou_etri_project.TxQueue.{max_frame_len, addq}
use ajou_etri_project.TxQueue.Refine.{IsValid, addq-IsValid}
use ajou_etri_project.Timer.{Timers}
use ajou_etri_project.Route
use ajou_etri_project.Nms
use ajou_etri_project.Node.{
  Node, Cycle, Tmp, Handler, send, unicast, cch, send_to, find_route, route,
}
use ajou_etri_project.Node.Log.{
  log_add, log_reset, log_send, log_send_nms, nms_logging, log_if_on, log_forward, log_process,
}

pub record Core : Type 0 where
  pub routes : Route.Table
  pub waiting : List Tmp
  pub rows : Nms.Table
  pub clocks : Timers Handler
  pub settings : Nms.Config
  pub cycle : Cycle
  pub address : Addr
  pub role : ℕ
  pub root : Addr
  pub announcement : ℕ
  pub order : ℕ

abbrev pub core : Node → Core
core n = record {
  routes = n.rt_t;
  waiting = n.tmp_preq;
  rows = n.nms_t;
  clocks = n.timers;
  settings = n.config;
  cycle = n.update_cycle;
  address = n.my_mac;
  role = n.root_node;
  root = n.root_addr;
  announcement = n.rann_id;
  order = n.rann_order;
}

-- The two states have the same routes, waiting requests, rows, timers, settings, addresses and last
-- announcement, and
-- the queue stays valid.
pub record Keeps (n m : Node) : Type 0 where
  pub same : core m ≡ core n
  pub queued : IsValid n.tq → IsValid m.tq

pub Keeps-trans : {a b c : Node} → Keeps a b → Keeps b c → Keeps a c
Keeps-trans h k = record { same = k.same ∙ h.same; queued = λ q. k.queued (h.queued q) }

-- Steps one after the other.
pub Keeps-bind :
    {n : Node} {o : Option Node} {f : Node → Option Node}
    → Ensures (Keeps n) o
    → ((m : Node) → Ensures (Keeps m) (f m))
    → Ensures (Keeps n) (o >>= f)
Keeps-bind h k = Ensures-bind h (λ m v. Ensures-map (k m) (λ x w. Keeps-trans v w))

pub send-Keeps :
    (len : ℕ) (frame : Frame) (uni chan : ℕ) (n : Node)
    → Ensures (Keeps n) (send len frame uni chan n)
unfolding send
send-Keeps len frame uni chan n =
    Ensures-bind
      (Ensures-of {P = λ q. IsValid n.tq → IsValid q} (addq n.tq len frame uni chan)
        (λ q e v. addq-IsValid len uni chan frame v e))
      (λ q h. ends (record { same = refl; queued = h }))

pub send_to-Keeps :
    (dest : Addr) (len : ℕ) (frame : Frame) (uni chan : ℕ) (n : Node)
    → Ensures (Keeps n) (send_to dest len frame uni chan n)
unfolding send_to
send_to-Keeps dest len frame uni chan n =
    Ensures-map (send-Keeps len frame uni chan (record n { dest_mac_addr = dest }))
      (λ m h. record { same = h.same; queued = h.queued })

log_reset-Keeps : (n : Node) → Keeps n (log_reset n)
unfolding log_reset
log_reset-Keeps n = record { same = refl; queued = λ q. q }

log_send-Keeps : (n : Node) → Ensures (Keeps n) (log_send n)
unfolding log_send
log_send-Keeps n =
    Ensures-elim (find_route n n.root_addr 1 n.my_mac)
      (ends (record { same = refl; queued = λ q. q }))
      (λ i.
        Keeps-bind
          (Ensures-if (ltb max_frame_len (n.log_size + sizeof_nms_log_info)) faults (
            send_to-Keeps (route n i).next_hop (n.log_size + sizeof_nms_log_info)
              (nms_log n.my_mac n.log_size n.log_buff) unicast cch n))
          (λ m. ends (log_reset-Keeps m)))

log_send_nms-Keeps :
    (orig : Addr) (size : ℕ) (msgs : List Msg) (n : Node)
    → Ensures (Keeps n) (log_send_nms orig size msgs n)
unfolding log_send_nms
log_send_nms-Keeps orig size msgs n =
    Ensures-if (n.nms_connection == 0) (ends (record { same = refl; queued = λ q. q })) (
      Ensures-if (ltb max_frame_len (size + sizeof_nms_log_info)) faults
        (ends (record { same = refl; queued = λ q. q })))

log_add-Keeps : (size : ℕ) (msg : Msg) (n : Node) → Ensures (Keeps n) (log_add size msg n)
unfolding log_add
log_add-Keeps size msg n =
    Ensures-if (ltb max_frame_len (n.log_size + size)) faults
      (ends (record { same = refl; queued = λ q. q }))

pub log_if_on-Keeps : (size : ℕ) (msg : Msg) (n : Node) → Ensures (Keeps n) (log_if_on size msg n)
unfolding log_if_on nms_logging
log_if_on-Keeps size msg n =
    Ensures-if n.nms_log_on
      (Keeps-bind (log_add-Keeps size msg n) (λ m.
        Ensures-if (m.root_node == 1)
          (Keeps-bind (log_send_nms-Keeps m.log_orig m.log_size m.log_buff m)
            (λ k. ends (log_reset-Keeps k)))
          (log_send-Keeps m)))
      (ends (record { same = refl; queued = λ q. q }))

pub log_process-Keeps :
    (source : Addr) (size : ℕ) (msgs : List Msg) (n : Node)
    → Ensures (Keeps n) (log_process source size msgs n)
unfolding log_process log_forward
log_process-Keeps source size msgs n =
    Ensures-if (n.root_node == 1) (log_send_nms-Keeps source size msgs n) (
      Ensures-elim (find_route n n.root_addr 1 source)
        (ends (record { same = refl; queued = λ q. q }))
        (λ i.
          send_to-Keeps (route n i).next_hop (sizeof_nms_log_info + size) (nms_log source size msgs)
            unicast cch n))
