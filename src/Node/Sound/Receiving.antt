-- ===== src/Node/Sound/Receiving.antt =====
-- Every received frame keeps the invariant.
use ajou_etri_project.Base.{
  ℕ, ◌+◌, refl, ◌==◌, ltb, Ensures, Ensures-bind, Ensures-any, Ensures-if, if-elim, get_or, List,
  ends, faults,
}
use ajou_etri_project.Msg.{
  Frame, DataMsg, aodv, nms_log, other, hello, sch_hello, rann, preq, prep, data4, data8, perr,
  perr_uni, rann_ack, sizeof_data,
}
use ajou_etri_project.TxQueue.{max_frame_len}
use ajou_etri_project.Node.{Node, Env}
use ajou_etri_project.Node.Keeps.{log_if_on-Keeps, log_process-Keeps}
use ajou_etri_project.Node.Make.Keeping.{data_start2-Keeps}
use ajou_etri_project.Node.Send.Passing.{data_forward-Keeps}
use ajou_etri_project.Node.Data.{copy_bytes, get32, data_send_dst, data_process, data_process2}
use ajou_etri_project.Node.Receive.{receive}
use ajou_etri_project.Node.Sound.{IsSound, same_parts, kept}
use ajou_etri_project.Node.Sound.Hearing.{hello_process-IsSound, sch_hello_process-IsSound}
use ajou_etri_project.Node.Sound.Announcing.{rann_process-IsSound, rann_ack_process-IsSound}
use ajou_etri_project.Node.Sound.Requesting.{preq_process-IsSound}
use ajou_etri_project.Node.Sound.Answering.{prep_process-IsSound}
use ajou_etri_project.Node.Sound.Losing.{perr_process-IsSound, perr_unicast_process-IsSound}

module _ {owed : ℕ} where
  send_dst-IsSound :
      (body : List ℕ) (size : ℕ) {n : Node}
      → IsSound owed n
      → IsSound owed (data_send_dst body size n)
  unfolding data_send_dst
  send_dst-IsSound body size {n} v =
      if-elim (IsSound owed) (get_or body 9 0 == 17) (same_parts v refl)
        (if-elim (IsSound owed) (get_or body 9 0 == 6) (same_parts v refl) (same_parts v refl))

  data_process-IsSound :
      (d : DataMsg) {n : Node} → IsSound owed n → Ensures (IsSound owed) (data_process d n)
  unfolding data_process
  data_process-IsSound d {n} v = Ensures-if (ltb max_frame_len (d.size + sizeof_data)) faults (
      Ensures-bind (Ensures-any {P = λ _. Unit {0}} (copy_bytes d.size d.body) (λ _. tt)) (λ msg _.
        let m = record n { src_ip = get32 msg 12; dst_ip = get32 msg 16 } in
        Ensures-if (n.my_ip == get32 msg 16)
          (ends (send_dst-IsSound msg d.size (same_parts v refl)))
          (kept (same_parts v refl) (data_forward-Keeps (get32 msg 16) d.size msg m))))

  data_process2-IsSound :
      (d : DataMsg) {n : Node} → IsSound owed n → Ensures (IsSound owed) (data_process2 d n)
  unfolding data_process2
  data_process2-IsSound d {n} v = Ensures-if (ltb max_frame_len (d.size + sizeof_data)) faults (
      Ensures-bind (Ensures-any {P = λ _. Unit {0}} (copy_bytes d.size d.body) (λ _. tt)) (λ msg _.
        Ensures-bind
          (kept v (
            log_if_on-Keeps (d.size + sizeof_data) (data8 (record { size = d.size; body = msg }))
              n))
          (λ m w. kept w (data_start2-Keeps m.src_mac_addr d.size msg m))))

  -- Whatever frame is received, a node whose variables are as the invariant says still has them so,
  -- unless the frame makes it fault.
  pub receive-IsSound :
      (env : Env) (f : Frame) {n : Node} → IsSound owed n → Ensures (IsSound owed) (receive env f n)
  unfolding receive
  receive-IsSound env (aodv (hello h)) v = hello_process-IsSound env h v
  receive-IsSound env (aodv (rann r)) v = rann_process-IsSound env r v
  receive-IsSound env (aodv (preq p ext)) v = preq_process-IsSound env p ext v
  receive-IsSound env (aodv (prep p ext)) v = prep_process-IsSound env p ext v
  receive-IsSound env (aodv (data4 d)) v = data_process-IsSound d v
  receive-IsSound env (aodv (perr p)) v = perr_process-IsSound p v
  receive-IsSound env (nms_log source size msgs) {n} v =
      kept v (log_process-Keeps source size msgs n)
  receive-IsSound env (aodv (perr_uni p)) v = perr_unicast_process-IsSound p v
  receive-IsSound env (aodv (data8 d)) {n} v =
      Ensures-if (n.print_time == 0) (data_process2-IsSound d (same_parts v refl))
        (ends (same_parts v refl))
  receive-IsSound env (aodv (sch_hello h)) v = sch_hello_process-IsSound env h v
  receive-IsSound env (aodv (rann_ack k)) v = rann_ack_process-IsSound env k v
  receive-IsSound env (other t) v = ends v
