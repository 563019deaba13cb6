-- ===== src/Node/Receive.antt =====
-- Receive_process of wsm/aodv.c: a received frame goes to the handler of its type.
use ajou_etri_project.Base.{Option, some, ◌==◌, if◌then◌else◌}
use ajou_etri_project.Msg.{
  Addr, Frame, aodv, nms_log, other, hello, sch_hello, rann, preq, prep, data4, data8, perr,
  perr_uni, rann_ack,
}
use ajou_etri_project.Node.{Node, Env}
use ajou_etri_project.Node.Log.{log_process}
use ajou_etri_project.Node.Hello.{hello_process, sch_hello_process}
use ajou_etri_project.Node.Rann.{rann_process, rann_ack_process}
use ajou_etri_project.Node.RouteRequest.{preq_process}
use ajou_etri_project.Node.RouteReply.{prep_process}
use ajou_etri_project.Node.RouteError.{perr_process, perr_unicast_process}
use ajou_etri_project.Node.Data.{data_process, data_process2}

unfoldable pub receive : Env → Frame → Node → Option Node
receive env (aodv (hello h)) n = hello_process env h n
receive env (aodv (rann r)) n = rann_process env r n
receive env (aodv (preq p ext)) n = preq_process env p ext n
receive env (aodv (prep p ext)) n = prep_process env p ext n
receive env (aodv (data4 d)) n = data_process d n
receive env (aodv (perr p)) n = perr_process p n
receive env (nms_log source size msgs) n = log_process source size msgs n
receive env (aodv (perr_uni p)) n = perr_unicast_process p n
receive env (aodv (data8 d)) n =
    if n.print_time == 0
    then data_process2 d (record n { print_time = 2 })
    else some (record n { print_time = 0 })
receive env (aodv (sch_hello h)) n = sch_hello_process env h n
receive env (aodv (rann_ack k)) n = rann_ack_process env k n
receive env (other t) n = some n

-- WSM_ProcessRxWSDU of wsm/wsm-rx.c: the sender's address is put where the handlers look for it.
unfoldable pub receive_from : Env → Addr → Frame → Node → Option Node
receive_from env sender frame n = receive env frame (record n { src_mac_addr = sender })
