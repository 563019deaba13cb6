-- ===== src/Lib.antt =====
-- A model of the routing daemon of a vehicular mesh network (directory wsm), with proofs.
--
-- The daemon keeps a routing table, finds routes by flooding requests (PREQ) that are answered along
-- the way back (PREP), and withdraws them by errors (PERR). A root node announces itself (RANN) and
-- keeps a table of all nodes for a network management system, which sends it commands. Frames leave
-- through a queue of 20 that a sending thread empties; what happens later is run by timers.
--
--   * TxQueue: Init_Q, IsEmpty, IsFull, addq and deleteq of wsm/mesh_extern.c. TxQueue/Fifo is the
--     abstract queue.
--   * Timer: Timeval_diff, Timer_remove, Timer_add, Timer_set_timeout, Timer_init and the scan of
--     Timer_timeout of wsm/aodv.c, on the sequences of the timers linked. Timer/Links is the circular
--     lists in memory: Listelm_detach, Listelm_add, List_add, List_add_tail, List_detach, the loop of
--     Timer_add and the first one of Timer_timeout.
--   * Msg: the messages of wsm/aodv.h.
--   * Route: the functions rt_table_* of wsm/aodv.c.
--   * Nms: the functions nms_table_* of wsm/aodv.c.
--   * Node: the globals, with a child per group of functions of wsm/aodv.c: Log (NMS_log*), Make
--     (Make_msg_format_*), Send (*_send, *_start, *_forward), Hello (Hello_process, SCH_Hello_process,
--     Hello_timeout_process), Rann (Rann_process, Rann_ack_process), RouteRequest (Preq_process),
--     RouteReply (Prep_process), RouteError (Perr_process and its kin), Data (Data_process,
--     Data_process2, Data_send_dst), Alm (the link measure), Control (commands, with the switch of
--     NMS_TCP_recv_func of wsm/wsm-mesh.c), Receive (Receive_process, and its call in wsm/wsm-rx.c) and
--     Run (Timer_timeout with the handlers). Node/Keeps says which variables sending and logging leave
--     alone, Node/RouteRequest has which copy of a request is answered, and Node/Sound is the invariant
--     of the whole state. Start is rt_table_init and the start of the timers, Console the menu of
--     Command_thread_func of wsm/wsm-mesh.c.
--   * Reception: the receive callback of wsm/wsm-rx.c.
--   * Report: NMS_TCP_send_func and the loop of NMS_TCP_recv_func of wsm/wsm-mesh.c.
--   * Interfaces: mesh_get_ipv4_address and mesh_get_mac_address of wsm/mesh_extern.c.
--   * Settings: the start options of wsm/wsm-input-params.c and the settings of wsm/wsm.h.
--   * Sender: the sending thread of wsm/wsm-tx.c, which empties the queue, and its POSIX timer.
--   * Radio: WSM_InitV2XLibs and Reset of wsm/wsm-mesh.c, and its main up to the tables.
--   * Netlink: the netfilter hook of wsm/Netlink/kajou.c, and Netlink_thread_func of wsm/wsm-mesh.c.
--     Netlink/Loading is the loading of that module.
--   * Udpfwd: the forwarder of datagrams, udpfwd/udpfwd.c. Udpfwd/Sockets is its sockets.
--   * Tools: the tools in chan and addr.
--   * Daemon: what main of wsm/wsm-mesh.c prepares, and the threads as a sequence of steps. Daemon/Main is
--     main from its arguments to its last loop, with the values that the variables start with. Daemon/Relay
--     follows a data frame over several nodes, each with its sending thread.
--   * Tests: concrete states.
--
-- How the program is read. A function that changes globals takes the state and returns the new one.
-- `none` stands for undefined behaviour, an access outside an object or through a null pointer, and for
-- `exit`; a chain of steps ends at the first. Numbers are natural numbers, with the wrap-around of the
-- machine's integers written out where the code relies on it or can meet it. An address of six bytes is
-- a number. A pointer into a table is an index. What a frame holds behind its message is a list, and
-- reading past its end is a fault, as is reading an object that was freed. What comes from outside,
-- the clock, random numbers and the bytes at an address, is a parameter. The daemon's threads share
-- these globals without locks; the model runs one function at a time.
--
-- Loops over tables are recursion on the number of rounds left, as many as the source's bound. The loop
-- over expired timers has as its fuel the length of that list, and a walk along a list in memory one more.
--
-- The V2X library and the C library are parameters: what an option's text is converted to, whether an
-- MPDU is built and transmitted, which POSIX timers are made, what calls on sockets return.
--
-- Not modelled: printed text, the joining of threads and the signal handlers, which end the program, frames
-- that arrive before the tables stand, the module in kernel_module, which prints, and the test clients in
-- udpfwd.
pub mod Base
pub mod Tools
pub mod TxQueue
pub mod Timer
pub mod Msg
pub mod Route
pub mod Nms
pub mod Node
pub mod Settings
pub mod Sender
pub mod Interfaces
pub mod Netlink
pub mod Radio
pub mod Reception
pub mod Report
pub mod Daemon
pub mod Udpfwd
pub mod Tests
