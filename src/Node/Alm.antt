-- ===== src/Node/Alm.antt =====
-- The link measure: sch_hello_check, alm_calculator, nms_alm_calculator and alm_start of wsm/aodv.c.
-- A route's `alm_buffer` says of the last ten seconds whether a hello was heard on the service
-- channel; the measure is the share of such seconds, in percent.
pub mod Percent
use ajou_etri_project.Base.{
  ℕ, zero, suc, ◌+◌, ◌-◌, ◌*◌, ◌/◌, Bool, true, false, ◌&&◌, not, Option, none, some, List, [], ◌∷◌,
  map, ◌==◌, ltb, leb, if◌then◌else◌, ◌>>=◌, take, modify, set,
}
use ajou_etri_project.Msg.{Addr}
use ajou_etri_project.Timer.{Timeval}
use ajou_etri_project.Route
use ajou_etri_project.Nms
use ajou_etri_project.Node.{
  Node, Env, Handler, sch_hello_check, alm_calculator, nms_alm_calculator, sch_hello_check_timer,
  alm_timer, nms_alm_timer, find_route, set_timeout, start_timer, timer_used,
}
use ajou_etri_project.Node.Hello.{modify_route}

-- One second of one route.
unfoldable pub note_second : Route.Route → Route.Route
note_second r =
    if ltb 0 r.sch_hello_cnt
    then record r {
      alm_buffer =
          set r.alm_buffer r.alm_buffer_pointer (if ltb 0 r.sch_hello_detector then 1 else 0);
      alm_buffer_pointer =
          if leb 10 (r.alm_buffer_pointer + 1) then 0 else r.alm_buffer_pointer + 1;
      sch_hello_detector = 0;
    }
    else r

unfoldable pub check_sch_hello : Env → Node → Option Node
check_sch_hello env n =
    set_timeout env sch_hello_check_timer 1000 (record n { rt_t = map note_second n.rt_t })

unfoldable pub sum : List ℕ → ℕ
sum [] = 0
sum (x ∷ l) = x + sum l

-- In the first ten seconds the share is of the seconds since the route was entered. A clock that was
-- set back gives a negative number of seconds, and no share.
unfoldable pub measure : ℕ → Route.Route → ℕ
measure now_sec r =
    let first = r.first_hello_time.tv_sec in
    if ltb now_sec first
    then 0
    else if ltb (now_sec - first) 10 && not (now_sec - first == 0)
    then sum (take (now_sec - first) r.alm_buffer) * 100 / (now_sec - first)
    else sum (take 10 r.alm_buffer) * 100 / 10

unfoldable pub measure_route : ℕ → Route.Route → Route.Route
measure_route now_sec r =
    if ltb 0 r.sch_hello_cnt && r.hcnt == 1
    then record r { alm_next_hop = measure now_sec r; alm = measure now_sec r }
    else r

unfoldable pub calculate_alm : Env → Node → Option Node
calculate_alm env n =
    set_timeout env alm_timer 1000 (record n { rt_t = map (measure_route env.now.tv_sec) n.rt_t })

-- Rows that were not confirmed for more than ten seconds count half. The loop stops two rows early.
unfoldable pub fade_rounds : Env → ℕ → ℕ → Node → Node
fade_rounds env zero i n = n
fade_rounds env (suc k) i n =
    let r : Nms.Row = Nms.row n.nms_t i in
    let late : Bool =
      not (r.addr == 0)
      && not (r.addr == n.my_mac)
      && ltb (r.last_rann_ack_time.tv_sec + 10) env.now.tv_sec
      && not (r.alm_next_hop == 0) in
    let m : Node = record n {
      nms_t = modify n.nms_t i (λ x. record x { alm_next_hop = x.alm_next_hop / 2 });
    } in
    let faded : Node = elim (find_route m r.addr 0 r.addr) [
      | none ↦ m
      | some j ↦ modify_route j (λ x. record x { alm_next_hop = x.alm_next_hop / 2 }) m
    ] in
    fade_rounds env k (i + 1) (if late then faded else n)

unfoldable pub calculate_nms_alm : Env → Node → Option Node
calculate_nms_alm env n = set_timeout env nms_alm_timer 5000 (fade_rounds env 10 0 n)

abbrev pub start_once : ℕ → Handler → (Node → Option Node) → Node → Option Node
start_once timer f run n = if timer_used n timer then some n else start_timer timer f n >>= run

unfoldable pub alm_start : Env → Node → Option Node
alm_start env n = do
  a ← start_once sch_hello_check_timer sch_hello_check (check_sch_hello env) n
  b ← start_once alm_timer alm_calculator (calculate_alm env) a
  if b.root_node == 1
      then start_once nms_alm_timer nms_alm_calculator (calculate_nms_alm env) b
      else some b
