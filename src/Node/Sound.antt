-- ===== src/Node/Sound.antt =====
-- The invariant of the daemon's state, and the operations of `Node` that keep it.
pub mod Hearing
pub mod Announcing
pub mod Requesting
pub mod Answering
pub mod Losing
pub mod Receiving
pub mod TimingOut
pub mod Handling
pub mod Rounds
pub mod Starting
pub mod Commanding
use ajou_etri_project.Base.{
  ℕ, ◌+◌, ◌<◌, ◌≤◌, ◌≡◌, refl, ap, ◌∙◌, subst, sym, Bool, true, false, Option, none, some, List,
  map, modify, ◌==◌, ltb, if◌then◌else◌, ◌>>=◌, length, length-modify, length-replicate, Ensures,
  Ensures-bind, Ensures-if, Ensures-map, Ensures-of, Option-elim, ends, arith,
}
use ajou_etri_project.Msg.{Addr, Frame}
use ajou_etri_project.TxQueue
use ajou_etri_project.TxQueue.Refine
use ajou_etri_project.Timer
use ajou_etri_project.Timer.Queue
use ajou_etri_project.Timer.Steps.{
  Stays, timer_set_timeout-Stays, timer_init-Stays, timer_remove-Stays,
}
use ajou_etri_project.Route
use ajou_etri_project.Route.{NewRoute, empty_route}
use ajou_etri_project.Route.Insert.{insert-size}
use ajou_etri_project.Nms
use ajou_etri_project.Nms.Size.{length-map, length-insert, length-perr_update, empty_rows-length}
use ajou_etri_project.Node.{
  Node, Env, Handler, Tmp, stop_timer, set_timeout, start_timer, rt_table_empty, rt_nms_reset,
  nms_insert, nms_record, find_route, route,
}
use ajou_etri_project.Node.Keeps.{Keeps}
use ajou_etri_project.Node.Hello.{modify_route, insert_route}

-- Ten routes, ten requests that wait, twelve rows, twenty timers, a valid queue and valid timers, of
-- which at most `owed` have expired and wait for their handlers.
pub record IsSound (owed : ℕ) (n : Node) : Type 0 where
  pub routes : length n.rt_t ≡ 10
  pub waiting : length n.tmp_preq ≡ 10
  pub rows : length n.nms_t ≡ 12
  pub queue : TxQueue.Refine.IsValid n.tq
  pub clocks : Timer.Queue.IsValid n.timers
  pub clock_count : length n.timers.timers ≡ 20
  pub expired : length n.timers.exp_tq ≤ owed

-- What the invariant speaks of.
abbrev pub parts :
    Node → Route.Table × List Tmp × Nms.Table × TxQueue.Queue Frame × Timer.Timers Handler
parts n = (n.rt_t, n.tmp_preq, n.nms_t, n.tq, n.timers)

length-empty_route : (t : Route.Table) (i : ℕ) → length t ≡ 10 → length (empty_route t i) ≡ 10
unfolding empty_route
length-empty_route t i h = ground (arith, length-modify t i (λ r. Route.blank))

module _ {owed : ℕ} where
  pub Keeps-IsSound : {n m : Node} → IsSound owed n → Keeps n m → IsSound owed m
  Keeps-IsSound v k = record {
    routes = ap length (ap (λ c. c.routes) k.same) ∙ v.routes;
    waiting = ap length (ap (λ c. c.waiting) k.same) ∙ v.waiting;
    rows = ap length (ap (λ c. c.rows) k.same) ∙ v.rows;
    queue = k.queued v.queue;
    clocks = subst Timer.Queue.IsValid (sym (ap (λ c. c.clocks) k.same)) v.clocks;
    clock_count = ap (λ c. length c.clocks.timers) k.same ∙ v.clock_count;
    expired = subst (λ c. length c.exp_tq ≤ owed) (sym (ap (λ c. c.clocks) k.same)) v.expired;
  }

  -- A step that keeps those variables keeps the invariant.
  pub kept :
      {n : Node} {o : Option Node} → IsSound owed n → Ensures (Keeps n) o → Ensures (IsSound owed) o
  kept v h = Ensures-map h (λ m k. Keeps-IsSound v k)

  with_timers :
      {n : Node} {s : Timer.Timers Handler}
      → IsSound owed n
      → Stays n.timers s
      → IsSound owed (record n { timers = s })
  with_timers v t = record {
    routes = v.routes;
    waiting = v.waiting;
    rows = v.rows;
    queue = v.queue;
    clocks = t.valid;
    clock_count = t.size ∙ v.clock_count;
    expired = omega (arith, t.expired, v.expired);
  }

  pub with_queue :
      {n : Node} {q : TxQueue.Queue Frame}
      → IsSound owed n
      → TxQueue.Refine.IsValid q
      → IsSound owed (record n { tq = q })
  with_queue v h = record {
    routes = v.routes;
    waiting = v.waiting;
    rows = v.rows;
    queue = h;
    clocks = v.clocks;
    clock_count = v.clock_count;
    expired = v.expired;
  }

  pub with_rows :
      {n : Node} {t : Nms.Table}
      → IsSound owed n
      → length t ≡ 12
      → IsSound owed (record n { nms_t = t })
  with_rows v h = record {
    routes = v.routes;
    waiting = v.waiting;
    rows = h;
    queue = v.queue;
    clocks = v.clocks;
    clock_count = v.clock_count;
    expired = v.expired;
  }

  pub with_routes :
      {n : Node} {t : Route.Table}
      → IsSound owed n
      → length t ≡ 10
      → IsSound owed (record n { rt_t = t })
  with_routes v h = record {
    routes = h;
    waiting = v.waiting;
    rows = v.rows;
    queue = v.queue;
    clocks = v.clocks;
    clock_count = v.clock_count;
    expired = v.expired;
  }

  pub with_waiting :
      {n : Node} {t : List Tmp}
      → IsSound owed n
      → length t ≡ 10
      → IsSound owed (record n { tmp_preq = t })
  with_waiting v h = record {
    routes = v.routes;
    waiting = h;
    rows = v.rows;
    queue = v.queue;
    clocks = v.clocks;
    clock_count = v.clock_count;
    expired = v.expired;
  }

  pub set_timeout-IsSound :
      (env : Env) (timer msec : ℕ) {n : Node}
      → timer < 20
      → IsSound owed n
      → Ensures (IsSound owed) (set_timeout env timer msec n)
  unfolding set_timeout
  set_timeout-IsSound env timer msec {n} l v =
      Ensures-bind
        (timer_set_timeout-Stays env.now timer msec v.clocks (omega (arith, v.clock_count)))
        (λ t h. ends (with_timers v h))

  pub start_timer-IsSound :
      (timer : ℕ) (f : Handler) {n : Node}
      → IsSound owed n
      → Ensures (IsSound owed) (start_timer timer f n)
  unfolding start_timer
  start_timer-IsSound timer f {n} v =
      Ensures-bind (timer_init-Stays timer f v.clocks) (λ t h. ends (with_timers v h))

  pub modify_route-IsSound :
      (i : ℕ) (f : Route.Route → Route.Route) {n : Node}
      → IsSound owed n
      → IsSound owed (modify_route i f n)
  modify_route-IsSound i f {n} v = with_routes v (length-modify n.rt_t i f ∙ v.routes)

  pub rt_table_empty-IsSound :
      (i : ℕ) {n : Node} → IsSound owed n → IsSound owed (rt_table_empty i n)
  unfolding rt_table_empty
  rt_table_empty-IsSound i {n} v =
      with_waiting (with_routes v (length-empty_route n.rt_t i v.routes)) (freed (i == 10))
    where
      freed :
          (b : Bool)
          → length (
              if b
              then map {A = Tmp} (λ t. record t { used = false }) n.tmp_preq
              else modify n.tmp_preq i (λ t. record t { used = false }))
            ≡ 10
      freed true = length-map _ n.tmp_preq ∙ v.waiting
      freed false = length-modify n.tmp_preq i _ ∙ v.waiting

  pub rt_nms_reset-IsSound : {n : Node} → IsSound owed n → Ensures (IsSound owed) (rt_nms_reset n)
  unfolding rt_nms_reset
  rt_nms_reset-IsSound {n} v =
      Ensures-bind
        (Ensures-if (n.root_node == 1) (empty_rows-length n.config n.my_mac n.nms_t 12) (ends refl))
        (λ t h. ends (rt_table_empty-IsSound 10 (with_rows v (h ∙ v.rows))))

  pub nms_insert-IsSound :
      (addr neighbor : Addr) (r_ch state is_hello : ℕ) {n : Node}
      → IsSound owed n
      → IsSound owed (nms_insert addr neighbor r_ch state is_hello n)
  nms_insert-IsSound addr neighbor r_ch state is_hello {n} v =
      with_rows v (length-insert n.config n.nms_t addr neighbor r_ch state is_hello ∙ v.rows)

  pub modify_row-IsSound :
      (i : ℕ) (f : Nms.Row → Nms.Row) {n : Node}
      → IsSound owed n
      → IsSound owed (record n { nms_t = modify n.nms_t i f })
  modify_row-IsSound i f {n} v = with_rows v (length-modify n.nms_t i f ∙ v.rows)

  pub perr_update-IsSound :
      (a : Addr) {n : Node}
      → IsSound owed n
      → IsSound owed (record n { nms_t = Nms.perr_update n.nms_t a })
  perr_update-IsSound a {n} v = with_rows v (length-perr_update n.nms_t a ∙ v.rows)

  pub nms_record-IsSound :
      (addr neighbor : Addr) (r_ch state is_hello : ℕ) {n : Node}
      → IsSound owed n
      → IsSound owed (nms_record addr neighbor r_ch state is_hello n)
  nms_record-IsSound addr neighbor r_ch state is_hello {n} v =
      Option-elim (IsSound owed) (Nms.find n.nms_t addr)
        (nms_insert-IsSound addr neighbor r_ch state is_hello v) (λ i. modify_row-IsSound i _ v)

  -- The new entry is one of the ten.
  pub insert_route-IsSound :
      (env : Env) (a : NewRoute) {n : Node}
      → IsSound owed n
      → Ensures (λ r. ((i : ℕ) → r.0 ≡ some i → i < 10) × IsSound owed r.1) (insert_route env a n)
  unfolding insert_route
  insert_route-IsSound env a {n} v =
      Ensures-bind
        (Ensures-of (Route.insert env.now n.rt_t a) (λ r e. insert-size env.now n.rt_t a e))
        (λ r h. ends (λ i e. omega (arith, h.1 i e, v.routes), with_routes v (h.0 ∙ v.routes)))

  pub stop_timer-IsSound : (i : ℕ) {n : Node} → IsSound owed n → IsSound owed (stop_timer i n)
  stop_timer-IsSound i {n} v = with_timers v (timer_remove-Stays i v.clocks)

  pub same_parts : {n m : Node} → IsSound owed n → parts m ≡ parts n → IsSound owed m
  same_parts v e = record {
    routes = ap (λ p. length p.0) e ∙ v.routes;
    waiting = ap (λ p. length p.1) e ∙ v.waiting;
    rows = ap (λ p. length p.2) e ∙ v.rows;
    queue = subst TxQueue.Refine.IsValid (sym (ap (λ p. p.3) e)) v.queue;
    clocks = subst Timer.Queue.IsValid (sym (ap (λ p. p.4) e)) v.clocks;
    clock_count = ap (λ p. length p.4.timers) e ∙ v.clock_count;
    expired = subst (λ c. length c.exp_tq ≤ owed) (sym (ap (λ p. p.4) e)) v.expired;
  }
