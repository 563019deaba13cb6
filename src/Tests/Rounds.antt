-- ===== src/Tests/Rounds.antt =====
-- `Timer_timeout` at a concrete state.
use ajou_etri_project.Base.{
  ℕ, zero, suc, ◌++◌, ◌+◌, ◌≡◌, refl, replicate, true, some, [], ◌∷◌, Ensures, arith,
}
use ajou_etri_project.TxQueue.Refine.{init_q-IsValid}
use ajou_etri_project.Timer.{Timers, zero_time, timer_at, is_linked, expire, timeval_diff}
use ajou_etri_project.Node.{Node, Handler, hello_timeout_process, alm_calculator}
use ajou_etri_project.Node.Run.{run_expired, timer_timeout}
use ajou_etri_project.Node.Sound.Rounds.{timer_timeout-IsSound, timer_timeout-ends}
use ajou_etri_project.Node.Sound.{IsSound}
use ajou_etri_project.Tests.Nodes.{idle, some_node, noon, unused}

-- A check of the neighbours and a measure are due at noon, in this order; the second is of timer 5.
abbrev busy_timers : Timers Handler
busy_timers = record {
  timers =
      replicate 4 idle
      ++ record { used = true; timeout = zero_time; handler = some hello_timeout_process }
        ∷ record { used = true; timeout = zero_time; handler = some alm_calculator }
        ∷ replicate 14 idle;
  tq = 4 ∷ 5 ∷ [];
  exp_tq = [];
}

abbrev busy_node : Node
busy_node = record some_node { timers = busy_timers }

busy_flags : (i : ℕ) → (timer_at busy_timers i).used ≡ is_linked busy_timers i
busy_flags zero = refl
busy_flags (suc zero) = refl
busy_flags (suc (suc zero)) = refl
busy_flags (suc (suc (suc zero))) = refl
busy_flags (suc (suc (suc (suc zero)))) = refl
busy_flags (suc (suc (suc (suc (suc zero))))) = refl
busy_flags (suc (suc (suc (suc (suc (suc i)))))) = ground (arith, unused 14 i)

busy_node-IsSound : IsSound 0 busy_node
busy_node-IsSound = record {
  routes = refl;
  waiting = refl;
  rows = refl;
  queue = init_q-IsValid;
  clocks = record {
    ordered = ((omega arith, tt), (tt, tt));
    distinct = (refl, (refl, tt));
    distinct_exp = tt;
    apart = λ i. ground arith;
    flag = busy_flags;
  };
  clock_count = refl;
  expired = omega arith;
}

timer_timeout-IsSound_example : Ensures (IsSound 0) (timer_timeout noon busy_node)
timer_timeout-IsSound_example = timer_timeout-IsSound noon busy_node-IsSound

timer_timeout-ends_example :
    run_expired noon
      (2 + 7)
      (record busy_node { timers = record busy_timers { tq = []; exp_tq = 4 ∷ 5 ∷ [] } })
    ≡ timer_timeout noon busy_node
unfolding expire timeval_diff
timer_timeout-ends_example = timer_timeout-ends noon 7 busy_node-IsSound
