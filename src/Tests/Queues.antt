-- ===== src/Tests/Queues.antt =====
-- The transmission queue of wsm/mesh_extern.c and the timers of wsm/aodv.c at concrete inputs.
use ajou_etri_project.Base.{
  ℕ, zero, suc, sym, ◌+◌, ◌*◌, ◌<◌, ◌≤◌, ◌≡◌, refl, true, false, some, List, [], ◌∷◌, ◌++◌, All,
  set, replicate, arith,
}
use mathlib.Core.Option
use ajou_etri_project.TxQueue.{slot, Queue, cleared, init_q, addq}
use ajou_etri_project.TxQueue.Fifo
use ajou_etri_project.TxQueue.Refine.{IsValid, view, frame, init_q-IsValid, addq_refines}
use ajou_etri_project.TxQueue.History.{Call, add, delete, run, fifo_run, run_refines}
use ajou_etri_project.Timer
use ajou_etri_project.Timer.{Timeval, Timers, micros, due, is_linked, timer_set_timeout, expire}
use ajou_etri_project.Timer.Order.{Ordered}
use ajou_etri_project.Timer.Queue
use ajou_etri_project.Timer.Schedule.{timer_set_timeout-IsValid}
use ajou_etri_project.Timer.Expiry.{expire-splits}

-- One frame that waits, of a queue that was served before.
abbrev one_queue : Queue ℕ
one_queue = record {
  slots = set (replicate 20 (cleared ℕ)) 1 (frame 7 5 1 0);
  front = slot 0;
  rear = slot 1;
}

one_queue-IsValid : IsValid one_queue
one_queue-IsValid = record { slots_all = refl; placed = (omega arith, omega arith) }

abbrev calls : List (Call ℕ)
calls = add 5 7 1 0 ∷ delete ∷ add 2048 8 0 1 ∷ delete ∷ delete ∷ []

run_refines_example :
    Option.map view (run (init_q {A = ℕ}) calls) ≡ some (fifo_run (view init_q) calls)
run_refines_example =
    run_refines calls init_q-IsValid (omega arith, (tt, (omega arith, (tt, (tt, tt)))))

addq_refines_example :
    Option.map view (addq one_queue 9 8 1 0) ≡ some (Fifo.push (view one_queue) (frame 8 9 1 0))
addq_refines_example = addq_refines {q = one_queue} 9 1 0 8 one_queue-IsValid (omega arith)

-- Two timers with a handler, the first one queued.
abbrev two_timers : Timers ℕ
two_timers = record {
  timers =
      record { used = true; timeout = record { tv_sec = 3; tv_usec = 0 }; handler = some 1 }
      ∷ record { used = false; timeout = record { tv_sec = 0; tv_usec = 0 }; handler = some 2 }
      ∷ [];
  tq = 0 ∷ [];
  exp_tq = [];
}

abbrev at_five : Timeval
at_five = record { tv_sec = 5; tv_usec = 999500 }

flags : (i : ℕ) → (Timer.timer_at two_timers i).used ≡ is_linked two_timers i
flags zero = refl
flags (suc zero) = refl
flags (suc (suc i)) = sym (apart (suc (suc i)) (omega arith))
  where
    apart : (i : ℕ) → 2 ≤ i → is_linked two_timers i ≡ false
    apart i h = ground arith

two_timers-IsValid : Timer.Queue.IsValid two_timers
two_timers-IsValid = record {
  ordered = (tt, tt);
  distinct = (refl, tt);
  distinct_exp = tt;
  apart = λ i. ground arith;
  flag = flags;
}

timer_set_timeout-IsValid_example :
    (r : Timers ℕ) × (timer_set_timeout at_five two_timers 0 2001 ≡ some r)
    × Timer.Queue.IsValid r
    × (is_linked r 0 ≡ true)
    × (micros (due r 0) ≡ micros at_five + 2001 * 1000)
timer_set_timeout-IsValid_example =
    timer_set_timeout-IsValid at_five 0 2001 two_timers-IsValid (omega arith) refl

expire-splits_example :
    let r = expire at_five two_timers in
    (two_timers.tq ≡ r.exp_tq ++ r.tq)
    × All (λ i. micros (due two_timers i) < micros at_five + 1000) r.exp_tq
    × All (λ i. micros at_five < micros (due two_timers i)) r.tq
    × Ordered (due r) r.tq
expire-splits_example = expire-splits at_five two_timers-IsValid refl
