-- ===== src/Scheduler/Tests.antt =====
-- Three threads and the idle thread, 2: linuxpintos/src/threads/thread.c.
use tddb68_collab.Base.{
  ℕ, ◌≡◌, refl, Bool, true, false, Option, none, [], ◌∷◌, ◌++◌, ◌==◌, if◌then◌else◌, arith,
}
use tddb68_collab.Base.Int.{pos}
use tddb68_collab.Base.Copies.{copies}
use tddb68_collab.Base.Kernel.{runs}
use tddb68_collab.Scheduler.{
  running, ready, blocked, Scheduler, mark, thread_current, thread_unblock, next_thread_to_run,
  freed, schedule, thread_block, thread_exit, thread_yield, timer_sleep, thread_add_to_waiting,
  timer_interrupt, on_timer, thread_init,
}
use tddb68_collab.Scheduler.Waking.{due, asleep}
use tddb68_collab.Scheduler.Steps.{IsValid, Keeps}
use tddb68_collab.Scheduler.Ticks.{timer_interrupt_lem, all-Keeps}
use tddb68_collab.Scheduler.Fairness.{Runs, switch, here, yield, HasTurn, no_starvation}

abbrev no_pagedir : ℕ → Bool
no_pagedir t = false

thread_init-IsValid : IsValid 2 (thread_init 1)
unfolding thread_init copies
thread_init-IsValid = record {
  one_runs = λ t. ground arith;
  queue = λ t. ground arith;
  sleep = λ t. ground arith;
  idle_awake = refl;
}

-- 1 runs, 3 is ready, 4 sleeps until tick 10 and 5 until tick 30; it is tick 9.
abbrev busy : Scheduler
busy = record {
  current = 1;
  ready_list = 3 ∷ [];
  waiting_list = 4 ∷ 5 ∷ [];
  status = mark (mark (λ t. blocked) 1 running) 3 ready;
  wake_tick = λ t. if t == 4 then 10 else 30;
  ticks = 9;
  thread_ticks = 0;
  statistics = record { idle_ticks = 0; user_ticks = 0; kernel_ticks = 0 };
}

busy-IsValid : IsValid 2 busy
unfolding copies
busy-IsValid = record {
  one_runs = λ t. ground arith;
  queue = λ t. ground arith;
  sleep = λ t. ground arith;
  idle_awake = refl;
}

timer_interrupt_lem_example :
    (s' : Scheduler) × (timer_interrupt 2 1 no_pagedir busy ≡ runs (s', true))
    × IsValid 2 s'
    × (s'.ticks ≡ 10)
    × (s'.current ≡ 1)
    × (s'.ready_list ≡ (3 ∷ []) ++ due busy.wake_tick 10 (4 ∷ 5 ∷ []))
    × (s'.waiting_list ≡ asleep busy.wake_tick 10 (4 ∷ 5 ∷ []))
timer_interrupt_lem_example = timer_interrupt_lem 2 1 no_pagedir busy busy-IsValid

six_awake : copies busy.waiting_list 6 ≡ 0
unfolding copies
six_awake = refl

all-Keeps_example :
    Keeps 2 1 no_pagedir (thread_block 2 1 no_pagedir false false busy)
    × Keeps 2 1 no_pagedir (thread_yield 2 1 no_pagedir false busy)
    × Keeps 2 1 no_pagedir (on_timer 2 1 no_pagedir busy)
    × Keeps 2 1 no_pagedir (thread_exit 2 1 no_pagedir false busy)
    × ((w : Option (ℕ × ℕ)) × (timer_sleep 2 1 no_pagedir true busy (pos 5) ≡ runs w))
    × Keeps 2 1 no_pagedir (thread_add_to_waiting 2 1 no_pagedir false busy 1 14)
    × ((s' : Scheduler) × (thread_unblock busy 6 ≡ runs s') × IsValid 2 s')
all-Keeps_example =
    all-Keeps 2 1 no_pagedir busy (pos 5) 14 6 busy-IsValid (λ e. absurd (ground arith)) refl
      (λ e. absurd (ground arith)) six_awake

-- 1 yields, and 3 runs.
abbrev yielded : Scheduler
yielded = record busy {
  current = 3;
  ready_list = 1 ∷ [];
  status = mark (mark busy.status 1 ready) 3 running;
}

yielded_run : Runs 2 1 no_pagedir busy 1 yielded
unfolding thread_yield schedule thread_current next_thread_to_run freed
yielded_run = switch here (yield yielded none refl)

no_starvation_example : HasTurn 2 1 no_pagedir 3 yielded_run
no_starvation_example =
    no_starvation 2 1 no_pagedir {t = 3} {k = 0} yielded_run busy-IsValid ([], [], refl, refl)
      (omega arith)
