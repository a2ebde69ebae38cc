-- ===== src/Scheduler/Ticks.antt =====
-- The timer interrupt, and all functions together: linuxpintos/src/threads/thread.c and linuxpintos/src/devices/timer.c.
use tddb68_collab.Base.{
  ℕ, ◌+◌, ◌≡◌, ◌≢◌, refl, ap, ◌∙◌, Bool, true, false, Option, none, some, [], ◌++◌, leb, arith,
}
use tddb68_collab.Base.Int.{ℤ, pos, negsuc}
use tddb68_collab.Base.Copies.{copies, copies-++}
use tddb68_collab.Base.Kernel.{runs}
use tddb68_collab.Scheduler.{
  blocked, Scheduler, thread_unblock, thread_block, thread_exit, thread_yield, timer_sleep,
  thread_add_to_waiting, counted, thread_tick, timer_interrupt, on_timer,
}
use tddb68_collab.Scheduler.Waking.{due, asleep, due-copies, asleep-copies, Woken, wake_due-Woken}
use tddb68_collab.Scheduler.Steps.{
  IsValid, Keeps, current-runs, is_current, block-Keeps, exit-Keeps, yield-Keeps, sleep-Keeps,
  unblock-IsValid,
}

module _ (idle initial : ℕ) (has_pagedir : ℕ → Bool) where
  -- The state in which the sleeping threads are looked at.
  abbrev pub ticked : Scheduler → Scheduler
  ticked s = record s {
    ticks = s.ticks + 1;
    statistics = counted idle initial has_pagedir s.statistics s.current;
    thread_ticks = s.thread_ticks + 1;
  }

  tick-Woken :
      (s : Scheduler)
      → IsValid idle s
      → (s' : Scheduler) × (timer_interrupt idle initial has_pagedir s ≡ runs (s', true))
        × Woken [] s.waiting_list (ticked s) s'
  unfolding timer_interrupt thread_tick
  tick-Woken s v =
      let (s', run, w) = wake_due-Woken [] s.waiting_list (ticked s) refl v.sleep in
      let slice : leb 1 (s.thread_ticks + 1) ≡ true = ground arith in
      (
        s',
        rw
            (
              current-runs idle initial has_pagedir (record s { ticks = s.ticks + 1 })
                  (is_current idle initial has_pagedir s v),
              run,
              slice,
            )
            refl,
        w,
      )

  Woken-IsValid :
      (s s' : Scheduler) → IsValid idle s → Woken [] s.waiting_list (ticked s) s' → IsValid idle s'
  Woken-IsValid s s' v w =
      let now = s.ticks + 1 in
      let woken = due s.wake_tick now s.waiting_list in
      let kept = asleep s.wake_tick now s.waiting_list in
      let ready_copies : (t : ℕ) → copies s'.ready_list t ≡ copies s.ready_list t + copies woken t =
        λ t. ap (λ l. copies l t) w.ready_list ∙ copies-++ s.ready_list woken t in
      let waiting_copies : (t : ℕ) → copies s'.waiting_list t ≡ copies kept t =
        λ t. ap (λ l. copies l t) w.waiting_list in
      record {
        one_runs = λ t. ground (
          arith,
          w.status t,
          v.one_runs t,
          v.sleep t,
          w.current,
          due-copies s.wake_tick now s.waiting_list t,
        );
        queue = λ t. ground (
          arith,
          w.status t,
          v.queue t,
          v.sleep t,
          v.idle_awake,
          ready_copies t,
          due-copies s.wake_tick now s.waiting_list t,
        );
        sleep = λ t. ground (
          arith,
          w.status t,
          v.sleep t,
          waiting_copies t,
          due-copies s.wake_tick now s.waiting_list t,
          asleep-copies s.wake_tick now s.waiting_list t,
        );
        idle_awake = ground (
          arith,
          waiting_copies idle,
          v.idle_awake,
          asleep-copies s.wake_tick now s.waiting_list idle,
        );
      }

  -- In a valid state the timer interrupt does not panic, and leaves a valid state: each sleeping thread whose
  -- `wake_tick` is at most the new number of ticks is taken off the waiting list and put at the end of
  -- the ready list, in the order in which they went to sleep, the others sleep on, and the current thread
  -- is made to yield.
  pub timer_interrupt_lem :
      (s : Scheduler)
      → IsValid idle s
      → (s' : Scheduler) × (timer_interrupt idle initial has_pagedir s ≡ runs (s', true))
        × IsValid idle s'
        × (s'.ticks ≡ s.ticks + 1)
        × (s'.current ≡ s.current)
        × (s'.ready_list ≡ s.ready_list ++ due s.wake_tick (s.ticks + 1) s.waiting_list)
        × (s'.waiting_list ≡ asleep s.wake_tick (s.ticks + 1) s.waiting_list)
  timer_interrupt_lem s v =
      let (s', run, w) = tick-Woken s v in
      (s', run, Woken-IsValid s s' v w, w.ticks, w.current, w.ready_list, w.waiting_list)

  pub timer-Keeps :
      (s : Scheduler)
      → IsValid idle s
      → Keeps idle initial has_pagedir (on_timer idle initial has_pagedir s)
  unfolding on_timer
  timer-Keeps s v =
      let (s', run, w) = tick-Woken s v in
      rw (run) (yield-Keeps idle initial has_pagedir s' (Woken-IsValid s s' v w))

  sleep-runs :
      (s : Scheduler) (n : ℤ)
      → IsValid idle s
      → (w : Option (ℕ × ℕ)) × (timer_sleep idle initial has_pagedir true s n ≡ runs w)
  unfolding timer_sleep
  sleep-runs s (negsuc n) v = (none, refl)
  sleep-runs s (pos n) v = (
    some (s.current, s.ticks + n),
    rw (current-runs idle initial has_pagedir s (is_current idle initial has_pagedir s v)) refl,
  )

  -- In a valid state in which the idle thread does not run, none of the functions of the scheduler panics when it is called
  -- as its assertions on interrupts ask for, and each leaves a valid state: with interrupts off and outside of an interrupt
  -- handler blocking; outside of a handler yielding, the end of the thread and sleeping until any tick; with interrupts on
  -- the computation of that tick; and the timer interrupt, and unblocking a thread that is blocked but not asleep, and not
  -- the idle thread.
  pub all-Keeps :
      (s : Scheduler) (n : ℤ) (wake t : ℕ)
      → IsValid idle s
      → s.current ≢ idle
      → s.status t ≡ blocked
      → t ≢ idle
      → copies s.waiting_list t ≡ 0
      → Keeps idle initial has_pagedir (thread_block idle initial has_pagedir false false s)
        × Keeps idle initial has_pagedir (thread_yield idle initial has_pagedir false s)
        × Keeps idle initial has_pagedir (on_timer idle initial has_pagedir s)
        × Keeps idle initial has_pagedir (thread_exit idle initial has_pagedir false s)
        × ((w : Option (ℕ × ℕ)) × (timer_sleep idle initial has_pagedir true s n ≡ runs w))
        × Keeps idle initial has_pagedir
            (thread_add_to_waiting idle initial has_pagedir false s s.current wake)
        × ((s' : Scheduler) × (thread_unblock s t ≡ runs s') × IsValid idle s')
  all-Keeps s n wake t v ne b tne awake = (
    block-Keeps idle initial has_pagedir s v,
    yield-Keeps idle initial has_pagedir s v,
    timer-Keeps s v,
    exit-Keeps idle initial has_pagedir s v ne,
    sleep-runs s n v,
    sleep-Keeps idle initial has_pagedir s wake v ne,
    unblock-IsValid idle initial has_pagedir s t v b tne awake,
  )
