-- ===== src/Scheduler.antt =====
-- The scheduler and the sleeping threads: linuxpintos/src/threads/thread.c and linuxpintos/src/devices/timer.c. A thread is
-- its number; one that does not exist yet counts as blocked, as `init_thread` leaves it. The functions
-- have interrupts off where they change the state, so that each is one step; `timer_sleep` has not, so it ends before
-- `thread_add_to_waiting`. What runs between them is not part of the model. `intr_on` and `intr_context` are
-- `intr_get_level () == INTR_ON` and `intr_context ()` when a function is called that asserts something of them.
pub mod Waking
pub mod Steps
pub mod Ticks
pub mod Fairness
mod Tests
use tddb68_collab.Base.{
  ℕ, zero, suc, ◌+◌, Bool, true, false, not, ◌&&◌, Option, none, some, List, [], ◌∷◌, ◌++◌, ◌==◌,
  leb, if◌then◌else◌,
}
use tddb68_collab.Base.Int.{ℤ, pos, negsuc}
use tddb68_collab.Base.Kernel.{Kernel, runs, panics, ◌>>=◌, ◌>>◌, assert}

-- `enum thread_status`
pub data Status : Type 0 where
  running ready blocked dying : Status

abbrev pub is_running : Status → Bool
is_running running = true
is_running _ = false

abbrev pub is_blocked : Status → Bool
is_blocked blocked = true
is_blocked _ = false

abbrev pub is_dying : Status → Bool
is_dying dying = true
is_dying _ = false

-- `idle_ticks`, `user_ticks` and `kernel_ticks`.
pub record Statistics : Type 0 where
  pub idle_ticks : ℕ
  pub user_ticks : ℕ
  pub kernel_ticks : ℕ

-- The threads' fields and the variables of the two files.
pub record Scheduler : Type 0 where
  pub current : ℕ
  pub ready_list : List ℕ
  pub waiting_list : List ℕ
  pub status : ℕ → Status
  pub wake_tick : ℕ → ℕ
  pub ticks : ℕ
  pub thread_ticks : ℕ
  pub statistics : Statistics

abbrev pub mark : (ℕ → Status) → (t : ℕ) → Status → ℕ → Status
mark status t new u = if u == t then new else status u

abbrev pub time_slice : ℕ
time_slice = 1

pub thread_current : Scheduler → Kernel ℕ
thread_current s = do assert (is_running (s.status s.current)); runs s.current

pub thread_unblock : Scheduler → (t : ℕ) → Kernel Scheduler
thread_unblock s t = do
  assert (is_blocked (s.status t))
  runs (record s { ready_list = s.ready_list ++ (t ∷ []); status = mark s.status t ready })

-- The thread, and the ready list without it.
pub next_thread_to_run : (idle_thread : ℕ) → List ℕ → ℕ × List ℕ
next_thread_to_run idle_thread [] = (idle_thread, [])
next_thread_to_run idle_thread (t ∷ rest) = (t, rest)

-- The thread whose page `schedule_tail` frees.
pub freed : (initial_thread prev next : ℕ) → Status → Option ℕ
freed initial_thread prev next status =
    if not (prev == next) && is_dying status && not (prev == initial_thread)
    then some prev
    else none

-- `list_remove` of the element of a thread.
pub without : ℕ → List ℕ → List ℕ
without t [] = []
without t (u ∷ us) = let rest = without t us in if u == t then us else u ∷ rest

-- The loop of `thread_tick` over the rest of the waiting list. An element that was removed still has its
-- pointer to the next one.
pub wake_due : List ℕ → Scheduler → Kernel Scheduler
wake_due [] s = runs s
wake_due (t ∷ rest) s =
    if leb (s.wake_tick t) s.ticks
    then (thread_unblock s t >>= λ s'.
        wake_due rest (record s' { waiting_list = without t s'.waiting_list }))
    else wake_due rest s

-- `idle_thread` and `initial_thread`, and the threads with a page directory.
module _ (idle_thread initial_thread : ℕ) (has_pagedir : ℕ → Bool) where
  -- Also returns the thread whose page is freed.
  pub schedule : (intr_on : Bool) → Scheduler → Kernel (Scheduler × Option ℕ)
  schedule intr_on s = do
    let (next, rest) = next_thread_to_run idle_thread s.ready_list
    assert (not intr_on)
    assert (not (is_running (s.status s.current)))
    runs (
      record s {
        current = next;
        ready_list = rest;
        status = mark s.status next running;
        thread_ticks = 0;
      },
      freed initial_thread s.current next (s.status s.current),
    )

  pub thread_block : (intr_on intr_context : Bool) → Scheduler → Kernel (Scheduler × Option ℕ)
  thread_block intr_on intr_context s = do
    assert (not intr_context)
    assert (not intr_on)
    cur ← thread_current s
    schedule intr_on (record s { status = mark s.status cur blocked })

  -- Without `process_exit`.
  pub thread_exit : (intr_context : Bool) → Scheduler → Kernel (Scheduler × Option ℕ)
  thread_exit intr_context s = do
    assert (not intr_context)
    cur ← thread_current s
    schedule false (record s { status = mark s.status cur dying })

  pub thread_yield : (intr_context : Bool) → Scheduler → Kernel (Scheduler × Option ℕ)
  thread_yield intr_context s = do
    cur ← thread_current s
    assert (not intr_context)
    let list = if not (cur == idle_thread) then s.ready_list ++ (cur ∷ []) else s.ready_list
    schedule false (record s { ready_list = list; status = mark s.status cur ready })

  pub thread_add_to_waiting :
      (intr_context : Bool) → Scheduler → (f wake_tick : ℕ) → Kernel (Scheduler × Option ℕ)
  thread_add_to_waiting intr_context s f wake_tick = thread_block false intr_context (record s {
    wake_tick = λ u. if u == f then wake_tick else s.wake_tick u;
    waiting_list = s.waiting_list ++ (f ∷ []);
  })

  -- The arguments of `thread_add_to_waiting`, if it is called. The ticks since the start fit an `int64_t`.
  pub timer_sleep : (intr_on : Bool) → Scheduler → (ticks : ℤ) → Kernel (Option (ℕ × ℕ))
  timer_sleep intr_on s (negsuc n) = runs none
  timer_sleep intr_on s (pos num_ticks) = do
    assert intr_on
    cur ← thread_current s
    runs (some (cur, s.ticks + num_ticks))

  abbrev pub counted : Statistics → (cur : ℕ) → Statistics
  counted n cur =
      if cur == idle_thread
      then record n { idle_ticks = n.idle_ticks + 1 }
      else if has_pagedir cur
      then record n { user_ticks = n.user_ticks + 1 }
      else record n { kernel_ticks = n.kernel_ticks + 1 }

  -- Also returns whether `intr_yield_on_return` is called.
  pub thread_tick : Scheduler → Kernel (Scheduler × Bool)
  thread_tick s = do
    cur ← thread_current s
    let counts = s.thread_ticks + 1
    woken ←
        wake_due s.waiting_list
          (record s { statistics = counted s.statistics cur; thread_ticks = counts })
    runs (woken, leb time_slice counts)

  pub timer_interrupt : Scheduler → Kernel (Scheduler × Bool)
  timer_interrupt s = thread_tick (record s { ticks = s.ticks + 1 })

  -- The timer interrupt with the yield on return from it, when `intr_context ()` is false again.
  pub on_timer : Scheduler → Kernel (Scheduler × Option ℕ)
  on_timer s = do
    (ticked, yield_on_return) ← timer_interrupt s
    if yield_on_return then thread_yield false ticked else runs (ticked, none)

-- After `thread_init` and the first round of the idle thread: only the initial thread is not blocked.
unfoldable pub thread_init : (initial_thread : ℕ) → Scheduler
thread_init initial_thread = record {
  current = initial_thread;
  ready_list = [];
  waiting_list = [];
  status = λ t. if t == initial_thread then running else blocked;
  wake_tick = λ t. 0;
  ticks = 0;
  thread_ticks = 0;
  statistics = record { idle_ticks = 0; user_ticks = 0; kernel_ticks = 0 };
}
