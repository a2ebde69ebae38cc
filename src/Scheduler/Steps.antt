-- ===== src/Scheduler/Steps.antt =====
-- What every function of the scheduler keeps, and that none of them panics: linuxpintos/src/threads/thread.c.
use tddb68_collab.Base.{
  ℕ, ◌≡◌, ◌≢◌, refl, Bool, true, false, not, ◌&&◌, Option, List, [], ◌∷◌, ◌++◌, ◌==◌, if◌then◌else◌,
  arith, Bool-cases, inl, inr,
}
use tddb68_collab.Base.Copies.{copies, copies-append}
use tddb68_collab.Base.Kernel.{Kernel, runs}
use tddb68_collab.Scheduler.{
  Status, running, ready, blocked, dying, is_running, Scheduler, mark, thread_current,
  thread_unblock, next_thread_to_run, freed, schedule, thread_block, thread_exit, thread_yield,
  thread_add_to_waiting,
}
use tddb68_collab.Scheduler.Waking.{Sleep}

abbrev pub is_ready : Status → Bool
is_ready ready = true
is_ready _ = false

-- What holds while no thread runs: the ready list has each ready thread once, but the idle thread, and the
-- sleeping threads are blocked.
pub record Off (idle : ℕ) (s : Scheduler) : Type 0 where
  pub none_runs : (t : ℕ) → is_running (s.status t) ≡ false
  pub queue :
      (t : ℕ) → copies s.ready_list t ≡ (if is_ready (s.status t) && not (t == idle) then 1 else 0)
  pub sleep : Sleep s.waiting_list s.status
  pub idle_awake : copies s.waiting_list idle ≡ 0

-- The same while just the current thread runs.
pub record IsValid (idle : ℕ) (s : Scheduler) : Type 0 where
  pub one_runs : (t : ℕ) → is_running (s.status t) ≡ (t == s.current)
  pub queue :
      (t : ℕ) → copies s.ready_list t ≡ (if is_ready (s.status t) && not (t == idle) then 1 else 0)
  pub sleep : Sleep s.waiting_list s.status
  pub idle_awake : copies s.waiting_list idle ≡ 0

module _ (idle initial : ℕ) (has_pagedir : ℕ → Bool) where
  -- A call that runs and leaves a valid state.
  abbrev pub Keeps : Kernel (Scheduler × Option ℕ) → Type 0
  Keeps call = (s' : Scheduler) × (f : Option ℕ) × (call ≡ runs (s', f)) × IsValid idle s'

  next-IsValid :
      (s : Scheduler)
      → Off idle s
      → let (next, rest) = next_thread_to_run idle s.ready_list in
        IsValid idle (record s {
          current = next;
          ready_list = rest;
          status = mark s.status next running;
          thread_ticks = 0;
        })
  unfolding next_thread_to_run copies
  next-IsValid s v = go s.ready_list v.queue
    where
      go :
          (list : List ℕ)
          → ((t : ℕ) → copies list t ≡ (if is_ready (s.status t) && not (t == idle) then 1 else 0))
          → let (next, rest) = next_thread_to_run idle list in
            IsValid idle (record s {
              current = next;
              ready_list = rest;
              status = mark s.status next running;
              thread_ticks = 0;
            })
      go [] queue = record {
        one_runs = λ t. ground (arith, v.none_runs t);
        queue = λ t. ground (arith, queue t);
        sleep = λ t. ground (arith, v.sleep t, v.idle_awake);
        idle_awake = v.idle_awake;
      }
      go (u ∷ rest) queue = record {
        one_runs = λ t. ground (arith, v.none_runs t);
        queue = λ t. ground (arith, queue t, queue u);
        sleep = λ t. ground (arith, v.sleep t, queue u);
        idle_awake = v.idle_awake;
      }

  schedule-Keeps : (s : Scheduler) → Off idle s → Keeps (schedule idle initial has_pagedir false s)
  unfolding schedule
  schedule-Keeps s v = (
    _,
    freed initial s.current (next_thread_to_run idle s.ready_list).0 (s.status s.current),
    rw (v.none_runs s.current) refl,
    next-IsValid s v,
  )

  pub current-runs :
      (s : Scheduler) → is_running (s.status s.current) ≡ true → thread_current s ≡ runs s.current
  unfolding thread_current
  current-runs s h = rw (h) refl

  pub is_current : (s : Scheduler) → IsValid idle s → is_running (s.status s.current) ≡ true
  is_current s v = ground (arith, v.one_runs s.current)

  pub block-Keeps :
      (s : Scheduler) → IsValid idle s → Keeps (thread_block idle initial has_pagedir false false s)
  unfolding thread_block
  block-Keeps s v = rw (current-runs s (is_current s v)) (
      schedule-Keeps (record s { status = mark s.status s.current blocked })
        (record {
          none_runs = λ t. ground (arith, v.one_runs t);
          queue = λ t. ground (arith, v.queue t, v.one_runs t, v.one_runs s.current);
          sleep = λ t. ground (arith, v.sleep t);
          idle_awake = v.idle_awake;
        }))

  -- The current thread is not asleep.
  current-awake : (s : Scheduler) → IsValid idle s → copies s.waiting_list s.current ≡ 0
  current-awake s v = ground (arith, v.sleep s.current, v.one_runs s.current)

  pub exit-Keeps :
      (s : Scheduler)
      → IsValid idle s
      → s.current ≢ idle
      → Keeps (thread_exit idle initial has_pagedir false s)
  unfolding thread_exit
  exit-Keeps s v ne = rw (current-runs s (is_current s v)) (
      schedule-Keeps (record s { status = mark s.status s.current dying })
        (record {
          none_runs = λ t. ground (arith, v.one_runs t);
          queue = λ t. ground (arith, v.queue t, v.one_runs t, v.one_runs s.current);
          sleep = λ t. ground (arith, v.sleep t, current-awake s v);
          idle_awake = v.idle_awake;
        }))

  pub yield-Keeps :
      (s : Scheduler) → IsValid idle s → Keeps (thread_yield idle initial has_pagedir false s)
  unfolding thread_yield
  yield-Keeps s v = rw (current-runs s (is_current s v)) (
      schedule-Keeps
        (record s {
          ready_list =
              if not (s.current == idle) then s.ready_list ++ (s.current ∷ []) else s.ready_list;
          status = mark s.status s.current ready;
        })
        (record {
          none_runs = λ t. ground (arith, v.one_runs t);
          queue = λ t. elim (Bool-cases (s.current == idle)) [
            | inl e ↦ rw (e) (ground (arith, e, v.queue t, v.one_runs t))
            | inr ne ↦ rw (ne) (
                ground (
                  arith,
                  ne,
                  v.queue t,
                  v.one_runs t,
                  v.one_runs s.current,
                  copies-append s.ready_list s.current t,
                ))
          ];
          sleep = λ t. ground (arith, v.sleep t, current-awake s v);
          idle_awake = v.idle_awake;
        }))

  pub sleep-Keeps :
      (s : Scheduler) (wake : ℕ)
      → IsValid idle s
      → s.current ≢ idle
      → Keeps (thread_add_to_waiting idle initial has_pagedir false s s.current wake)
  unfolding thread_add_to_waiting thread_block
  sleep-Keeps s wake v ne = rw (current-runs asleep_s (is_current s v)) (
      schedule-Keeps (record asleep_s { status = mark s.status s.current blocked })
        (record {
          none_runs = λ t. ground (arith, v.one_runs t);
          queue = λ t. ground (arith, v.queue t, v.one_runs t, v.one_runs s.current);
          sleep = λ t.
              ground
                (arith, v.sleep t, current-awake s v, copies-append s.waiting_list s.current t);
          idle_awake = ground (arith, v.idle_awake, copies-append s.waiting_list s.current idle);
        }))
    where
      asleep_s : Scheduler
      asleep_s = record s {
        wake_tick = λ u. if u == s.current then wake else s.wake_tick u;
        waiting_list = s.waiting_list ++ (s.current ∷ []);
      }

  pub unblock-IsValid :
      (s : Scheduler) (t : ℕ)
      → IsValid idle s
      → s.status t ≡ blocked
      → t ≢ idle
      → copies s.waiting_list t ≡ 0
      → (s' : Scheduler) × (thread_unblock s t ≡ runs s') × IsValid idle s'
  unfolding thread_unblock
  unblock-IsValid s t v b ne awake = (
    record s { ready_list = s.ready_list ++ (t ∷ []); status = mark s.status t ready },
    rw (b) refl,
    record {
      one_runs = λ u. ground (arith, v.one_runs u, v.one_runs t);
      queue = λ u. ground (arith, v.queue u, copies-append s.ready_list t u);
      sleep = λ u. ground (arith, v.sleep u);
      idle_awake = v.idle_awake;
    },
  )
