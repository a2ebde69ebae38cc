-- ===== src/Synch/Threads.antt =====
-- Threads that use one lock: linuxpintos/src/threads/synch.c. A thread runs a function of the lock in the
-- steps between which it can be interrupted, in any order with the other threads.
pub mod Queue
pub mod Invariant
pub mod Exclusion
use tddb68_collab.Base.{ℕ, ◌≡◌, Bool, true, false, ◌==◌, Option, none, some, if◌then◌else◌}
use tddb68_collab.Base.Kernel.{Kernel, runs}
use tddb68_collab.Synch.{
  Lock, lock_init, lock_acquire, lock_retry, take_hold, lock_try_acquire, lock_release,
  finish_release,
}

-- Where a thread is: not in a function of the lock, blocked in `sema_down`, unblocked but not running
-- yet, through `sema_down` but not in `holder` yet, in the critical section, or between the two
-- halves of `lock_release`.
pub data Pc : Type 0 where
  outside waiting woken got holding releasing : Pc

abbrev pub move : (ℕ → Pc) → (i : ℕ) → Pc → ℕ → Pc
move pc i p j = if j == i then p else pc j

-- `thread_unblock` of the thread that `sema_up` took off the queue.
abbrev pub unblock : (ℕ → Pc) → Option ℕ → ℕ → Pc
unblock pc none = pc
unblock pc (some t) = move pc t woken

pub record System : Type 0 where
  pub lock : Lock
  pub pc : ℕ → Pc

pub data Step (s : System) : System → Type 0 where
  acquire :
      (i : ℕ) (l : Lock) (passed : Bool)
      → s.pc i ≡ outside
      → lock_acquire s.lock i ≡ runs (l, passed)
      → Step s (record { lock = l; pc = move s.pc i (if passed then got else waiting) })
  retry :
      (i : ℕ) (l : Lock) (passed : Bool)
      → s.pc i ≡ woken
      → lock_retry s.lock i ≡ (l, passed)
      → Step s (record { lock = l; pc = move s.pc i (if passed then got else waiting) })
  take :
      (i : ℕ)
      → s.pc i ≡ got
      → Step s (record { lock = take_hold s.lock i; pc = move s.pc i holding })
  try_acquire :
      (i : ℕ) (l : Lock) (passed : Bool)
      → s.pc i ≡ outside
      → lock_try_acquire s.lock i ≡ runs (l, passed)
      → Step s (record { lock = l; pc = move s.pc i (if passed then got else outside) })
  release :
      (i : ℕ) (l : Lock)
      → s.pc i ≡ holding
      → lock_release s.lock i ≡ runs l
      → Step s (record { lock = l; pc = move s.pc i releasing })
  finish :
      (i : ℕ) (l : Lock) (t : Option ℕ)
      → s.pc i ≡ releasing
      → finish_release s.lock ≡ (l, t)
      → Step s (record { lock = l; pc = unblock (move s.pc i outside) t })

pub data Reach : System → Type 0 where
  init : Reach (record { lock = lock_init; pc = λ i. outside })
  next : {s s' : System} → Reach s → Step s s' → Reach s'
