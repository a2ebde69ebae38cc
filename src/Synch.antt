-- ===== src/Synch.antt =====
-- Semaphores and locks: linuxpintos/src/threads/synch.c. Interrupts are off from the test of a value to
-- the block or the decrement that follows it, so each of these functions is one step; what a thread
-- does when it is woken is a step of its own. A thread is a number.
pub mod Threads
pub mod Wakeup
pub mod Condition
mod Tests
use tddb68_collab.Base.{
  ℕ, ◌+◌, ◌-◌, ◌%◌, ◌^◌, Bool, true, false, not, Option, none, some, List, [], ◌∷◌, ◌++◌, ◌==◌, ltb,
  if◌then◌else◌,
}
use tddb68_collab.Base.Kernel.{Kernel, runs, panics, ◌>>=◌, ◌>>◌, assert}

-- `struct semaphore`: the value is an `unsigned`, the longest waiter comes first.
pub record Semaphore : Type 0 where
  pub value : ℕ
  pub waiters : List ℕ

unfoldable pub sema_init : (value : ℕ) → Semaphore
sema_init value = record { value = value; waiters = [] }

-- One round of the loop of `sema_down`: true if the thread got through, false if it is blocked.
unfoldable pub sema_down : Semaphore → (cur : ℕ) → Semaphore × Bool
sema_down s cur =
    if s.value == 0
    then (record s { waiters = s.waiters ++ (cur ∷ []) }, false)
    else (record s { value = s.value - 1 }, true)

pub sema_try_down : Semaphore → Semaphore × Bool
sema_try_down s = if ltb 0 s.value then (record s { value = s.value - 1 }, true) else (s, false)

-- Also returns the thread that `thread_unblock` is called with.
unfoldable pub sema_up : Semaphore → Semaphore × Option ℕ
sema_up s = elim s.waiters [
  | [] ↦ (record s { value = (s.value + 1) % 2 ^ 32 }, none)
  | t ∷ rest ↦ (record { value = (s.value + 1) % 2 ^ 32; waiters = rest }, some t)
]

-- `struct lock`
pub record Lock : Type 0 where
  pub holder : Option ℕ
  pub semaphore : Semaphore

unfoldable pub lock_init : Lock
unfolding sema_init
lock_init = record { holder = none; semaphore = sema_init 1 }

abbrev pub lock_held_by : Lock → (cur : ℕ) → Bool
lock_held_by l cur = elim l.holder [ none ↦ false | some t ↦ t == cur ]

-- `lock_acquire` up to one round of `sema_down`.
unfoldable pub lock_acquire : Lock → (cur : ℕ) → Kernel (Lock × Bool)
lock_acquire l cur = do
  assert (not (lock_held_by l cur))
  let (s, passed) = sema_down l.semaphore cur
  runs (record l { semaphore = s }, passed)

-- The round of `sema_down` that a woken thread goes on with.
unfoldable pub lock_retry : Lock → (cur : ℕ) → Lock × Bool
lock_retry l cur =
    let (s, passed) = sema_down l.semaphore cur in (record l { semaphore = s }, passed)

-- `lock->holder = thread_current ()`, the end of `lock_acquire` and `lock_try_acquire`.
abbrev pub take_hold : Lock → (cur : ℕ) → Lock
take_hold l cur = record l { holder = some cur }

-- `lock_try_acquire` up to `sema_try_down`.
pub lock_try_acquire : Lock → (cur : ℕ) → Kernel (Lock × Bool)
lock_try_acquire l cur = do
  assert (not (lock_held_by l cur))
  let (s, passed) = sema_try_down l.semaphore
  runs (record l { semaphore = s }, passed)

-- The first half of `lock_release`, before `sema_up`.
unfoldable pub lock_release : Lock → (cur : ℕ) → Kernel Lock
lock_release l cur = do assert (lock_held_by l cur); runs (record l { holder = none })

-- The second half, with the thread to be unblocked.
unfoldable pub finish_release : Lock → Lock × Option ℕ
finish_release l = let (s, t) = sema_up l.semaphore in (record l { semaphore = s }, t)
