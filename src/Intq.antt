-- ===== src/Intq.antt =====
-- The queue of bytes between an interrupt handler and the kernel: linuxpintos/src/devices/intq.c. Interrupts are off in
-- all functions, so that each is one step up to where its thread is blocked; what a thread does when it is
-- woken is a function of its own: `again` for the lock, `after_byte` and `after_room` for the queue. A thread is a
-- number, a null pointer `none`. The lock is that of Synch.
pub mod Queue
mod Tests
use tddb68_collab.Base.{
  ℕ, zero, suc, ◌+◌, ◌%◌, Bool, true, false, not, ◌&&◌, ◌||◌, Option, none, some, List, [], ◌∷◌,
  get_or, set, replicate, ◌==◌, if◌then◌else◌,
}
use tddb68_collab.Base.Kernel.{Kernel, runs, panics, ◌>>=◌, ◌>>◌, assert}
use tddb68_collab.Synch.{
  Lock, lock_init, lock_acquire, lock_retry, take_hold, lock_release, finish_release,
}

abbrev pub intq_bufsize : ℕ
intq_bufsize = 64

-- `struct intq`
pub record Intq : Type 0 where
  pub lock : Lock
  pub not_full : Option ℕ
  pub not_empty : Option ℕ
  pub buf : List ℕ
  pub head : ℕ
  pub tail : ℕ

-- `buf` is what was in the buffer.
pub intq_init : (buf : List ℕ) → Intq
intq_init buf = record {
  lock = lock_init;
  not_full = none;
  not_empty = none;
  buf = buf;
  head = 0;
  tail = 0;
}

abbrev pub next : ℕ → ℕ
next pos = (pos + 1) % intq_bufsize

abbrev pub intq_empty : Intq → Bool
intq_empty q = q.head == q.tail

abbrev pub intq_full : Intq → Bool
intq_full q = next q.head == q.tail

-- A function is through, or its thread is blocked: in `wait`, or before that on the lock.
pub data Outcome (A : Type 0) : Type 0 where
  through : A → Outcome A
  blocks : Intq → Outcome A
  queues : Intq → Outcome A

-- `signal` to a reader, and to a writer; also returns the thread that is unblocked.
pub signal_not_empty : Intq → Kernel (Intq × Option ℕ)
signal_not_empty q = do
  assert (not (intq_empty q))
  runs (record q { not_empty = none }, q.not_empty)

pub signal_not_full : Intq → Kernel (Intq × Option ℕ)
signal_not_full q = do assert (not (intq_full q)); runs (record q { not_full = none }, q.not_full)

-- Whether the code runs in an interrupt handler, and `thread_current`.
module _ (intr_context : Bool) (cur : ℕ) where
  -- `wait` of a reader, and of a writer.
  pub wait_not_empty : Intq → Kernel Intq
  wait_not_empty q = do
    assert (not intr_context)
    assert (intq_empty q)
    runs (record q { not_empty = some cur })

  pub wait_not_full : Intq → Kernel Intq
  wait_not_full q = do
    assert (not intr_context)
    assert (intq_full q)
    runs (record q { not_full = some cur })

  -- `lock_acquire (&q->lock)` up to where the thread has the lock or is blocked.
  pub acquire : Intq → Kernel (Intq × Bool)
  acquire q = do
    (l, passed) ← lock_acquire q.lock cur
    runs (record q { lock = if passed then take_hold l cur else l }, passed)

  -- The rest of `lock_acquire` when the thread is woken.
  pub again : Intq → Intq × Bool
  again q =
      let (l, passed) = lock_retry q.lock cur in
      (record q { lock = if passed then take_hold l cur else l }, passed)

  -- `wait`, once the thread has the lock.
  pub wait_for_byte : {A : Type 0} → Intq × Bool → Kernel (Outcome A)
  wait_for_byte (q, true) = do waits ← wait_not_empty q; runs (blocks waits)
  wait_for_byte (q, false) = runs (queues q)

  pub wait_for_room : {A : Type 0} → Intq × Bool → Kernel (Outcome A)
  wait_for_room (q, true) = do waits ← wait_not_full q; runs (blocks waits)
  wait_for_room (q, false) = runs (queues q)

  -- `intq_getc` from the test of its loop on: the byte, the queue and the thread that is unblocked.
  pub intq_getc : Intq → Kernel (Outcome (ℕ × Intq × Option ℕ))
  intq_getc q =
      if intq_empty q
      then (do assert (not intr_context); got ← acquire q; wait_for_byte got)
      else (do
        let byte = get_or q.buf q.tail 0
        (q', woken) ← signal_not_full (record q { tail = next q.tail })
        runs (through (byte, q', woken)))

  -- The same of `intq_putc`.
  pub intq_putc : Intq → (byte : ℕ) → Kernel (Outcome (Intq × Option ℕ))
  intq_putc q byte =
      if intq_full q
      then (do assert (not intr_context); got ← acquire q; wait_for_room got)
      else (do
        (q', woken) ←
            signal_not_empty (record q { buf = set q.buf q.head byte; head = next q.head })
        runs (through (q', woken)))

  -- `lock_release (&q->lock)`, with the thread that is unblocked.
  pub release : Intq → Kernel (Intq × Option ℕ)
  release q = do
    l ← lock_release q.lock cur
    let (l', woken) = finish_release l
    runs (record q { lock = l' }, woken)

  -- `intq_getc` and `intq_putc` behind `wait`, with the thread that `lock_release` unblocks.
  pub after_byte : Intq → Kernel (Option ℕ × Outcome (ℕ × Intq × Option ℕ))
  after_byte q = do (q', woken) ← release q; r ← intq_getc q'; runs (woken, r)

  pub after_room : Intq → (byte : ℕ) → Kernel (Option ℕ × Outcome (Intq × Option ℕ))
  after_room q byte = do (q', woken) ← release q; r ← intq_putc q' byte; runs (woken, r)
