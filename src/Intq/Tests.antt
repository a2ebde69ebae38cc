-- ===== src/Intq/Tests.antt =====
-- A queue of bytes: linuxpintos/src/devices/intq.c.
use tddb68_collab.Base.{
  ℕ, ◌≡◌, refl, true, false, none, some, List, [], ◌∷◌, ◌++◌, replicate, ◌<◌, ◌⊎◌, arith,
}
use tddb68_collab.Base.Kernel.{runs, panics}
use tddb68_collab.Synch.{
  lock_init, sema_init, sema_down, sema_up, lock_acquire, lock_retry, lock_release, finish_release,
}
use tddb68_collab.Intq.{
  Intq, intq_init, through, blocks, queues, acquire, again, wait_for_byte, wait_not_empty,
  signal_not_full, intq_getc, intq_putc, release, after_byte,
}
use tddb68_collab.Intq.Queue.{Holds, from, getc-Holds, putc-Holds}

-- The queue wrapped around, with the bytes 5 and 6 in its last and its first place; thread 9 waits to read.
abbrev wrapped : Intq
wrapped = record {
  lock = lock_init;
  not_full = none;
  not_empty = some 9;
  buf = 6 ∷ (replicate 62 0 ++ (5 ∷ []));
  head = 1;
  tail = 63;
}

wrapped-Holds : Holds wrapped (5 ∷ 6 ∷ [])
unfolding from
wrapped-Holds = record {
  size = refl;
  room = omega arith;
  tail_in = omega arith;
  head_at = refl;
  content = refl;
}

getc-Holds_example :
    ((◌≡◌ {A = List ℕ} (5 ∷ 6 ∷ []) []) × (intq_getc true 1 wrapped ≡ panics))
    ⊎ ((b : ℕ) × (bs : List ℕ) × (q' : Intq) × (5 ∷ 6 ∷ [] ≡ b ∷ bs)
        × (intq_getc true 1 wrapped ≡ runs (through (b, q', none)))
        × Holds q' bs)
getc-Holds_example = getc-Holds true 1 wrapped (5 ∷ 6 ∷ []) wrapped-Holds

putc-Holds_example :
    ((◌≡◌ {A = ℕ} 2 63) × (intq_putc true 1 wrapped 7 ≡ panics))
    ⊎ ((2 < 63)
        × ((q' : Intq) × (intq_putc true 1 wrapped 7 ≡ runs (through (q', some 9)))
            × Holds q' ((5 ∷ 6 ∷ []) ++ (7 ∷ []))))
putc-Holds_example = putc-Holds true 1 wrapped (5 ∷ 6 ∷ []) 7 wrapped-Holds

-- Reader 3 has the lock and waits for a byte; reader 4 waits for the lock.
abbrev two_readers : Intq
two_readers = record (intq_init []) {
  lock = record { holder = some 3; semaphore = record { value = 0; waiters = 4 ∷ [] } };
  not_empty = some 3;
}

-- A reader blocks on the new queue, the next one on its lock, and in an interrupt handler it panics.
empty_run :
    (intq_getc false 3 (intq_init [])
      ≡ runs (
          blocks (record two_readers {
            lock = record { holder = some 3; semaphore = record { value = 0; waiters = [] } };
          })))
    × (intq_getc false 4 (record two_readers {
      lock = record { holder = some 3; semaphore = record { value = 0; waiters = [] } };
    })
        ≡ runs (queues two_readers))
    × (intq_getc true 3 (intq_init []) ≡ panics)
unfolding intq_init intq_getc acquire wait_for_byte wait_not_empty lock_acquire sema_down lock_init
    sema_init
empty_run = (refl, refl, refl)

-- Two bytes arrive, reader 3 releases the lock and takes the first one; reader 4 gets the lock, and the assertion of
-- `wait` fails, since the queue is not empty.
late_reader :
    let filled : Intq = record two_readers {
      buf = 5 ∷ (6 ∷ replicate 62 0);
      head = 2;
      not_empty = none;
    } in
    let left : Intq = record filled {
      lock = record { holder = none; semaphore = record { value = 1; waiters = [] } };
      tail = 1;
    } in
    (after_byte false 3 filled ≡ runs (some 4, through (5, left, none)))
    × (wait_for_byte false 4 {A = ℕ} (again false 4 left) ≡ panics)
unfolding intq_init intq_getc signal_not_full after_byte release lock_release finish_release sema_up
    again lock_retry sema_down wait_for_byte wait_not_empty
late_reader = (refl, refl)
