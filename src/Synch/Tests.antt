-- ===== src/Synch/Tests.antt =====
-- Runs of the semaphores and locks of linuxpintos/src/threads/synch.c.
use tddb68_collab.Base.{
  if◌then◌else◌, ◌==◌, ℕ, ◌≡◌, ◌≢◌, ◌↔◌, refl, true, false, none, some, [], ◌∷◌, arith,
}
use tddb68_collab.Base.Kernel.{runs, panics}
use tddb68_collab.Synch.{
  sema_init, sema_down, sema_up, lock_init, lock_acquire, take_hold, lock_try_acquire, lock_release,
  finish_release,
}
use tddb68_collab.Base.Copies.{copies}
use tddb68_collab.Synch.Condition.{Condition, cond_broadcast, IsValid, broadcast-raised}
use tddb68_collab.Synch.Wakeup.{Users, NoLostWakeup, Reach-NoLostWakeup, Reach-value}
use tddb68_collab.Synch.Wakeup
use tddb68_collab.Synch.Threads.{
  outside, waiting, got, holding, releasing, move, System, Step, acquire, take, release, Reach,
  init, next,
}
use tddb68_collab.Synch.Threads.Invariant.{is_active}
use tddb68_collab.Synch.Threads.Exclusion.{mutual_exclusion, panics_iff, no_deadlock}

-- Thread 5 passes, threads 6 and 7 wait, and 5 raises the semaphore again.
abbrev raised : Users
raised = record {
  sema = record { value = 1; waiters = 7 ∷ [] };
  woken = 6 ∷ [];
  downs = 1;
  ups = 1;
}

raised-Reach : Wakeup.Reach 1 raised
unfolding sema_init sema_down sema_up
raised-Reach =
    Wakeup.next
      (Wakeup.next (Wakeup.next (Wakeup.next Wakeup.init (Wakeup.down 5)) (Wakeup.down 6))
        (Wakeup.down 7))
      Wakeup.up

Reach-NoLostWakeup_example : NoLostWakeup raised
Reach-NoLostWakeup_example = Reach-NoLostWakeup raised-Reach

-- Thread 5 is in the critical section, 6 waits.
abbrev contended : System
contended = record {
  lock = record { holder = some 5; semaphore = record { value = 0; waiters = 6 ∷ [] } };
  pc = move (move (move (λ i. outside) 5 got) 5 holding) 6 waiting;
}

contended-Reach : Reach contended
unfolding lock_init sema_init sema_down lock_acquire take_hold
contended-Reach =
    next (next (next init (acquire 5 _ true refl refl)) (take 5 refl)) (acquire 6 _ false refl refl)

-- Thread 5 has set `holder` to null.
abbrev let_go : System
let_go = record {
  lock = record { holder = none; semaphore = record { value = 0; waiters = 6 ∷ [] } };
  pc = move contended.pc 5 releasing;
}

let_go-Reach : Reach let_go
unfolding lock_release
let_go-Reach = next contended-Reach (release 5 _ refl refl)

mutual_exclusion_example : ◌≡◌ {A = ℕ} 5 5
mutual_exclusion_example = mutual_exclusion {s = contended} contended-Reach refl refl

panics_iff_example :
    ((lock_acquire contended.lock 5 ≡ panics) ↔ (contended.pc 5 ≡ holding))
    × ((lock_try_acquire contended.lock 5 ≡ panics) ↔ (contended.pc 5 ≡ holding))
    × ((lock_release contended.lock 5 ≡ panics) ↔ (contended.pc 5 ≢ holding))
panics_iff_example = panics_iff 5 contended-Reach

finish_let_go :
    finish_release let_go.lock
    ≡ (record { holder = none; semaphore = record { value = 1; waiters = [] } }, some 6)
unfolding finish_release sema_up
finish_let_go = refl

no_deadlock_example :
    (i : ℕ) × (is_active (contended.pc i) ≡ true)
    × ((s' : System) × Step contended s' × (s'.pc i ≢ contended.pc i))
no_deadlock_example = no_deadlock {j = 6} contended-Reach refl

-- Threads 6 and 7 wait, 6 is blocked already.
abbrev awaited : Condition
awaited = record {
  waiters = 6 ∷ 7 ∷ [];
  semaphores = λ t. record { value = 0; waiters = if t == 6 then 6 ∷ [] else [] };
}

awaited-IsValid : IsValid awaited
unfolding copies
awaited-IsValid = record { once = λ t. ground arith; closed = λ t i. refl }

broadcast-raised_example :
    (c' : Condition) × (cond_broadcast awaited contended.lock 5 ≡ runs (some c'))
    × (c'.waiters ≡ [])
    × ((t : ℕ)
        → (c'.semaphores t).value
          ≡ (if copies awaited.waiters t == 0 then (awaited.semaphores t).value else 1))
broadcast-raised_example = broadcast-raised awaited contended.lock 5 refl awaited-IsValid
