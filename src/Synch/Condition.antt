-- ===== src/Synch/Condition.antt =====
-- Condition variables: linuxpintos/src/threads/synch.c. Every waiting thread has a semaphore of its own, here given by the
-- thread. `cond_wait` is cut where its thread can be interrupted, like the functions of a lock.
use tddb68_collab.Base.{
  ℕ, zero, suc, ◌≤◌, ◌<◌, ◌≡◌, refl, ap, ◌∙◌, subst, Bool, true, false, Option, none, some, List,
  [], ◌∷◌, ◌++◌, length, ◌==◌, if◌then◌else◌, arith, Bool-cases, inl, inr,
}
use tddb68_collab.Base.Copies.{copies, copies-append}
use tddb68_collab.Base.Kernel.{Kernel, runs, ◌>>=◌, ◌>>◌, assert, assert-runs, >>=-runs, runs-inj}
use tddb68_collab.Synch.{Semaphore, sema_init, sema_down, sema_up, Lock, lock_held_by, lock_release}

-- `struct condition`, and the semaphores of the waiting threads.
pub record Condition : Type 0 where
  pub waiters : List ℕ
  pub semaphores : ℕ → Semaphore

abbrev pub give : (ℕ → Semaphore) → (t : ℕ) → Semaphore → ℕ → Semaphore
give semaphores t s u = if u == t then s else semaphores u

pub cond_init : (semaphores : ℕ → Semaphore) → Condition
cond_init semaphores = record { waiters = []; semaphores = semaphores }

-- `cond_wait` up to the first half of `lock_release`.
pub cond_wait : Condition → Lock → (cur : ℕ) → Kernel (Condition × Lock)
cond_wait c l cur = do
  assert (lock_held_by l cur)
  let waiting : Condition = record {
    waiters = c.waiters ++ (cur ∷ []);
    semaphores = give c.semaphores cur (sema_init 0);
  }
  released ← lock_release l cur
  runs (waiting, released)

-- `sema_down` in `cond_wait`: one round, as everywhere.
pub cond_down : Condition → (cur : ℕ) → Condition × Bool
cond_down c cur =
    let (s, passed) = sema_down (c.semaphores cur) cur in
    (record c { semaphores = give c.semaphores cur s }, passed)

-- The signal to the waiting threads; also returns the thread that is unblocked.
signal_first : Condition → List ℕ → Condition × Option ℕ
signal_first c [] = (c, none)
signal_first c (w ∷ rest) =
    let (s, woken) = sema_up (c.semaphores w) in
    (record { waiters = rest; semaphores = give c.semaphores w s }, woken)

pub cond_signal : Condition → Lock → (cur : ℕ) → Kernel (Condition × Option ℕ)
cond_signal c l cur = do assert (lock_held_by l cur); runs (signal_first c c.waiters)

abbrev pub is_empty : List ℕ → Bool
is_empty [] = true
is_empty (t ∷ ts) = false

-- The loop of `cond_broadcast` for at most `fuel` rounds; it does not end in time with `none`.
pub broadcast_from : (fuel : ℕ) → Condition → Lock → (cur : ℕ) → Kernel (Option Condition)
broadcast_from zero c l cur = runs (if is_empty c.waiters then some c else none)
broadcast_from (suc fuel) c l cur =
    let next = cond_signal c l cur >>= λ r. broadcast_from fuel r.0 l cur in
    if is_empty c.waiters then runs (some c) else next

pub cond_broadcast : Condition → Lock → (cur : ℕ) → Kernel (Option Condition)
cond_broadcast c l cur = broadcast_from (length c.waiters) c l cur

-- Each waiting thread is in the list once, and its semaphore is 0.
pub record IsValid (c : Condition) : Type 0 where
  pub once : (t : ℕ) → copies c.waiters t ≤ 1
  pub closed : (t : ℕ) → 0 < copies c.waiters t → (c.semaphores t).value ≡ 0

pub wait-IsValid :
    (c c' : Condition) (l l' : Lock) (cur : ℕ)
    → IsValid c
    → copies c.waiters cur ≡ 0
    → cond_wait c l cur ≡ runs (c', l')
    → IsValid c'
unfolding cond_wait sema_init lock_release
wait-IsValid c c' l l' cur v fresh e =
    let (_, rest) = assert-runs (lock_held_by l cur) _ e in
    let (released, _, end) = >>=-runs (lock_release l cur) _ rest in
    let waiting : IsValid (record {
      waiters = c.waiters ++ (cur ∷ []);
      semaphores = give c.semaphores cur (sema_init 0);
    }) =
      record {
        once = λ t. elim (Bool-cases (cur == t)) [
          | inl here ↦
              let same : cur ≡ t = ground (arith, here) in
              ground (arith, here, copies-append c.waiters cur t, fresh, ap (copies c.waiters) same)
          | inr other ↦ ground (arith, other, copies-append c.waiters cur t, v.once t)
        ];
        closed = λ t i. ground (arith, copies-append c.waiters cur t, v.closed t);
      } in
    subst IsValid (ap (λ r. r.0) (runs-inj end)) waiting

signal-IsValid :
    (semaphores : ℕ → Semaphore) (w : ℕ) (rest : List ℕ)
    → IsValid (record { waiters = w ∷ rest; semaphores = semaphores })
    → IsValid (record { waiters = rest; semaphores = give semaphores w (sema_up (semaphores w)).0 })
unfolding copies
signal-IsValid semaphores w rest v = record {
  once = λ t. ground (arith, v.once t);
  closed = λ t i. ground (arith, v.once t, v.closed t);
}

up-value : (s : Semaphore) → s.value ≡ 0 → (sema_up s).0.value ≡ 1
unfolding sema_up
up-value s e = ground (arith, e)

-- What `broadcast_from` of the waiting threads does.
pub broadcast_from_lem :
    (ws : List ℕ) (semaphores : ℕ → Semaphore) (l : Lock) (cur : ℕ)
    → lock_held_by l cur ≡ true
    → IsValid (record { waiters = ws; semaphores = semaphores })
    → (c' : Condition) × (broadcast_from
          (length ws)
          (record { waiters = ws; semaphores = semaphores })
          l
          cur
        ≡ runs (some c'))
      × (c'.waiters ≡ [])
      × ((t : ℕ)
          → (c'.semaphores t)
            ≡ (if copies ws t == 0 then semaphores t else (sema_up (semaphores t)).0))
unfolding broadcast_from cond_signal signal_first copies
broadcast_from_lem [] semaphores l cur held v =
    (record { waiters = []; semaphores = semaphores }, refl, refl, λ t. refl)
broadcast_from_lem (w ∷ rest) semaphores l cur held v =
    let (c', run, empty, raised) =
      broadcast_from_lem rest (give semaphores w (sema_up (semaphores w)).0) l cur held
        (signal-IsValid semaphores w rest v) in
    (
      c',
      rw (held) run,
      empty,
      λ t. elim (Bool-cases (w == t)) [
        | inl here ↦
            let same : w ≡ t = ground (arith, here) in
            let up = ap (λ u. (sema_up (semaphores u)).0) same in
            ground (arith, here, raised t, v.once t, up)
        | inr other ↦ ground (arith, other, raised t, v.once t)
      ],
    )

-- By the thread that holds the lock, `cond_broadcast` ends after as many rounds as threads wait: then no thread
-- waits, the semaphore of each that waited is 1, so that `sema_down` lets it pass, and the others are as
-- before.
pub broadcast-raised :
    (c : Condition) (l : Lock) (cur : ℕ)
    → lock_held_by l cur ≡ true
    → IsValid c
    → (c' : Condition) × (cond_broadcast c l cur ≡ runs (some c'))
      × (c'.waiters ≡ [])
      × ((t : ℕ)
          → (c'.semaphores t).value
            ≡ (if copies c.waiters t == 0 then (c.semaphores t).value else 1))
unfolding cond_broadcast
broadcast-raised c l cur held v =
    let (c', run, empty, raised) = broadcast_from_lem c.waiters c.semaphores l cur held v in
    (
      c',
      run,
      empty,
      λ t. elim (Bool-cases (copies c.waiters t == 0)) [
        | inl absent ↦ rw (absent) (ground (arith, absent, ap (λ s. s.value) (raised t)))
        | inr present ↦
            let zero_before : (c.semaphores t).value ≡ 0 = v.closed t (ground (arith, present)) in
            let one : (sema_up (c.semaphores t)).0.value ≡ 1 =
              up-value (c.semaphores t) zero_before in
            rw (present) (ap (λ s. s.value) (raised t) ∙ ground (arith, present, one))
      ],
    )
