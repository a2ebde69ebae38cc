-- ===== src/Synch/Threads/Exclusion.antt =====
-- The lock excludes, does not panic and does not deadlock: linuxpintos/src/threads/synch.c.
use tddb68_collab.Base.{
  ℕ, ◌≡◌, ◌≢◌, ◌↔◌, inl, inr, refl, sym, ap, ◌∙◌, subst, Bool, true, false, Option, none, some,
  arith, if◌then◌else◌, Bool-cases, Option-cases,
}
use tddb68_collab.Base.Kernel.{runs-inj, runs, panics}
use tddb68_collab.Synch.{
  Lock, sema_init, sema_down, sema_try_down, lock_init, lock_held_by, lock_acquire, lock_retry,
  lock_try_acquire, lock_release, finish_release,
}
use tddb68_collab.Synch.Threads.{
  Pc, outside, waiting, woken, got, holding, releasing, move, unblock, System, Step, acquire, retry,
  take, try_acquire, release, finish, Reach, init, next,
}
use tddb68_collab.Synch.Threads.Invariant.{
  Inv, is_holding, is_active, take_hold-Inv, lock_release-Inv, raise, raise_waiting, sema_down-Inv,
  sema_try_down-Inv,
}

lock_acquire_lem :
    (l : Lock) (i : ℕ)
    → lock_held_by l i ≡ false
    → lock_acquire l i
      ≡ runs (record l { semaphore = (sema_down l.semaphore i).0 }, (sema_down l.semaphore i).1)
unfolding lock_acquire
lock_acquire_lem l i e = rw e refl

lock_try_acquire_lem :
    (l : Lock) (i : ℕ)
    → lock_held_by l i ≡ false
    → lock_try_acquire l i
      ≡ runs (record l { semaphore = (sema_try_down l.semaphore).0 }, (sema_try_down l.semaphore).1)
unfolding lock_try_acquire
lock_try_acquire_lem l i e = rw e refl

lock_release_lem :
    (l : Lock) (i : ℕ)
    → lock_held_by l i ≡ true
    → lock_release l i ≡ runs (record l { holder = none })
unfolding lock_release
lock_release_lem l i e = rw e refl

Step-Inv : {s s' : System} → Step s s' → Inv s.lock s.pc → Inv s'.lock s'.pc
unfolding lock_retry finish_release
Step-Inv {s} (acquire i l passed at e) v =
    let held : lock_held_by s.lock i ≡ false = v.holder i ∙ ap is_holding at in
    subst (λ r. Inv r.0 (move s.pc i (if r.1 then got else waiting)))
      (runs-inj (sym (lock_acquire_lem s.lock i held) ∙ e)) (sema_down-Inv s.lock s.pc i v (inl at))
Step-Inv {s} (retry i l passed at e) v =
    subst (λ r. Inv r.0 (move s.pc i (if r.1 then got else waiting))) e
      (sema_down-Inv s.lock s.pc i v (inr at))
Step-Inv {s} (take i at) v = take_hold-Inv s.lock s.pc i v at
Step-Inv {s} (try_acquire i l passed at e) v =
    let held : lock_held_by s.lock i ≡ false = v.holder i ∙ ap is_holding at in
    subst (λ r. Inv r.0 (move s.pc i (if r.1 then got else outside)))
      (runs-inj (sym (lock_try_acquire_lem s.lock i held) ∙ e))
      (sema_try_down-Inv s.lock s.pc i v at)
Step-Inv {s} (release i l at e) v =
    let held : lock_held_by s.lock i ≡ true = v.holder i ∙ ap is_holding at in
    subst (λ r. Inv r (move s.pc i releasing)) (runs-inj (sym (lock_release_lem s.lock i held) ∙ e))
      (lock_release-Inv s.lock s.pc i v at)
Step-Inv {s} (finish i l t at e) v =
    subst (λ r. Inv r.0 (unblock (move s.pc i outside) r.1)) e
      (raise s.lock.holder s.lock.semaphore.value s.lock.semaphore.waiters s.pc i v at)

Reach-Inv : {s : System} → Reach s → Inv s.lock s.pc
unfolding lock_init sema_init
Reach-Inv init = record {
  binary = omega arith;
  owned = λ i o. absurd (ground arith);
  owner = λ z. absurd (omega arith);
  one_owner = λ i j o. absurd (ground arith);
  holder = λ i. refl;
  queue = λ i. refl;
  distinct_queue = refl;
  progress = inl refl;
}
Reach-Inv (next r s) = Step-Inv s (Reach-Inv r)

-- However the threads run, at most one of them is in the critical section.
pub mutual_exclusion :
    {s : System} {i j : ℕ} → Reach s → s.pc i ≡ holding → s.pc j ≡ holding → i ≡ j
mutual_exclusion {s} {i} {j} r hi hj =
    let v = Reach-Inv r in v.one_owner i j (ground arith) (ground arith)

-- However the threads run, `holder` points to a thread if and only if it is in the critical section.
pub holder_iff : {s : System} (i : ℕ) → Reach s → (s.lock.holder ≡ some i) ↔ (s.pc i ≡ holding)
holder_iff {s} i r =
    let v = Reach-Inv r in (λ e. ground (arith, v.holder i), λ e. ground (arith, v.holder i))

-- However the threads run, `lock_acquire` and `lock_try_acquire` fail their assertion just for the
-- thread in the critical section, and `lock_release` fails its assertion just for the other threads.
pub panics_iff :
    {s : System} (i : ℕ)
    → Reach s
    → ((lock_acquire s.lock i ≡ panics) ↔ (s.pc i ≡ holding))
      × ((lock_try_acquire s.lock i ≡ panics) ↔ (s.pc i ≡ holding))
      × ((lock_release s.lock i ≡ panics) ↔ (s.pc i ≢ holding))
unfolding lock_acquire lock_try_acquire lock_release
panics_iff {s} i r =
    let v = Reach-Inv r in
    elim (Bool-cases (is_holding (s.pc i))) [
      | inl h ↦
          let held : lock_held_by s.lock i ≡ true = v.holder i ∙ h in
          rw (held) (
            (λ e. ground arith, λ e. refl),
            (λ e. ground arith, λ e. refl),
            (λ e. absurd (ground arith), λ e. absurd (ground arith)),
          )
      | inr h ↦
          let free : lock_held_by s.lock i ≡ false = v.holder i ∙ h in
          rw (free) (
            (λ e. absurd (ground arith), λ e. absurd (ground arith)),
            (λ e. absurd (ground arith), λ e. absurd (ground arith)),
            (λ e. ground arith, λ e. refl),
          )
    ]

-- However the threads run, the thread that the second half of `lock_release` unblocks is blocked in
-- `lock_acquire`, as `thread_unblock` asserts.
pub unblocked_is_waiting :
    {s : System} {l : Lock} {t : ℕ}
    → Reach s
    → finish_release s.lock ≡ (l, some t)
    → s.pc t ≡ waiting
unfolding finish_release
unblocked_is_waiting {s} {l} {t} r e =
    raise_waiting s.lock.holder s.lock.semaphore.value s.lock.semaphore.waiters s.pc t (Reach-Inv r)
      (ap (λ x. x.1) e)

-- An active thread can take a step that moves it.
active_step :
    (s : System)
    → Inv s.lock s.pc
    → (i : ℕ) → is_active (s.pc i) ≡ true
    → (s' : System) × Step s s' × (s'.pc i ≢ s.pc i)
active_step s v i a = go (s.pc i) refl
  where
    go : (p : Pc) → s.pc i ≡ p → (s' : System) × Step s s' × (s'.pc i ≢ s.pc i)
    go outside at = absurd (ground arith)
    go waiting at = absurd (ground arith)
    go woken at = (
      record { lock = tried.0; pc = move s.pc i (if tried.1 then got else waiting) },
      retry i tried.0 tried.1 at refl,
      λ e. elim (Bool-cases tried.1) [ inl p ↦ ground arith | inr b ↦ ground arith ],
    )
      where
        tried : Lock × Bool
        tried = lock_retry s.lock i
    go got at = (_, take i at, λ e. ground arith)
    go holding at = (
      _,
      release i _ at (lock_release_lem s.lock i (v.holder i ∙ ap is_holding at)),
      λ e. ground arith,
    )
    go releasing at = (
      record { lock = done.0; pc = unblock (move s.pc i outside) done.1 },
      finish i done.0 done.1 at refl,
      λ e. elim (Option-cases done.1) [
        | inl none_woken ↦ ground arith
        | inr (t, woken_t) ↦
            let waits : s.pc t ≡ waiting = raised t woken_t in ground (arith, ap s.pc)
      ],
    )
      where
        done : Lock × Option ℕ
        done = finish_release s.lock

        raised : (t : ℕ) → done.1 ≡ some t → s.pc t ≡ waiting
        raised t e =
            unfold finish_release in
            raise_waiting s.lock.holder s.lock.semaphore.value s.lock.semaphore.waiters s.pc t v e

-- However the threads run, while a thread waits for the lock there is a thread that is woken, through
-- `sema_down` or in `lock_release`, and that has a step in which it moves.
pub no_deadlock :
    {s : System} {j : ℕ}
    → Reach s
    → s.pc j ≡ waiting
    → (i : ℕ) × (is_active (s.pc i) ≡ true) × ((s' : System) × Step s s' × (s'.pc i ≢ s.pc i))
no_deadlock {s} {j} r at =
    let v = Reach-Inv r in
    elim v.progress [
      | inl empty ↦ absurd (ground (arith, v.queue j))
      | inr (i, a) ↦ (i, a, active_step s v i a)
    ]
