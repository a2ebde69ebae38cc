-- ===== src/Synch/Threads/Invariant.antt =====
-- What every step with the lock keeps: linuxpintos/src/threads/synch.c.
use mathlib.Core.Path.{fun_ext}
use tddb68_collab.Base.{
  ℕ, ◌-◌, ◌≤◌, ◌≡◌, ◌≢◌, ◌⊎◌, inl, inr, refl, ap, ◌∙◌, Bool, true, false, ◌==◌, Option, none, some,
  List, [], ◌∷◌, ◌++◌, arith, Bool-cases, subst, ltb, if◌then◌else◌,
}
use tddb68_collab.Synch.{Lock, sema_down, sema_try_down, sema_up, lock_held_by, take_hold}
use tddb68_collab.Synch.Threads.{
  Pc, outside, waiting, woken, got, holding, releasing, move, unblock,
}
use tddb68_collab.Synch.Threads.Queue.{mem, distinct, mem-push, distinct-push}

-- A thread between its way through `sema_down` and its `sema_up`.
abbrev pub owns : Pc → Bool
owns got = true
owns holding = true
owns releasing = true
owns _ = false

abbrev pub is_waiting : Pc → Bool
is_waiting waiting = true
is_waiting _ = false

abbrev pub is_holding : Pc → Bool
is_holding holding = true
is_holding _ = false

-- A thread that will go on by itself.
abbrev pub is_active : Pc → Bool
is_active woken = true
is_active p = owns p

pub record Inv (l : Lock) (pc : ℕ → Pc) : Type 0 where
  pub binary : l.semaphore.value ≤ 1
  pub owned : (i : ℕ) → owns (pc i) ≡ true → l.semaphore.value ≡ 0
  pub owner : l.semaphore.value ≡ 0 → (i : ℕ) × (owns (pc i) ≡ true)
  pub one_owner : (i j : ℕ) → owns (pc i) ≡ true → owns (pc j) ≡ true → i ≡ j
  pub holder : (i : ℕ) → lock_held_by l i ≡ is_holding (pc i)
  pub queue : (i : ℕ) → mem i l.semaphore.waiters ≡ is_waiting (pc i)
  pub distinct_queue : distinct l.semaphore.waiters ≡ true
  pub progress : (l.semaphore.waiters ≡ []) ⊎ ((i : ℕ) × (is_active (pc i) ≡ true))

-- A thread gets through `sema_down`.
pass :
    (l : Lock) (pc : ℕ → Pc) (i : ℕ)
    → Inv l pc
    → is_waiting (pc i) ≡ false
    → is_holding (pc i) ≡ false
    → l.semaphore.value ≢ 0
    → Inv
        (record l { semaphore = record l.semaphore { value = l.semaphore.value - 1 } })
        (move pc i got)
pass l pc i v nw nh nz = record {
  binary = omega (arith, v.binary);
  owned = λ j o. ground (arith, v.binary);
  owner = λ z. (i, ground arith);
  one_owner = λ j k oj ok. ground (arith, v.owned j, v.owned k);
  holder = λ j. ground (arith, v.holder j, ap (λ x. is_holding (pc x)));
  queue = λ j. ground (arith, v.queue j, ap (λ x. is_waiting (pc x)));
  distinct_queue = v.distinct_queue;
  progress = inr (i, ground arith);
}

block :
    (l : Lock) (pc : ℕ → Pc) (i : ℕ)
    → Inv l pc
    → is_waiting (pc i) ≡ false
    → owns (pc i) ≡ false
    → l.semaphore.value ≡ 0
    → Inv
        (record l { semaphore = record l.semaphore { waiters = l.semaphore.waiters ++ (i ∷ []) } })
        (move pc i waiting)
block l pc i v nw nh z = record {
  binary = v.binary;
  owned = λ j o. z;
  owner = λ z. let (o, e) = v.owner z in (o, ground (arith, ap (λ x. owns (pc x))));
  one_owner = λ j k oj ok. ground (arith, v.one_owner j k);
  holder = λ j. ground (arith, v.holder j, ap (λ x. is_holding (pc x)));
  queue = λ j. ground (arith, v.queue j, mem-push l.semaphore.waiters j i);
  distinct_queue = distinct-push l.semaphore.waiters i v.distinct_queue (v.queue i ∙ nw);
  progress = let (o, e) = v.owner z in inr (o, ground (arith, ap (λ x. owns (pc x))));
}

pub take_hold-Inv :
    (l : Lock) (pc : ℕ → Pc) (i : ℕ)
    → Inv l pc
    → pc i ≡ got
    → Inv (take_hold l i) (move pc i holding)
unfolding take_hold
take_hold-Inv l pc i v g = record {
  binary = v.binary;
  owned = λ j o. ground (arith, v.owned j, v.owned i);
  owner = λ z. (i, ground arith);
  one_owner = λ j k oj ok. ground (arith, v.one_owner j k, v.one_owner i k, v.one_owner j i);
  holder = λ j. ground (arith, v.one_owner i j);
  queue = λ j. ground (arith, v.queue j, v.queue i);
  distinct_queue = v.distinct_queue;
  progress = inr (i, ground arith);
}

pub lock_release-Inv :
    (l : Lock) (pc : ℕ → Pc) (i : ℕ)
    → Inv l pc
    → pc i ≡ holding
    → Inv (record l { holder = none }) (move pc i releasing)
lock_release-Inv l pc i v g = record {
  binary = v.binary;
  owned = λ j o. ground (arith, v.owned j, v.owned i);
  owner = λ z. (i, ground arith);
  one_owner = λ j k oj ok. ground (arith, v.one_owner j k, v.one_owner i k, v.one_owner j i);
  holder = λ j. ground (arith, v.one_owner i j);
  queue = λ j. ground (arith, v.queue j, v.queue i);
  distinct_queue = v.distinct_queue;
  progress = inr (i, ground arith);
}

stay : (l : Lock) (pc : ℕ → Pc) (i : ℕ) (p : Pc) → Inv l pc → pc i ≡ p → Inv l (move pc i p)
stay l pc i p v e = subst (Inv l) (fun_ext (λ j. ground (arith, ap pc))) v

pub raise :
    (h : Option ℕ) (value : ℕ) (waiters : List ℕ) (pc : ℕ → Pc) (i : ℕ)
    → Inv (record { holder = h; semaphore = record { value = value; waiters = waiters } }) pc
    → pc i ≡ releasing
    → let (s, t) = sema_up (record { value = value; waiters = waiters }) in
      Inv (record { holder = h; semaphore = s }) (unblock (move pc i outside) t)
unfolding sema_up
raise h value [] pc i v g = record {
  binary = ground (arith, v.owned i);
  owned = λ j o. ground (arith, v.one_owner j i);
  owner = λ z. ground (arith, v.owned i);
  one_owner = λ j k oj ok. ground (arith, v.one_owner j k, v.one_owner i k, v.one_owner j i);
  holder = λ j. ground (arith, v.holder j, v.holder i);
  queue = λ j. ground (arith, v.queue j, v.queue i);
  distinct_queue = refl;
  progress = inl refl;
}
raise h value (t ∷ rest) pc i v g = record {
  binary = ground (arith, v.owned i);
  owned = λ j o. ground (arith, v.one_owner j i);
  owner = λ z. ground (arith, v.owned i);
  one_owner = λ j k oj ok. ground (arith, v.one_owner j k, v.one_owner i k, v.one_owner j i);
  holder = λ j. ground (arith, v.holder j, v.holder i, v.holder t, v.queue t);
  queue = λ j. ground (arith, v.queue j, v.queue i, v.queue t, v.distinct_queue);
  distinct_queue = ground (arith, v.distinct_queue);
  progress = inr (t, ground arith);
}

-- What `thread_unblock` asserts of the thread it is called with holds in `sema_up`.
pub raise_waiting :
    (h : Option ℕ) (value : ℕ) (waiters : List ℕ) (pc : ℕ → Pc) (t : ℕ)
    → Inv (record { holder = h; semaphore = record { value = value; waiters = waiters } }) pc
    → (sema_up (record { value = value; waiters = waiters })).1 ≡ some t
    → pc t ≡ waiting
unfolding sema_up
raise_waiting h value [] pc t v e = absurd (ground arith)
raise_waiting h value (x ∷ rest) pc t v e = ground (arith, v.queue t)

pub sema_down-Inv :
    (l : Lock) (pc : ℕ → Pc) (i : ℕ)
    → Inv l pc
    → (pc i ≡ outside) ⊎ (pc i ≡ woken)
    → let (s, passed) = sema_down l.semaphore i in
      Inv (record l { semaphore = s }) (move pc i (if passed then got else waiting))
unfolding sema_down
sema_down-Inv l pc i v at = elim (Bool-cases (l.semaphore.value == 0)) [
  | inl z ↦ rw z (block l pc i v (ground arith) (ground arith) (ground arith))
  | inr nz ↦ rw nz (pass l pc i v (ground arith) (ground arith) (ground arith))
]

pub sema_try_down-Inv :
    (l : Lock) (pc : ℕ → Pc) (i : ℕ)
    → Inv l pc
    → pc i ≡ outside
    → let (s, passed) = sema_try_down l.semaphore in
      Inv (record l { semaphore = s }) (move pc i (if passed then got else outside))
unfolding sema_try_down
sema_try_down-Inv l pc i v at = elim (Bool-cases (ltb 0 l.semaphore.value)) [
  | inl p ↦ rw p (pass l pc i v (ground arith) (ground arith) (ground arith))
  | inr z ↦ rw z (stay l pc i outside v at)
]
