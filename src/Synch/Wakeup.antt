-- ===== src/Synch/Wakeup.antt =====
-- No wakeup of a semaphore is lost: linuxpintos/src/threads/synch.c. Any number of threads call
-- `sema_down`, `sema_try_down` and `sema_up` in any order.
use tddb68_collab.Base.{
  ℕ, suc, ◌+◌, ◌%◌, ◌^◌, ◌≤◌, ◌<◌, ◌≡◌, ◌∙◌, ◌⊎◌, inl, inr, refl, Bool, true, false, Option, none,
  some, List, [], ◌∷◌, ◌++◌, length, arith, length-append,
}
use tddb68_collab.Synch.{Semaphore, sema_init, sema_down, sema_try_down, sema_up}

-- The semaphore, the threads that were unblocked and have not run since, and how often the semaphore
-- was passed and raised so far.
pub record Users : Type 0 where
  pub sema : Semaphore
  pub woken : List ℕ
  pub downs : ℕ
  pub ups : ℕ

abbrev wake : Option ℕ → List ℕ → List ℕ
wake none woken = woken
wake (some t) woken = woken ++ (t ∷ [])

abbrev count : Bool → ℕ → ℕ
count true n = suc n
count false n = n

-- What a thread can do to the semaphore. Which woken thread runs next is left open.
pub data Step (u : Users) : Users → Type 0 where
  down :
      (cur : ℕ)
      → Step u (record u {
        sema = (sema_down u.sema cur).0;
        downs = count (sema_down u.sema cur).1 u.downs;
      })
  retry :
      (before : List ℕ) (cur : ℕ) (after : List ℕ)
      → u.woken ≡ before ++ (cur ∷ after)
      → Step u (record u {
        sema = (sema_down u.sema cur).0;
        woken = before ++ after;
        downs = count (sema_down u.sema cur).1 u.downs;
      })
  try_down :
      Step u (record u {
        sema = (sema_try_down u.sema).0;
        downs = count (sema_try_down u.sema).1 u.downs;
      })
  up : Step u (record u {
    sema = (sema_up u.sema).0;
    woken = wake (sema_up u.sema).1 u.woken;
    ups = suc u.ups;
  })

pub data Reach (start : ℕ) : Users → Type 0 where
  init : Reach start (record { sema = sema_init start; woken = []; downs = 0; ups = 0 })
  next : {u u' : Users} → Reach start u → Step u u' → Reach start u'

-- A thread waits only while there are at least as many woken threads as the value has room for.
abbrev pub NoLostWakeup : Users → Type 0
NoLostWakeup u = (u.sema.waiters ≡ []) ⊎ (u.sema.value ≤ length u.woken)

length-insert :
    (before : List ℕ) (cur : ℕ) (after : List ℕ)
    → length (before ++ (cur ∷ after)) ≡ suc (length (before ++ after))
length-insert before cur after =
    omega (arith, length-append before (cur ∷ after), length-append before after)

sema_up-NoLostWakeup :
    (value : ℕ) (waiters woken : List ℕ)
    → (waiters ≡ []) ⊎ (value ≤ length woken)
    → let (s, t) = sema_up (record { value = value; waiters = waiters }) in
      (s.waiters ≡ []) ⊎ (s.value ≤ length (wake t woken))
unfolding sema_up
sema_up-NoLostWakeup value [] woken h = inl refl
sema_up-NoLostWakeup value (t ∷ rest) woken (inl e) = absurd (ground arith)
sema_up-NoLostWakeup value (t ∷ rest) woken (inr le) =
    inr (omega (arith, length-append woken (t ∷ []), le))

Step-NoLostWakeup : {u u' : Users} → Step u u' → NoLostWakeup u → NoLostWakeup u'
unfolding sema_down sema_try_down
Step-NoLostWakeup (down cur) h = ground arith
Step-NoLostWakeup (retry before cur after e) h = ground (arith, length-insert before cur after)
Step-NoLostWakeup {u} try_down h = ground arith
Step-NoLostWakeup {u} up h = sema_up-NoLostWakeup u.sema.value u.sema.waiters u.woken h

-- However the threads run, either no thread waits or the value is at most the number of woken threads
-- that have not run since.
pub Reach-NoLostWakeup : {start : ℕ} {u : Users} → Reach start u → NoLostWakeup u
unfolding sema_init
Reach-NoLostWakeup init = inl refl
Reach-NoLostWakeup (next r s) = Step-NoLostWakeup s (Reach-NoLostWakeup r)

sema_down-value :
    (s : Semaphore) (cur n : ℕ)
    → (sema_down s cur).0.value + count (sema_down s cur).1 n ≡ s.value + n
unfolding sema_down
sema_down-value s cur n = ground arith

sema_try_down-value :
    (s : Semaphore) (n : ℕ) → (sema_try_down s).0.value + count (sema_try_down s).1 n ≡ s.value + n
unfolding sema_try_down
sema_try_down-value s n = ground arith

sema_up-value :
    (value : ℕ) (waiters : List ℕ)
    → (sema_up (record { value = value; waiters = waiters })).0.value ≡ (value + 1) % 2 ^ 32
unfolding sema_up
sema_up-value value [] = refl
sema_up-value value (t ∷ rest) = refl

-- However the threads run, the value is the start value plus the ups less the passed downs, as long as
-- the start value and the ups together stay below 2^32.
pub Reach-value :
    {start : ℕ} {u : Users}
    → Reach start u
    → start + u.ups < 2 ^ 32
    → u.sema.value + u.downs ≡ start + u.ups
unfolding sema_init
Reach-value init small = omega arith
Reach-value (next {u} r (down cur)) small = sema_down-value u.sema cur u.downs ∙ Reach-value r small
Reach-value (next {u} r (retry before cur after e)) small =
    sema_down-value u.sema cur u.downs ∙ Reach-value r small
Reach-value (next {u} r try_down) small = sema_try_down-value u.sema u.downs ∙ Reach-value r small
Reach-value (next {u} r up) small =
    omega (arith, sema_up-value u.sema.value u.sema.waiters, Reach-value r (omega arith))
