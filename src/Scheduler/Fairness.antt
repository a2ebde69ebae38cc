-- ===== src/Scheduler/Fairness.antt =====
-- Every ready thread gets its turn: linuxpintos/src/threads/thread.c. `Step` has what can happen to the
-- scheduler, and whether `schedule` is called.
use tddb68_collab.Base.{
  ℕ, suc, ◌-◌, ◌≤◌, ◌<◌, ◌≡◌, ◌≢◌, ◌⊎◌, sym, ap, ◌∙◌, subst, Bool, true, false, not, Option, List,
  [], ◌∷◌, ◌++◌, ◌==◌, length, arith, Bool-cases, inl, inr,
}
use mathlib.Core.List.{append_assoc, append-nil}
use tddb68_collab.Base.Copies.{copies}
use tddb68_collab.Base.Kernel.{Kernel, runs, runs-inj, >>=-runs, assert-runs}
use tddb68_collab.Scheduler.{
  Status, blocked, is_running, is_blocked, Scheduler, thread_current, thread_unblock,
  next_thread_to_run, schedule, thread_block, thread_exit, thread_yield, thread_add_to_waiting,
  on_timer,
}
use tddb68_collab.Scheduler.Steps.{
  IsValid, Keeps, block-Keeps, yield-Keeps, exit-Keeps, sleep-Keeps, unblock-IsValid,
}
use tddb68_collab.Scheduler.Ticks.{timer_interrupt_lem, timer-Keeps}

is_blocked_lem : (x : Status) → is_blocked x ≡ true → x ≡ blocked
is_blocked_lem x e = ground arith

module _ (idle initial : ℕ) (has_pagedir : ℕ → Bool) where
  pub data Step (s : Scheduler) : Bool → Scheduler → Type 0 where
    block :
        (s' : Scheduler) (f : Option ℕ)
        → thread_block idle initial has_pagedir false false s ≡ runs (s', f)
        → Step s true s'
    exit :
        (s' : Scheduler) (f : Option ℕ)
        → s.current ≢ idle
        → thread_exit idle initial has_pagedir false s ≡ runs (s', f)
        → Step s true s'
    yield :
        (s' : Scheduler) (f : Option ℕ)
        → thread_yield idle initial has_pagedir false s ≡ runs (s', f)
        → Step s true s'
    sleep :
        (s' : Scheduler) (f : Option ℕ) (wake : ℕ)
        → s.current ≢ idle
        → thread_add_to_waiting idle initial has_pagedir false s s.current wake ≡ runs (s', f)
        → Step s true s'
    timer :
        (s' : Scheduler) (f : Option ℕ)
        → on_timer idle initial has_pagedir s ≡ runs (s', f)
        → Step s true s'
    unblock :
        (s' : Scheduler) (t : ℕ)
        → t ≢ idle
        → copies s.waiting_list t ≡ 0
        → thread_unblock s t ≡ runs s'
        → Step s false s'

  -- A run, and how often `schedule` was called in it.
  pub data Runs (s : Scheduler) : ℕ → Scheduler → Type 0 where
    here : Runs s 0 s
    switch : {n : ℕ} {u v : Scheduler} → Runs s n u → Step u true v → Runs s (suc n) v
    stay : {n : ℕ} {u v : Scheduler} → Runs s n u → Step u false v → Runs s n v

  -- Thread `t` is the current one in a state of the run.
  pub HasTurn : (t : ℕ) {s v : Scheduler} {n : ℕ} → Runs s n v → Type 0
  HasTurn t {s} here = s.current ≡ t
  HasTurn t (switch {v = v} r step) = HasTurn t r ⊎ (v.current ≡ t)
  HasTurn t (stay r step) = HasTurn t r

  -- `s'` goes on with the next thread of a list that starts with `list`.
  Turned : List ℕ → Scheduler → Type 0
  Turned list s' =
      (later : List ℕ) × ((s'.current, s'.ready_list) ≡ next_thread_to_run idle (list ++ later))

  schedule-next :
      (s s' : Scheduler) (f : Option ℕ)
      → schedule idle initial has_pagedir false s ≡ runs (s', f)
      → (s'.current, s'.ready_list) ≡ next_thread_to_run idle s.ready_list
  unfolding schedule
  schedule-next s s' f e =
      let (_, run) = assert-runs (not (is_running (s.status s.current))) _ e in
      sym (ap (λ r. (r.0.current, r.0.ready_list)) (runs-inj run))

  block-Turned :
      (s s' : Scheduler) (f : Option ℕ)
      → thread_block idle initial has_pagedir false false s ≡ runs (s', f)
      → Turned s.ready_list s'
  unfolding thread_block Turned
  block-Turned s s' f e =
      let (cur, _, run) = >>=-runs (thread_current s) _ e in
      ([], schedule-next _ s' f run ∙ ap (next_thread_to_run idle) (sym (append-nil s.ready_list)))

  exit-Turned :
      (s s' : Scheduler) (f : Option ℕ)
      → thread_exit idle initial has_pagedir false s ≡ runs (s', f)
      → Turned s.ready_list s'
  unfolding thread_exit Turned
  exit-Turned s s' f e =
      let (cur, _, run) = >>=-runs (thread_current s) _ e in
      ([], schedule-next _ s' f run ∙ ap (next_thread_to_run idle) (sym (append-nil s.ready_list)))

  yield-Turned :
      (s s' : Scheduler) (f : Option ℕ)
      → thread_yield idle initial has_pagedir false s ≡ runs (s', f)
      → Turned s.ready_list s'
  unfolding thread_yield Turned
  yield-Turned s s' f e =
      let (cur, _, run) = >>=-runs (thread_current s) _ e in
      elim (Bool-cases (cur == idle)) [
        | inl is_idle ↦ (
          [],
          schedule-next _ s' f run
              ∙ ap (next_thread_to_run idle) (ground (arith, is_idle, append-nil s.ready_list)),
        )
        | inr not_idle ↦ (
          cur ∷ [],
          schedule-next _ s' f run ∙ ap (next_thread_to_run idle) (ground (arith, not_idle)),
        )
      ]

  Turned-longer : (list more : List ℕ) (s' : Scheduler) → Turned (list ++ more) s' → Turned list s'
  unfolding Turned
  Turned-longer list more s' (later, e) =
      (more ++ later, e ∙ ap (next_thread_to_run idle) (append_assoc list more later))

  switch-Turned :
      (s : Scheduler) {s' : Scheduler} → IsValid idle s → Step s true s' → Turned s.ready_list s'
  unfolding thread_add_to_waiting on_timer
  switch-Turned s v (block s' f e) = block-Turned s s' f e
  switch-Turned s v (exit s' f ne e) = exit-Turned s s' f e
  switch-Turned s v (yield s' f e) = yield-Turned s s' f e
  switch-Turned s v (sleep s' f wake ne e) = block-Turned _ s' f e
  switch-Turned s v (timer s' f e) =
      let (s1, run, _, _, _, list, _) = timer_interrupt_lem idle initial has_pagedir s v in
      Turned-longer s.ready_list _ s'
        (subst (λ l. Turned l s') list (yield-Turned s1 s' f (rw (run) at e)))

  -- `k` threads are ahead of `t` in the list.
  abbrev pub Ahead : (t k : ℕ) → List ℕ → Type 0
  Ahead t k list = (before after : List ℕ) × (list ≡ before ++ (t ∷ after)) × (length before ≡ k)

  -- After a call of `schedule` the thread runs, or is one place further to the front.
  Turned-Ahead :
      {t k : ℕ} (list : List ℕ) (s' : Scheduler)
      → Ahead t k list
      → Turned list s'
      → (s'.current ≡ t) ⊎ ((0 < k) × Ahead t (k - 1) s'.ready_list)
  unfolding Turned next_thread_to_run
  Turned-Ahead {t} {k} list s' (before, after, e, size) (later, next) =
      go before size (next ∙ ap (λ l. next_thread_to_run idle (l ++ later)) e)
    where
      go :
          (front : List ℕ)
          → length front ≡ k
          → (s'.current, s'.ready_list) ≡ next_thread_to_run idle ((front ++ (t ∷ after)) ++ later)
          → (s'.current ≡ t) ⊎ ((0 < k) × Ahead t (k - 1) s'.ready_list)
      go [] size first = inl (ap (λ r. r.0) first)
      go (u ∷ us) size first = inr (
        omega (arith, size),
        (
          us,
          after ++ later,
          ap (λ r. r.1) first ∙ append_assoc us (t ∷ after) later,
          omega (arith, size),
        ),
      )

  kept :
      {call : Kernel (Scheduler × Option ℕ)} {s' : Scheduler} {f : Option ℕ}
      → Keeps idle initial has_pagedir call
      → call ≡ runs (s', f)
      → IsValid idle s'
  kept (s1, g, run, v) e = subst (IsValid idle) (ap (λ r. r.0) (runs-inj (sym run ∙ e))) v

  step-IsValid : {s s' : Scheduler} {b : Bool} → IsValid idle s → Step s b s' → IsValid idle s'
  unfolding thread_unblock
  step-IsValid {s} v (block s' f e) = kept (block-Keeps idle initial has_pagedir s v) e
  step-IsValid {s} v (yield s' f e) = kept (yield-Keeps idle initial has_pagedir s v) e
  step-IsValid {s} v (timer s' f e) = kept (timer-Keeps idle initial has_pagedir s v) e
  step-IsValid {s} v (exit s' f ne e) = kept (exit-Keeps idle initial has_pagedir s v ne) e
  step-IsValid {s} v (sleep s' f wake ne e) =
      kept (sleep-Keeps idle initial has_pagedir s wake v ne) e
  step-IsValid {s} v (unblock s' t ne awake e) =
      let was : s.status t ≡ blocked =
        is_blocked_lem (s.status t) (assert-runs (is_blocked (s.status t)) _ e).0 in
      let (s1, run, w) = unblock-IsValid idle initial has_pagedir s t v was ne awake in
      subst (IsValid idle) (runs-inj (sym run ∙ e)) w

  pub Runs-IsValid : {s s' : Scheduler} {n : ℕ} → IsValid idle s → Runs s n s' → IsValid idle s'
  Runs-IsValid v here = v
  Runs-IsValid v (switch r step) = step-IsValid (Runs-IsValid v r) step
  Runs-IsValid v (stay r step) = step-IsValid (Runs-IsValid v r) step

  unblock-Ahead :
      {t k : ℕ} {s s' : Scheduler}
      → Step s false s'
      → Ahead t k s.ready_list
      → Ahead t k s'.ready_list
  unfolding thread_unblock
  unblock-Ahead {t} {k} {s} (unblock s' u ne awake e) (before, after, list, size) =
      let (_, run) = assert-runs (is_blocked (s.status u)) _ e in
      let longer = sym (ap (λ r. r.ready_list) (runs-inj run)) in
      (
        before,
        after ++ (u ∷ []),
        longer ∙ ap (λ l. l ++ (u ∷ [])) list ∙ append_assoc before (t ∷ after) (u ∷ []),
        size,
      )

  turn_or_closer :
      {t k : ℕ} {s : Scheduler} {n : ℕ} {v : Scheduler} (r : Runs s n v)
      → IsValid idle s
      → Ahead t k s.ready_list
      → HasTurn t r ⊎ ((n ≤ k) × Ahead t (k - n) v.ready_list)
  unfolding HasTurn
  turn_or_closer {t} {k} {s} here w ahead =
      let same : k ≡ k - 0 = omega arith in
      inr (omega arith, subst (λ j. Ahead t j s.ready_list) same ahead)
  turn_or_closer {t} {k} (switch {n = n} {u = u} {v = v} r step) w ahead =
      elim (turn_or_closer r w ahead) [
        | inl turn ↦ inl (inl turn)
        | inr (le, closer) ↦
            elim (Turned-Ahead u.ready_list v closer (switch-Turned u (Runs-IsValid w r) step)) [
              | inl now ↦ inl (inr now)
              | inr (positive, one_closer) ↦
                  let same : k - n - 1 ≡ k - suc n = omega arith in
                  inr (omega (arith, positive), subst (λ j. Ahead t j v.ready_list) same one_closer)
            ]
      ]
  turn_or_closer (stay r step) w ahead = elim (turn_or_closer r w ahead) [
    | inl turn ↦ inl turn
    | inr (le, closer) ↦ inr (le, unblock-Ahead step closer)
  ]

  -- However threads block, exit, yield, sleep, are unblocked or are interrupted, a thread in the ready list with
  -- `k` threads ahead of it runs by the time `schedule` was called more than `k` times.
  pub no_starvation :
      {t k : ℕ} {s : Scheduler} {n : ℕ} {v : Scheduler} (r : Runs s n v)
      → IsValid idle s
      → Ahead t k s.ready_list
      → k < n
      → HasTurn t r
  no_starvation r w ahead enough = elim (turn_or_closer r w ahead) [
    | inl turn ↦ turn
    | inr (le, closer) ↦ absurd (omega (arith, le, enough))
  ]
