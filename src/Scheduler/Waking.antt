-- ===== src/Scheduler/Waking.antt =====
-- What a tick does to the sleeping threads: linuxpintos/src/threads/thread.c.
use tddb68_collab.Base.{
  ℕ, ◌≤◌, ◌≡◌, refl, sym, ap, ◌∙◌, subst, true, List, [], ◌∷◌, ◌++◌, ◌==◌, leb, ltb, if◌then◌else◌,
  arith, Bool-cases, inl, inr,
}
use mathlib.Core.List.{append_assoc, append-nil}
use tddb68_collab.Base.Copies.{copies, copies-++}
use tddb68_collab.Base.Kernel.{runs}
use tddb68_collab.Scheduler.{
  Status, ready, is_blocked, Scheduler, mark, thread_unblock, without, wake_due,
}

-- The threads of a list whose time has come, and the others.
unfoldable pub due : (wake_tick : ℕ → ℕ) → (ticks : ℕ) → List ℕ → List ℕ
due wake_tick ticks [] = []
due wake_tick ticks (t ∷ rest) =
    let us = due wake_tick ticks rest in if leb (wake_tick t) ticks then t ∷ us else us

unfoldable pub asleep : (wake_tick : ℕ → ℕ) → (ticks : ℕ) → List ℕ → List ℕ
asleep wake_tick ticks [] = []
asleep wake_tick ticks (t ∷ rest) =
    let us = asleep wake_tick ticks rest in if leb (wake_tick t) ticks then us else t ∷ us

pub due-copies :
    (wake_tick : ℕ → ℕ) (ticks : ℕ) (ts : List ℕ) (t : ℕ)
    → copies (due wake_tick ticks ts) t ≡ (if leb (wake_tick t) ticks then copies ts t else 0)
unfolding due copies
due-copies wake_tick ticks [] t = ground arith
due-copies wake_tick ticks (u ∷ us) t = elim (Bool-cases (u == t)) [
  | inl e ↦
      let same : u ≡ t = ground (arith, e) in
      ground (arith, due-copies wake_tick ticks us t, ap wake_tick same)
  | inr ne ↦ ground (arith, due-copies wake_tick ticks us t)
]

pub asleep-copies :
    (wake_tick : ℕ → ℕ) (ticks : ℕ) (ts : List ℕ) (t : ℕ)
    → copies (asleep wake_tick ticks ts) t ≡ (if leb (wake_tick t) ticks then 0 else copies ts t)
unfolding asleep copies
asleep-copies wake_tick ticks [] t = ground arith
asleep-copies wake_tick ticks (u ∷ us) t = elim (Bool-cases (u == t)) [
  | inl e ↦
      let same : u ≡ t = ground (arith, e) in
      ground (arith, asleep-copies wake_tick ticks us t, ap wake_tick same)
  | inr ne ↦ ground (arith, asleep-copies wake_tick ticks us t)
]

without-middle :
    (before : List ℕ) (t : ℕ) (rest : List ℕ)
    → copies before t ≡ 0
    → without t (before ++ (t ∷ rest)) ≡ before ++ rest
unfolding without copies
without-middle [] t rest h = ground arith
without-middle (u ∷ us) t rest h = ground (arith, without-middle us t rest)

-- What `wake_due` of the threads `ts` of the waiting list, those after `before`, does.
pub record Woken (before ts : List ℕ) (s s' : Scheduler) : Type 0 where
  pub ready_list : s'.ready_list ≡ s.ready_list ++ due s.wake_tick s.ticks ts
  pub waiting_list : s'.waiting_list ≡ before ++ asleep s.wake_tick s.ticks ts
  pub status :
      (t : ℕ)
      → s'.status t ≡ (if ltb 0 (copies (due s.wake_tick s.ticks ts) t) then ready else s.status t)
  pub current : s'.current ≡ s.current
  pub wake_tick : s'.wake_tick ≡ s.wake_tick
  pub ticks : s'.ticks ≡ s.ticks
  pub thread_ticks : s'.thread_ticks ≡ s.thread_ticks
  pub statistics : s'.statistics ≡ s.statistics

-- Sleeping threads are blocked and in the list once.
abbrev pub Sleep : List ℕ → (ℕ → Status) → Type 0
Sleep ts status = (t : ℕ) → copies ts t ≤ (if is_blocked (status t) then 1 else 0)

pub wake_due-Woken :
    (before ts : List ℕ) (s : Scheduler)
    → s.waiting_list ≡ before ++ ts
    → Sleep (before ++ ts) s.status
    → (s' : Scheduler) × (wake_due ts s ≡ runs s') × Woken before ts s s'
unfolding wake_due thread_unblock due asleep copies
wake_due-Woken before [] s e h = (
  s,
  refl,
  record {
    ready_list = sym (append-nil s.ready_list);
    waiting_list = e;
    status = λ t. refl;
    current = refl;
    wake_tick = refl;
    ticks = refl;
    thread_ticks = refl;
    statistics = refl;
  },
)
wake_due-Woken before (t ∷ ts) s e h = elim (Bool-cases (leb (s.wake_tick t) s.ticks)) [
  | inl now ↦
      let here = copies-++ before (t ∷ ts) t in
      let is_asleep : is_blocked (s.status t) ≡ true = ground (arith, h t, here) in
      let once : (copies before t ≡ 0) × (copies ts t ≡ 0) = ground (arith, h t, here) in
      let s1 : Scheduler = record s {
        ready_list = s.ready_list ++ (t ∷ []);
        waiting_list = without t s.waiting_list;
        status = mark s.status t ready;
      } in
      let (s', run, w) =
        wake_due-Woken before ts s1 (ap (without t) e ∙ without-middle before t ts once.0)
          (λ u. ground (arith, h u, copies-++ before (t ∷ ts) u, copies-++ before ts u)) in
      (
        s',
        rw (now, is_asleep) run,
        record {
          ready_list =
              rw (now)
                (w.ready_list ∙ append_assoc s.ready_list (t ∷ []) (due s.wake_tick s.ticks ts));
          waiting_list = rw (now) w.waiting_list;
          status = λ u. ground (arith, now, w.status u);
          current = w.current;
          wake_tick = w.wake_tick;
          ticks = w.ticks;
          thread_ticks = w.thread_ticks;
          statistics = w.statistics;
        },
      )
  | inr later ↦
      let shifted : (us : List ℕ) → (before ++ (t ∷ [])) ++ us ≡ before ++ (t ∷ us) =
        λ us. append_assoc before (t ∷ []) us in
      let (s', run, w) =
        wake_due-Woken (before ++ (t ∷ [])) ts s (e ∙ sym (shifted ts))
          (subst (λ l. Sleep l s.status) (sym (shifted ts)) h) in
      (
        s',
        rw (later) run,
        record {
          ready_list = rw (later) w.ready_list;
          waiting_list = rw (later) (w.waiting_list ∙ shifted (asleep s.wake_tick s.ticks ts));
          status = λ u. ground (arith, later, w.status u);
          current = w.current;
          wake_tick = w.wake_tick;
          ticks = w.ticks;
          thread_ticks = w.thread_ticks;
          statistics = w.statistics;
        },
      )
]
