-- ===== src/Wait/Invariant.antt =====
-- What every step of a parent and its children keeps: linuxpintos/src/userprog/process.c.
use tddb68_collab.Base.{
  ℕ, ◌^◌, ◌≤◌, ◌<◌, ◌≡◌, refl, Bool, true, false, Option, none, some, [], ◌∷◌, ◌++◌, if◌then◌else◌,
  arith, Bool-cases, inl, inr,
}
use tddb68_collab.Base.Int.{ℤ}
use tddb68_collab.Synch.{Semaphore, sema_init, sema_down, sema_up}
use tddb68_collab.Wait.{
  search, Child, unborn, entered, raising, done, Parent, outside, creating, awaiting, searching,
  downing, blocked, woken, passed, returned, refused, after_test, after_search, after_down, unblock,
  after_check,
}
use tddb68_collab.Wait.System.{
  System, become, Step, create, load_failed, loaded, refuse, enter, test, look, down, retry,
  look_again, leave, leave_refused, push, check, raise, first, Runs, here, next,
}
use tddb68_collab.Base.Copies.{copies, copies-append}
use tddb68_collab.Wait.Search.{remove_child-copies, search-append, list_empty-search}

-- The child that the parent waits for, until it returns.
abbrev pub awaits : Parent → Option ℕ
awaits (awaiting t) = some t
awaits (searching t) = some t
awaits (downing t v) = some t
awaits (blocked t v) = some t
awaits (woken t v) = some t
awaits (passed t v) = some t
awaits _ = none

-- The child that the parent waits for through the semaphore.
abbrev pub sleeps_for : Parent → Option ℕ
sleeps_for (downing t v) = some t
sleeps_for (blocked t v) = some t
sleeps_for (woken t v) = some t
sleeps_for _ = none

abbrev pub is_blocked : Parent → Bool
is_blocked (blocked t v) = true
is_blocked _ = false

abbrev pub creates : Parent → Option ℕ
creates (creating t) = some t
creates _ = none

abbrev pub is_born : Child → Bool
is_born unborn = false
is_born _ = true

-- The child is in the list of returns.
abbrev pub is_listed : Child → Bool
is_listed entered = true
is_listed raising = true
is_listed done = true
is_listed _ = false

pub record Inv (self : ℕ) (status : ℕ → ℤ) (s : System) : Type 0 where
  pub found :
      (t : ℕ) (v : Option ℤ)
      → is_listed (s.child t) ≡ true
      → search s.rel.return_list t v ≡ (true, some (status t))
  pub absent :
      (t : ℕ) (v : Option ℤ)
      → is_listed (s.child t) ≡ false
      → (search s.rel.return_list t v).0 ≡ false
  pub once : (t : ℕ) → copies s.children_tids t ≤ 1
  pub born : (t : ℕ) → 0 < copies s.children_tids t → is_born (s.child t) ≡ true
  pub created :
      (t : ℕ)
      → creates s.parent ≡ some t
      → (is_born (s.child t) ≡ true) × (copies s.children_tids t ≡ 0)
  pub awaited :
      (t : ℕ)
      → awaits s.parent ≡ some t
      → (s.rel.awaited_tid ≡ t) × (is_born (s.child t) ≡ true) × (copies s.children_tids t ≡ 0)
  pub queue : s.rel.p_sema.waiters ≡ (if is_blocked s.parent then self ∷ [] else [])
  pub closed : is_blocked s.parent ≡ true → s.rel.p_sema.value ≡ 0
  pub counted : s.ups < 2 ^ 32 → s.rel.p_sema.value ≤ s.ups
  pub raised :
      (t : ℕ)
      → s.ups < 2 ^ 32
      → sleeps_for s.parent ≡ some t
      → s.child t ≡ done
      → 0 < s.rel.p_sema.value

-- The parent goes on without a change of what it shares.
goes_on :
    {self : ℕ} {status : ℕ → ℤ} {s : System} (p : Parent)
    → Inv self status s
    → is_blocked s.parent ≡ false
    → is_blocked p ≡ false
    → creates p ≡ none
    → ((t : ℕ) → awaits p ≡ some t → awaits s.parent ≡ some t)
    → ((t : ℕ) → s.ups < 2 ^ 32 → sleeps_for p ≡ some t → s.child t ≡ done → 0 < s.rel.p_sema.value)
    → Inv self status (record s { parent = p })
goes_on {self} {status} {s} p v runs_before runs_after creates_none same raised = record {
  found = v.found;
  absent = v.absent;
  once = v.once;
  born = v.born;
  created = λ u e. absurd (ground arith);
  awaited = λ u e. v.awaited u (same u e);
  queue = ground (arith, v.queue);
  closed = λ e. absurd (ground arith);
  counted = v.counted;
  raised = raised;
}

-- A round of the loop of `sema_down`.
downs :
    {self : ℕ} {status : ℕ → ℤ} {s : System} (t : ℕ) (w : Option ℤ) (sema : Semaphore)
    (through : Bool)
    → Inv self status s
    → is_blocked s.parent ≡ false
    → sleeps_for s.parent ≡ some t
    → awaits s.parent ≡ some t
    → sema_down s.rel.p_sema self ≡ (sema, through)
    → Inv self status
        (record s { rel = record s.rel { p_sema = sema }; parent = after_down t w through })
unfolding sema_down after_down
downs {self} {status} {s} t w sema through v running_before sleeps waits e = record {
  found = v.found;
  absent = v.absent;
  once = v.once;
  born = v.born;
  created = λ u e'. absurd (ground arith);
  awaited = λ u e'. ground (arith, v.awaited t waits);
  queue = ground (arith, v.queue);
  closed = λ e'. ground arith;
  counted = λ small. ground (arith, v.counted);
  raised = λ u small e' over. ground (arith, v.raised t small sleeps);
}

-- What a child appends is what is found for it, and changes no other search.
push-found :
    {self : ℕ} {status : ℕ → ℤ} {s : System} (t u : ℕ) (w : Option ℤ)
    → Inv self status s
    → is_listed (become s.child t entered u) ≡ true
    → search (s.rel.return_list ++ (record { tid = t; returned_val = status t } ∷ [])) u w
      ≡ (true, some (status u))
push-found {self} {status} {s} t u w v e =
    let appended =
      search-append s.rel.return_list (record { tid = t; returned_val = status t }) u w in
    elim (Bool-cases (is_listed (s.child u))) [
      | inl listed ↦ ground (arith, appended, v.found u w listed)
      | inr not_listed ↦ ground (arith, appended, v.absent u w not_listed)
    ]

pub Step-Inv :
    {self : ℕ} {status : ℕ → ℤ} {s s' : System}
    → Step self status s s'
    → Inv self status s
    → Inv self status s'
unfolding after_test after_search after_check unblock sema_up
Step-Inv {self} {status} {s} (create t at fresh) v = record {
  found = λ u w e. ground (arith, v.found u w, v.found t w);
  absent = λ u w e. ground (arith, v.absent u w, v.absent t w);
  once = v.once;
  born = λ u e. ground (arith, v.born u e);
  created = λ u e. ground (arith, v.born u, v.once u);
  awaited = λ u e. absurd (ground arith);
  queue = ground (arith, v.queue);
  closed = λ e. absurd (ground arith);
  counted = v.counted;
  raised = λ u small e. absurd (ground arith);
}
Step-Inv {self} {status} {s} (load_failed t at) v =
    goes_on outside v (ground arith) refl refl (λ u e. absurd (ground arith))
      (λ u small e. absurd (ground arith))
Step-Inv {self} {status} {s} (loaded t at) v = record {
  found = v.found;
  absent = v.absent;
  once = λ u. ground (arith, v.once u, v.created u, copies-append s.children_tids t u);
  born =
      λ u e. ground (arith, v.born u, v.created t, v.created u, copies-append s.children_tids t u);
  created = λ u e. absurd (ground arith);
  awaited = λ u e. absurd (ground arith);
  queue = ground (arith, v.queue);
  closed = λ e. absurd (ground arith);
  counted = v.counted;
  raised = λ u small e. absurd (ground arith);
}
Step-Inv {self} {status} {s} (refuse t at missing) v =
    goes_on (refused t) v (ground arith) refl refl (λ u e. absurd (ground arith))
      (λ u small e. absurd (ground arith))
Step-Inv {self} {status} {s} (enter t rest at there) v = record {
  found = v.found;
  absent = v.absent;
  once = λ u. ground (arith, v.once u, remove_child-copies s.children_tids t there u);
  born = λ u e. ground (arith, v.born u, remove_child-copies s.children_tids t there u);
  created = λ u e. absurd (ground arith);
  awaited =
      λ u e. ground (arith, v.born t, v.once t, remove_child-copies s.children_tids t there t);
  queue = ground (arith, v.queue);
  closed = λ e. absurd (ground arith);
  counted = v.counted;
  raised = λ u small e. absurd (ground arith);
}
Step-Inv {self} {status} {s} (test t at) v =
    goes_on (after_test t s.rel.return_list) v (ground arith) (ground arith) (ground arith)
      (λ u e. ground arith)
      (λ u small e over. ground (arith, v.found t none, list_empty-search s.rel.return_list t none))
Step-Inv {self} {status} {s} (look t at) v =
    goes_on (after_search t (search s.rel.return_list t none)) v (ground arith) (ground arith)
      (ground arith) (λ u e. ground arith) (λ u small e over. ground (arith, v.found t none))
Step-Inv {self} {status} {s} (down t w sema through at e) v =
    downs t w sema through v (ground arith) (ground arith) (ground arith) e
Step-Inv {self} {status} {s} (retry t w sema through at e) v =
    downs t w sema through v (ground arith) (ground arith) (ground arith) e
Step-Inv {self} {status} {s} (look_again t w at) v =
    goes_on (returned t (search s.rel.return_list t w).1) v (ground arith) refl refl
      (λ u e. absurd (ground arith)) (λ u small e. absurd (ground arith))
Step-Inv {self} {status} {s} (leave t w at) v =
    goes_on outside v (ground arith) refl refl (λ u e. absurd (ground arith))
      (λ u small e. absurd (ground arith))
Step-Inv {self} {status} {s} (leave_refused t at) v =
    goes_on outside v (ground arith) refl refl (λ u e. absurd (ground arith))
      (λ u small e. absurd (ground arith))
Step-Inv {self} {status} {s} (push t at) v = record {
  found = λ u w e. push-found t u w v e;
  absent = λ u w e. ground (
    arith,
    v.absent u w,
    search-append s.rel.return_list (record { tid = t; returned_val = status t }) u w,
  );
  once = v.once;
  born = λ u e. ground (arith, v.born u);
  created = λ u e. ground (arith, v.created u);
  awaited = λ u e. ground (arith, v.awaited u);
  queue = v.queue;
  closed = v.closed;
  counted = v.counted;
  raised = λ u small e over. ground (arith, v.raised u);
}
Step-Inv {self} {status} {s} (check t at) v = record {
  found = λ u w e. ground (arith, v.found u w);
  absent = λ u w e. ground (arith, v.absent u w);
  once = v.once;
  born = λ u e. ground (arith, v.born u);
  created = λ u e. ground (arith, v.created u);
  awaited = λ u e. ground (arith, v.awaited u);
  queue = v.queue;
  closed = v.closed;
  counted = v.counted;
  raised = λ u small e over. ground (arith, v.raised u, v.awaited u);
}
Step-Inv {self} {status} {s} (raise t sema wakes at e) v = record {
  found = λ u w e'. ground (arith, v.found u w);
  absent = λ u w e'. ground (arith, v.absent u w);
  once = v.once;
  born = λ u e'. ground (arith, v.born u);
  created = λ u e'. ground (arith, v.created u, v.queue);
  awaited = λ u e'. ground (arith, v.awaited u, v.queue);
  queue = ground (arith, v.queue);
  closed = λ e'. ground (arith, v.queue);
  counted = λ small. ground (arith, v.counted);
  raised = λ u small e' over. ground (arith, v.counted);
}

pub Runs-Inv :
    {self : ℕ} {status : ℕ → ℤ} (junk : ℕ) {s : System}
    → Runs self status (first junk) s
    → Inv self status s
unfolding first search copies sema_init
Runs-Inv junk here = record {
  found = λ t w e. absurd (ground arith);
  absent = λ t w e. refl;
  once = λ t. omega arith;
  born = λ t e. absurd (omega arith);
  created = λ t e. absurd (ground arith);
  awaited = λ t e. absurd (ground arith);
  queue = refl;
  closed = λ e. refl;
  counted = λ e. omega arith;
  raised = λ t small e. absurd (ground arith);
}
Runs-Inv junk (next r step) = Step-Inv step (Runs-Inv junk r)
