-- ===== src/Wait/Status.antt =====
-- The status that `process_wait` returns: linuxpintos/src/userprog/process.c.
use tddb68_collab.Base.{
  ℕ, ◌≤◌, ◌<◌, ◌≡◌, ◌≢◌, sym, ◌∙◌, true, Option, none, some, List, [], ◌∷◌, ◌++◌, arith,
}
use tddb68_collab.Base.Int.{ℤ}
use tddb68_collab.Synch.{sema_down, sema_up}
use tddb68_collab.Wait.{
  Relation, search, remove_child, raising, Parent, outside, awaiting, passed, returned, refused,
  after_test, after_search, after_down, unblock, after_check,
}
use tddb68_collab.Wait.System.{
  System, Step, create, load_failed, loaded, refuse, enter, test, look, down, retry, look_again,
  leave, leave_refused, push, check, raise, first, Runs, here, next,
}
use tddb68_collab.Base.Copies.{copies, copies-append}
use tddb68_collab.Wait.Search.{remove_child-copies}
use tddb68_collab.Wait.Invariant.{awaits, creates, is_listed, is_born, Inv, Step-Inv, Runs-Inv}

abbrev passes : Parent → Option ℕ
passes (passed t v) = some t
passes _ = none

-- What holds from the entry of a wait for `t` on, if the semaphore was 0 and no child was about to raise
-- it: only `t` raises it.
record Quiet (status : ℕ → ℤ) (t : ℕ) (s : System) : Type 0 where
  born : is_born (s.child t) ≡ true
  gone : copies s.children_tids t ≡ 0
  not_created : creates s.parent ≢ some t
  only : awaits s.parent ≡ some t → (u : ℕ) → s.child u ≡ raising → u ≡ t
  raised : awaits s.parent ≡ some t → 0 < s.rel.p_sema.value → is_listed (s.child t) ≡ true
  through : passes s.parent ≡ some t → is_listed (s.child t) ≡ true
  result : (v : Option ℤ) → s.parent ≡ returned t v → v ≡ some (status t)

-- A step of the parent.
parent_goes_on :
    {status : ℕ → ℤ} {t : ℕ} {s : System} (p : Parent) (rel : Relation) (tids : List ℕ)
    → Quiet status t s
    → copies tids t ≡ 0
    → creates p ≢ some t
    → (awaits p ≡ some t → awaits s.parent ≡ some t)
    → rel.p_sema.value ≤ s.rel.p_sema.value
    → (passes p ≡ some t → is_listed (s.child t) ≡ true)
    → ((v : Option ℤ) → p ≡ returned t v → v ≡ some (status t))
    → Quiet status t (record s { parent = p; rel = rel; children_tids = tids })
parent_goes_on {status} {t} {s} p rel tids q gone not_created same value through result = record {
  born = q.born;
  gone = gone;
  not_created = not_created;
  only = λ e. q.only (same e);
  raised = λ e positive. q.raised (same e) (omega (arith, value));
  through = through;
  result = result;
}

unblock-awaits : (wakes : Option ℕ) (p : Parent) → awaits (unblock wakes p) ≡ awaits p
unfolding unblock
unblock-awaits wakes p = ground arith

Step-Quiet :
    {self : ℕ} {status : ℕ → ℤ} {t : ℕ} {s s' : System}
    → Step self status s s'
    → Inv self status s
    → Quiet status t s
    → Quiet status t s'
unfolding after_test after_search after_down after_check unblock sema_up sema_down
Step-Quiet {self} {status} {t} {s} (create u at fresh) v q = record {
  born = ground (arith, q.born);
  gone = q.gone;
  not_created = λ e. ground (arith, q.born);
  only = λ e. absurd (ground arith);
  raised = λ e. absurd (ground arith);
  through = λ e. absurd (ground arith);
  result = λ w e. absurd (ground arith);
}
Step-Quiet {self} {status} {t} {s} (load_failed u at) v q =
    parent_goes_on outside s.rel s.children_tids q q.gone (λ e. ground arith)
      (λ e. absurd (ground arith)) (omega arith) (λ e. absurd (ground arith))
      (λ w e. absurd (ground arith))
Step-Quiet {self} {status} {t} {s} (loaded u at) v q =
    parent_goes_on outside s.rel (s.children_tids ++ (u ∷ [])) q
      (ground (arith, q.gone, q.not_created, copies-append s.children_tids u t)) (λ e. ground arith)
      (λ e. absurd (ground arith)) (omega arith) (λ e. absurd (ground arith))
      (λ w e. absurd (ground arith))
Step-Quiet {self} {status} {t} {s} (refuse u at missing) v q =
    parent_goes_on (refused u) s.rel s.children_tids q q.gone (λ e. ground arith)
      (λ e. absurd (ground arith)) (omega arith) (λ e. absurd (ground arith))
      (λ w e. absurd (ground arith))
Step-Quiet {self} {status} {t} {s} (enter u rest at there) v q =
    parent_goes_on (awaiting u) (record s.rel { awaited_tid = u }) rest q
      (ground (arith, q.gone, remove_child-copies s.children_tids u there t)) (λ e. ground arith)
      (λ e. absurd (ground (arith, q.gone, remove_child-copies s.children_tids u there t)))
      (omega arith) (λ e. absurd (ground arith)) (λ w e. absurd (ground arith))
Step-Quiet {self} {status} {t} {s} (test u at) v q =
    parent_goes_on (after_test u s.rel.return_list) s.rel s.children_tids q q.gone
      (λ e. ground arith) (λ e. ground arith) (omega arith) (λ e. absurd (ground arith))
      (λ w e. absurd (ground arith))
Step-Quiet {self} {status} {t} {s} (look u at) v q =
    parent_goes_on (after_search u (search s.rel.return_list u none)) s.rel s.children_tids q q.gone
      (λ e. ground arith) (λ e. ground arith) (omega arith) (λ e. absurd (ground arith))
      (λ w e. ground (arith, v.found t none, v.absent t none))
Step-Quiet {self} {status} {t} {s} (down u w sema through at e) v q =
    parent_goes_on (after_down u w through) (record s.rel { p_sema = sema }) s.children_tids q
      q.gone (λ e'. ground arith) (λ e'. ground arith) (ground arith)
      (λ e'. ground (arith, q.raised)) (λ x e'. absurd (ground arith))
Step-Quiet {self} {status} {t} {s} (retry u w sema through at e) v q =
    parent_goes_on (after_down u w through) (record s.rel { p_sema = sema }) s.children_tids q
      q.gone (λ e'. ground arith) (λ e'. ground arith) (ground arith)
      (λ e'. ground (arith, q.raised)) (λ x e'. absurd (ground arith))
Step-Quiet {self} {status} {t} {s} (look_again u w at) v q =
    parent_goes_on (returned u (search s.rel.return_list u w).1) s.rel s.children_tids q q.gone
      (λ e. ground arith) (λ e. ground arith) (omega arith) (λ e. absurd (ground arith))
      (λ x e. ground (arith, q.through, v.found t w))
Step-Quiet {self} {status} {t} {s} (leave u w at) v q =
    parent_goes_on outside s.rel s.children_tids q q.gone (λ e. ground arith)
      (λ e. absurd (ground arith)) (omega arith) (λ e. absurd (ground arith))
      (λ x e. absurd (ground arith))
Step-Quiet {self} {status} {t} {s} (leave_refused u at) v q =
    parent_goes_on outside s.rel s.children_tids q q.gone (λ e. ground arith)
      (λ e. absurd (ground arith)) (omega arith) (λ e. absurd (ground arith))
      (λ x e. absurd (ground arith))
Step-Quiet {self} {status} {t} {s} (push u at) v q = record {
  born = ground (arith, q.born);
  gone = q.gone;
  not_created = q.not_created;
  only = λ e x r. ground (arith, q.only e x);
  raised = λ e positive. ground (arith, q.raised e positive);
  through = λ e. ground (arith, q.through e);
  result = q.result;
}
Step-Quiet {self} {status} {t} {s} (check u at) v q = record {
  born = ground (arith, q.born);
  gone = q.gone;
  not_created = q.not_created;
  only = λ e x r. ground (arith, q.only e x, v.awaited t e);
  raised = λ e positive. ground (arith, q.raised e positive);
  through = λ e. ground (arith, q.through e);
  result = q.result;
}
Step-Quiet {self} {status} {t} {s} (raise u sema wakes at e) v q = record {
  born = ground (arith, q.born);
  gone = q.gone;
  not_created = λ e'. ground (arith, q.not_created);
  only = λ e' x r. ground (arith, q.only (sym (unblock-awaits wakes s.parent) ∙ e') x);
  raised = λ e' positive. ground (arith, q.only (sym (unblock-awaits wakes s.parent) ∙ e') u at);
  through = λ e'. ground (arith, q.through);
  result = λ x e'. q.result x (ground arith);
}

-- The rest of a run, from a quiet wait on.
Runs-Quiet :
    {self : ℕ} {status : ℕ → ℤ} {t : ℕ} {s s' : System}
    → Runs self status s s'
    → Inv self status s
    → Quiet status t s
    → Inv self status s' × Quiet status t s'
Runs-Quiet here v q = (v, q)
Runs-Quiet (next r step) v q =
    let (v', q') = Runs-Quiet r v q in (Step-Inv step v', Step-Quiet step v' q')

-- If the semaphore is 0 and no child is about to raise it when the parent enters `process_wait` for a child,
-- then, however parent and children run, `process_wait` returns that child's exit status.
pub wait-status :
    {self : ℕ} {status : ℕ → ℤ} (junk : ℕ) {t : ℕ} {s s' : System} {rest : List ℕ} {v : Option ℤ}
    → Runs self status (first junk) s
    → s.rel.p_sema.value ≡ 0
    → ((u : ℕ) → s.child u ≢ raising)
    → s.parent ≡ outside
    → remove_child s.children_tids t ≡ some rest
    → Runs self status
        (record s {
          rel = record s.rel { awaited_tid = t };
          children_tids = rest;
          parent = awaiting t;
        })
        s'
    → s'.parent ≡ returned t v
    → v ≡ some (status t)
wait-status {self} {status} junk {t} {s} {s'} {rest} {v} before zero none_raising at there after
      returns =
    let w = Runs-Inv junk before in
    let entered : Quiet status t (record s {
      rel = record s.rel { awaited_tid = t };
      children_tids = rest;
      parent = awaiting t;
    }) =
      record {
        born = ground (arith, w.born t, remove_child-copies s.children_tids t there t);
        gone = ground (arith, w.once t, remove_child-copies s.children_tids t there t);
        not_created = λ e. ground arith;
        only = λ e u r. absurd (none_raising u r);
        raised = λ e positive. absurd (omega (arith, zero));
        through = λ e. absurd (ground arith);
        result = λ x e. absurd (ground arith);
      } in
    let (_, q) = Runs-Quiet after (Step-Inv (enter t rest at there) w) entered in q.result v returns
