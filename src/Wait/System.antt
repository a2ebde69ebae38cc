-- ===== src/Wait/System.antt =====
-- A parent and its children in any order of their steps: linuxpintos/src/userprog/process.c. The list of
-- returns is searched and extended under `return_lock`, so that each of this is one step; the other accesses
-- to the relation are steps of their own. `self` is the parent's thread, `status` the exit status with which
-- each child ends.
use tddb68_collab.Base.{
  ℕ, suc, ◌≡◌, Bool, Option, none, some, List, [], ◌∷◌, ◌++◌, ◌==◌, if◌then◌else◌,
}
use tddb68_collab.Base.Int.{ℤ}
use tddb68_collab.Synch.{Semaphore, sema_init, sema_down, sema_up}
use tddb68_collab.Wait.{
  Relation, search, remove_child, Child, unborn, running, entered, raising, done, Parent, outside,
  creating, awaiting, searching, downing, woken, passed, returned, refused, after_test,
  after_search, after_down, unblock, after_check,
}

pub record System : Type 0 where
  pub rel : Relation
  pub children_tids : List ℕ
  pub parent : Parent
  pub child : ℕ → Child
  -- How often a child called `sema_up`.
  pub ups : ℕ

abbrev pub become : (ℕ → Child) → (t : ℕ) → Child → ℕ → Child
become child t c u = if u == t then c else child u

pub data Step (self : ℕ) (status : ℕ → ℤ) (s : System) : System → Type 0 where
  create :
      (t : ℕ)
      → s.parent ≡ outside
      → s.child t ≡ unborn
      → Step self status s (record s { parent = creating t; child = become s.child t running })
  load_failed : (t : ℕ) → s.parent ≡ creating t → Step self status s (record s { parent = outside })
  loaded :
      (t : ℕ)
      → s.parent ≡ creating t
      → Step self status s
          (record s { parent = outside; children_tids = s.children_tids ++ (t ∷ []) })
  refuse :
      (t : ℕ)
      → s.parent ≡ outside
      → remove_child s.children_tids t ≡ none
      → Step self status s (record s { parent = refused t })
  enter :
      (t : ℕ) (rest : List ℕ)
      → s.parent ≡ outside
      → remove_child s.children_tids t ≡ some rest
      → Step self status s (record s {
        rel = record s.rel { awaited_tid = t };
        children_tids = rest;
        parent = awaiting t;
      })
  test :
      (t : ℕ)
      → s.parent ≡ awaiting t
      → Step self status s (record s { parent = after_test t s.rel.return_list })
  look :
      (t : ℕ)
      → s.parent ≡ searching t
      → Step self status s (record s { parent = after_search t (search s.rel.return_list t none) })
  down :
      (t : ℕ) (v : Option ℤ) (sema : Semaphore) (through : Bool)
      → s.parent ≡ downing t v
      → sema_down s.rel.p_sema self ≡ (sema, through)
      → Step self status s
          (record s { rel = record s.rel { p_sema = sema }; parent = after_down t v through })
  retry :
      (t : ℕ) (v : Option ℤ) (sema : Semaphore) (through : Bool)
      → s.parent ≡ woken t v
      → sema_down s.rel.p_sema self ≡ (sema, through)
      → Step self status s
          (record s { rel = record s.rel { p_sema = sema }; parent = after_down t v through })
  look_again :
      (t : ℕ) (v : Option ℤ)
      → s.parent ≡ passed t v
      → Step self status s (record s { parent = returned t (search s.rel.return_list t v).1 })
  leave :
      (t : ℕ) (v : Option ℤ)
      → s.parent ≡ returned t v
      → Step self status s (record s { parent = outside })
  leave_refused :
      (t : ℕ) → s.parent ≡ refused t → Step self status s (record s { parent = outside })
  push :
      (t : ℕ)
      → s.child t ≡ running
      → Step self status s (record s {
        rel = record s.rel {
          return_list = s.rel.return_list ++ (record { tid = t; returned_val = status t } ∷ []);
        };
        child = become s.child t entered;
      })
  check :
      (t : ℕ)
      → s.child t ≡ entered
      → Step self status s (record s { child = become s.child t (after_check t s.rel.awaited_tid) })
  raise :
      (t : ℕ) (sema : Semaphore) (wakes : Option ℕ)
      → s.child t ≡ raising
      → sema_up s.rel.p_sema ≡ (sema, wakes)
      → Step self status s (record s {
        rel = record s.rel { p_sema = sema };
        parent = unblock wakes s.parent;
        child = become s.child t done;
        ups = suc s.ups;
      })

-- Before the first child: `awaited_tid` holds what `malloc` left there.
unfoldable pub first : (junk : ℕ) → System
unfolding sema_init
first junk = record {
  rel = record { p_sema = sema_init 0; awaited_tid = junk; return_list = [] };
  children_tids = [];
  parent = outside;
  child = λ t. unborn;
  ups = 0;
}

pub data Runs (self : ℕ) (status : ℕ → ℤ) (s : System) : System → Type 0 where
  here : Runs self status s s
  next : {u v : System} → Runs self status s u → Step self status u v → Runs self status s v
