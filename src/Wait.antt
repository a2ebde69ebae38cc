-- ===== src/Wait.antt =====
-- Waiting for a child and the end of a child: `process_wait`, `process_exit` and the end of
-- `process_execute` in linuxpintos/src/userprog/process.c, on the `struct thread_relation` that a parent shares with
-- its children. Its field `parent_alive` is true from the start and no code changes it.
pub mod System
pub mod Search
pub mod Invariant
pub mod Status
pub mod Progress
pub mod Users
mod Tests
use tddb68_collab.Base.{
  ℕ, ◌+◌, Bool, true, false, Option, none, some, List, [], ◌∷◌, ◌++◌, ◌==◌, if◌then◌else◌,
}
use tddb68_collab.Base.Int.{ℤ}
use tddb68_collab.Synch.{Semaphore, sema_down, sema_up}

-- `struct child_return`. Thread ids are handed out from 1 on.
pub record ChildReturn : Type 0 where
  pub tid : ℕ
  pub returned_val : ℤ

-- `struct thread_relation`, without the counter of its users.
pub record Relation : Type 0 where
  pub p_sema : Semaphore
  pub awaited_tid : ℕ
  pub return_list : List ChildReturn

-- The search through `returned_children`: `child_returned`, and the value that `returned_child` points
-- to, `none` where the pointer was never set. It is left at the last entry where none fits.
pub search : List ChildReturn → (child_tid : ℕ) → (returned_child : Option ℤ) → Bool × Option ℤ
search [] child_tid returned_child = (false, returned_child)
search (r ∷ rs) child_tid returned_child =
    let rest = search rs child_tid (some r.returned_val) in
    if r.tid == child_tid then (true, some r.returned_val) else rest

abbrev keep : ℕ → Option (List ℕ) → Option (List ℕ)
keep c none = none
keep c (some cs) = some (c ∷ cs)

-- The search through `children_tids` and the removal of what it found; `none` where it found nothing.
pub remove_child : List ℕ → (child_tid : ℕ) → Option (List ℕ)
remove_child [] child_tid = none
remove_child (c ∷ cs) child_tid =
    let rest = remove_child cs child_tid in if c == child_tid then some cs else keep c rest

-- `list_empty`
abbrev pub list_empty : List ChildReturn → Bool
list_empty [] = true
list_empty (r ∷ rs) = false

-- Where a child is: not created, before `process_exit`, between `list_push_back` and the test of
-- `awaited_tid`, between this test and `sema_up`, or after it.
pub data Child : Type 0 where
  unborn running entered raising done : Child

-- Where the parent is: outside of the functions, in `process_execute` after `thread_create`, or in
-- `process_wait`: before the test of `list_empty`, before the first search, before `sema_down`, blocked in
-- it, unblocked but not running yet, before the second search, or about to return, which is `refused` for
-- the early return of -1. The option is what `returned_child` points to.
pub data Parent : Type 0 where
  outside : Parent
  creating : (tid : ℕ) → Parent
  awaiting : (tid : ℕ) → Parent
  searching : (tid : ℕ) → Parent
  downing : (tid : ℕ) → Option ℤ → Parent
  blocked : (tid : ℕ) → Option ℤ → Parent
  woken : (tid : ℕ) → Option ℤ → Parent
  passed : (tid : ℕ) → Option ℤ → Parent
  returned : (tid : ℕ) → Option ℤ → Parent
  refused : (tid : ℕ) → Parent

-- After the test of `list_empty`.
pub after_test : (child_tid : ℕ) → List ChildReturn → Parent
after_test t return_list = if list_empty return_list then downing t none else searching t

-- After the first search.
pub after_search : (child_tid : ℕ) → Bool × Option ℤ → Parent
after_search t (child_returned, v) = if child_returned then returned t v else downing t v

-- After a round of the loop of `sema_down`.
pub after_down : (child_tid : ℕ) → Option ℤ → (through : Bool) → Parent
after_down t v through = if through then passed t v else blocked t v

-- `thread_unblock` of the thread that `sema_up` took off its queue.
pub unblock : Option ℕ → Parent → Parent
unblock (some i) (blocked t v) = woken t v
unblock _ p = p

-- The test of `awaited_tid` in `process_exit`.
pub after_check : (tid awaited_tid : ℕ) → Child
after_check t awaited = if t == awaited then raising else done
