-- ===== src/Wait/Tests.antt =====
-- Runs of a parent with children 3 and 4: linuxpintos/src/userprog/process.c.
use tddb68_collab.Base.{ℕ, ◌≡◌, ◌≢◌, refl, true, false, Option, none, some, [], ◌∷◌, arith}
use tddb68_collab.Base.Copies.{copies}
use tddb68_collab.Base.Int.{ℤ, pos}
use tddb68_collab.Synch.{sema_init, sema_down, sema_up}
use tddb68_collab.Wait.{
  search, remove_child, Child, running, done, awaiting, blocked, returned, after_test, after_search,
  after_down, unblock, after_check,
}
use tddb68_collab.Wait.System.{
  System, become, create, loaded, enter, test, look, down, look_again, leave, push, check, raise,
  first, Runs, here, next,
}
use tddb68_collab.Wait.Status.{wait-status}
use tddb68_collab.Wait.Users.{
  Shared, new_relation, load_count, count_child, load_drop, leave_relation, loads, stores, drops,
  leaves, Reach, created, touched, no_use_after_free,
}
use tddb68_collab.Wait.Progress.{CanReturn, no_lost_child}

-- Child t ends with status t.
abbrev exits : ℕ → ℤ
exits t = pos t

abbrev family : System
family = record (first 0) {
  children_tids = 3 ∷ 4 ∷ [];
  child = become (become (λ t. Child.unborn) 3 running) 4 running;
}

family-Runs : Runs 1 exits (first 0) family
unfolding first
family-Runs =
    next (next (next (next here (create 3 refl refl)) (loaded 3 refl)) (create 4 refl refl))
      (loaded 4 refl)

-- The parent is blocked in `process_wait` for child 4.
abbrev asleep : System
asleep = record family {
  rel = record {
    p_sema = record { value = 0; waiters = 1 ∷ [] };
    awaited_tid = 4;
    return_list = [];
  };
  children_tids = 3 ∷ [];
  parent = blocked 4 none;
}

asleep-Runs : Runs 1 exits (first 0) asleep
unfolding first sema_init sema_down remove_child after_test after_down
asleep-Runs =
    next (next (next family-Runs (enter 4 _ refl refl)) (test 4 refl)) (down 4 none _ _ refl refl)

no_lost_child_example : (asleep.child 4 ≢ done) × CanReturn 1 exits asleep 4
unfolding first
no_lost_child_example = no_lost_child 0 asleep-Runs (omega arith) refl

-- Child 4 has ended before the parent waits for it.
abbrev ended : System
ended = record family {
  rel = record family.rel { return_list = record { tid = 4; returned_val = pos 4 } ∷ [] };
  child = become family.child 4 Child.entered;
}

ended-Runs : Runs 1 exits (first 0) ended
unfolding first
ended-Runs = next family-Runs (push 4 refl)

abbrev waited : System
waited = record ended {
  rel = record ended.rel { awaited_tid = 4 };
  children_tids = 3 ∷ [];
  parent = returned 4 (some (pos 4));
}

waited-Runs :
    Runs 1 exits
      (record ended {
        rel = record ended.rel { awaited_tid = 4 };
        children_tids = 3 ∷ [];
        parent = awaiting 4;
      })
      waited
unfolding search after_test after_search
waited-Runs = next (next here (test 4 refl)) (look 4 refl)

ended_remove : remove_child ended.children_tids 4 ≡ some (3 ∷ [])
unfolding remove_child
ended_remove = refl

wait-status_example : ◌≡◌ {A = Option ℤ} (some (pos 4)) (some (exits 4))
unfolding first
wait-status_example =
    wait-status 0 ended-Runs refl (λ u e. ground arith) refl ended_remove waited-Runs refl

-- The parent finds child 3 in the list before that tests `awaited_tid`; so child 3 raises the semaphore for
-- nobody, the wait for child 4 passes it at once, and returns the status of child 3.
stale_wakeup :
    (s : System) × Runs 1 exits (first 0) s
    × (s.parent ≡ returned 4 (some (pos 3)))
    × (s.child 4 ≡ running)
unfolding first sema_init sema_up sema_down remove_child search after_test after_search after_down
    after_check unblock
stale_wakeup =
    let before = next family-Runs (push 3 refl) in
    let found = next (next (next before (enter 3 _ refl refl)) (test 3 refl)) (look 3 refl) in
    let raised = next (next found (check 3 refl)) (raise 3 _ _ refl refl) in
    let again = next (next (next raised (leave 3 _ refl)) (enter 4 _ refl refl)) (test 4 refl) in
    let through = next (next again (look 4 refl)) (down 4 _ _ _ refl refl) in
    (_, next through (look_again 4 _ refl), refl, refl)

-- Thread 1 has started child 3.
abbrev started : Shared
started = count_child (load_count (new_relation 1)) 1 3

started-Reach : Reach 1 started
unfolding new_relation load_count copies
started-Reach = touched (touched created (loads 3 (omega arith) refl)) (stores 3 1 refl)

-- It has ended; child 3 lets go last.
abbrev orphaned : Shared
orphaned = load_drop (leave_relation (load_drop started) 2 (3 ∷ []))

orphaned-Reach : Reach 1 orphaned
unfolding new_relation load_count count_child load_drop leave_relation copies
orphaned-Reach =
    touched
      (touched (touched started-Reach (drops 1 (omega arith) refl))
        (leaves (3 ∷ []) 1 [] 2 refl refl))
      (drops 3 (omega arith) refl)

no_use_after_free_example :
    (orphaned.is_freed ≡ false)
    × (((leave_relation orphaned 1 []).alive_count ≡ 0)
        × ((leave_relation orphaned 1 []).is_freed ≡ true))
unfolding leave_relation load_drop count_child load_count new_relation
no_use_after_free_example = no_use_after_free orphaned-Reach (leaves [] 3 [] 1 refl refl) refl

-- Child 3 loads the count to let go, child 4 is counted, and child 3 stores: the increment is lost. So the relation is
-- freed when child 4 lets go, although the parent uses it.
lost_update : (s : Shared) × Reach 1 s × (s.is_freed ≡ true) × (s.users ≡ 1 ∷ [])
unfolding new_relation load_count count_child load_drop leave_relation copies
lost_update =
    let counted =
      touched
        (touched (touched started-Reach (drops 3 (omega arith) refl)) (loads 4 (omega arith) refl))
        (stores 4 2 refl) in
    let lost = touched counted (leaves (4 ∷ []) 3 (1 ∷ []) 2 refl refl) in
    (
      _,
      touched (touched lost (drops 4 (omega arith) refl)) (leaves [] 4 (1 ∷ []) 1 refl refl),
      refl,
      refl,
    )
