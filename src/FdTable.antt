-- ===== src/FdTable.antt =====
-- The file descriptors of a thread: `add_file_to_fd`, `get_file_from_fd` and `close_file_from_fd`
-- of linuxpintos/src/threads/thread.c.
pub mod Descriptors
pub mod Close
pub mod Full
mod Tests
use tddb68_collab.Base.{
  ℕ, zero, suc, ◌+◌, ◌-◌, ◌≤◌, ◌<◌, ◌≡◌, Bool, true, false, Option, none, some, List, length,
  get_or, set, ltb, if◌then◌else◌,
}
use tddb68_collab.Base.Int.{ℤ, pos, negsuc, ◌+ℤ◌, ◌-ℤ◌, ltb_ℤ}

-- A `struct file *` that is not null.
abbrev pub File : Type 0
File = ℕ

abbrev pub len_file_list : ℕ
len_file_list = 130

-- The two fields of `struct thread` that these functions use; a null pointer is `none`.
pub record FdTable : Type 0 where
  pub tracker_avail_ind : ℤ
  pub file_tracker : List (Option File)

-- A call either returns, or touches `file_tracker` outside its bounds.
pub data Outcome {ℓ} (A : Type ℓ) : Type ℓ where
  returns : A → Outcome A
  out_of_bounds : Outcome A

-- The `while` of `add_file_to_fd` from index `i` on, where `left` slots are at or above `i`: the next
-- value of `tracker_avail_ind`, or `none` where the loop gives up. With no slot left its test reads
-- past the array.
pub next_free : List (Option File) → (left i : ℕ) → Outcome (Option ℕ)
next_free tracker zero i = out_of_bounds
next_free tracker (suc left) i = elim (get_or tracker i none) [
  | none ↦ returns (some i)
  | some _ ↦
      let rest = next_free tracker left (i + 1) in
      if ltb (len_file_list - 1) (i + 1) then returns none else rest
]

-- What `add_file_to_fd` returns, by how the loop ended.
finish : (placed : List (Option File)) (k : ℕ) → Outcome (Option ℕ) → Outcome (ℤ × FdTable)
finish placed k out_of_bounds = out_of_bounds
finish placed k (returns none) =
    returns (negsuc 0, record { tracker_avail_ind = negsuc 0; file_tracker = placed })
finish placed k (returns (some i)) =
    returns (pos (k + 2), record { tracker_avail_ind = pos i; file_tracker = placed })

-- From the store into `file_tracker` on.
place : FdTable → ℤ → File → Outcome (ℤ × FdTable)
unfolding next_free finish
place t (negsuc n) f = returns (negsuc 0, t)
place t (pos k) f =
    let placed = set t.file_tracker k (some f) in
    let rest = finish placed k (next_free placed (len_file_list - (k + 1)) (k + 1)) in
    if ltb k len_file_list then rest else out_of_bounds

-- `opened` is what `filesys_open` returns for the name, if it is called.
pub add_file_to_fd : FdTable → (opened : Option File) → Outcome (ℤ × FdTable)
unfolding place
add_file_to_fd t none = returns (negsuc 0, t)
add_file_to_fd t (some f) =
    if ltb_ℤ t.tracker_avail_ind (pos 0)
    then returns (negsuc 0, t)
    else place t t.tracker_avail_ind f

-- `file_tracker[i]`
slot : List (Option File) → ℤ → Outcome (Option File)
slot tracker (negsuc n) = out_of_bounds
slot tracker (pos i) =
    if ltb i len_file_list then returns (get_or tracker i none) else out_of_bounds

-- `fd - 2` overflows for the two least `int`s only; it is taken to be the true difference.
pub get_file_from_fd : FdTable → (fd : ℤ) → Outcome (Option File)
unfolding slot
get_file_from_fd t fd =
    if ltb_ℤ (pos len_file_list) (fd -ℤ pos 2)
    then returns none
    else slot t.file_tracker (fd -ℤ pos 2)

close_slot : FdTable → ℤ → Outcome (Bool × Option File × FdTable)
close_slot t (negsuc n) = out_of_bounds
close_slot t (pos i) =
    if ltb i len_file_list
    then returns (
      true,
      get_or t.file_tracker i none,
      record { tracker_avail_ind = pos i; file_tracker = set t.file_tracker i none },
    )
    else out_of_bounds

-- Also returns the pointer that `file_close` is called with.
pub close_file_from_fd : FdTable → (fd : ℤ) → Outcome (Bool × Option File × FdTable)
unfolding close_slot
close_file_from_fd t fd =
    if ltb_ℤ (pos len_file_list) (fd -ℤ pos 2)
    then returns (false, none, t)
    else close_slot t (fd -ℤ pos 2)
