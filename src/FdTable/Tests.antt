-- ===== src/FdTable/Tests.antt =====
-- Tests of the descriptor table and the theorems about it at concrete tables:
-- linuxpintos/src/threads/thread.c.
use tddb68_collab.Base.{
  ◌≡◌, ◌↔◌, refl, true, none, some, set, arith, replicate, get_or-replicate, get_or-set_ne, sym,
  ◌∙◌,
}
use tddb68_collab.Base.Int.{pos, negsuc}
use tddb68_collab.FdTable.{
  FdTable, returns, out_of_bounds, add_file_to_fd, get_file_from_fd, close_file_from_fd,
}
use tddb68_collab.FdTable.Descriptors.{IsValid, get-add}
use tddb68_collab.FdTable.Full.{IsFullFrom, add-out_of_bounds_iff, add-full}

-- A thread that has opened nothing.
abbrev fresh : FdTable
fresh = record { tracker_avail_ind = pos 0; file_tracker = replicate 130 none }

abbrev with_one : FdTable
with_one = record { tracker_avail_ind = pos 1; file_tracker = set (replicate 130 none) 0 (some 7) }

-- Slot 4 was closed last; every other slot holds file 9.
abbrev nearly_full : FdTable
nearly_full = record {
  tracker_avail_ind = pos 4;
  file_tracker = set (replicate 130 (some 9)) 4 none;
}

-- Only the last slot is left.
abbrev last_slot : FdTable
last_slot = record {
  tracker_avail_ind = pos 129;
  file_tracker = set (replicate 130 (some 9)) 129 none;
}

fresh-IsValid : IsValid fresh
fresh-IsValid = record { size = refl; available = (omega arith, refl) }

with_one-IsValid : IsValid with_one
with_one-IsValid = record { size = refl; available = (omega arith, refl) }

last_slot-IsValid : IsValid last_slot
last_slot-IsValid = record { size = refl; available = (omega arith, refl) }

add-fresh : add_file_to_fd fresh (some 7) ≡ returns (pos 2, with_one)
unfolding add_file_to_fd
add-fresh = refl

close-with_one :
    close_file_from_fd with_one (pos 2)
    ≡ returns (
      true,
      some 7,
      record with_one {
        tracker_avail_ind = pos 0;
        file_tracker = set with_one.file_tracker 0 none;
      },
    )
unfolding close_file_from_fd
close-with_one = refl

get-add_example :
    (get_file_from_fd fresh (pos 2) ≡ returns none)
    × (get_file_from_fd with_one (pos 2) ≡ returns (some 7))
    × (get_file_from_fd with_one (pos 3) ≡ get_file_from_fd fresh (pos 3))
get-add_example = get-add (pos 3) fresh-IsValid add-fresh (λ e. ground arith)

-- `with_one` after descriptor 2 is closed.
abbrev closed_one : FdTable
closed_one = record with_one {
  tracker_avail_ind = pos 0;
  file_tracker = set with_one.file_tracker 0 none;
}

add-out_of_bounds_iff_example :
    (add_file_to_fd last_slot (some 7) ≡ out_of_bounds) ↔ (pos 129 ≡ pos 129)
add-out_of_bounds_iff_example = add-out_of_bounds_iff 7 last_slot-IsValid

nearly_full-IsFullFrom : IsFullFrom nearly_full.file_tracker 5
nearly_full-IsFullFrom j le lt h = cc (
    sym h
    ∙ get_or-set_ne (replicate 130 (some 9)) 4 j none none (omega arith)
    ∙ get_or-replicate 130 j (some 9) none lt)

add-full_example :
    add_file_to_fd nearly_full (some 7)
    ≡ returns (
      negsuc 0,
      record {
        tracker_avail_ind = negsuc 0;
        file_tracker = set nearly_full.file_tracker 4 (some 7);
      },
    )
add-full_example = add-full nearly_full 7 4 refl (omega arith) nearly_full-IsFullFrom
