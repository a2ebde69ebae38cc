-- ===== src/BinarySearch.antt =====
-- `binary_search` of linuxpintos/src/lib/stdlib.c. All pointers of it are at multiples of the elements' size from the start of the
-- array, so that they are given by the index of the element; `compare i` is the result of `compare` for
-- the key and the element at index `i`.
pub mod Found
mod Tests
use tddb68_collab.Base.{ℕ, zero, suc, ◌+◌, ◌-◌, ◌/◌, Option, none, some, ltb, if◌then◌else◌}
use tddb68_collab.Base.Int.{ℤ, pos, ltb_ℤ}

-- The loop for at most `fuel` rounds; the outer `none` says that there are more.
pub search_between : (compare : ℕ → ℤ) → (fuel first last : ℕ) → Option (Option ℕ)
search_between compare zero first last = if ltb first last then none else some none
search_between compare (suc fuel) first last =
    let range = last - first in
    let middle = first + range / 2 in
    let below = search_between compare fuel first middle in
    let above = search_between compare fuel (middle + 1) last in
    if ltb first last
    then (if ltb_ℤ (compare middle) (pos 0)
        then below
        else if ltb_ℤ (pos 0) (compare middle)
        then above
        else some (some middle))
    else some none

-- Every round takes an element off the range, so that `cnt` rounds are enough.
pub binary_search : (compare : ℕ → ℤ) → (cnt : ℕ) → Option (Option ℕ)
binary_search compare cnt = search_between compare cnt 0 cnt
