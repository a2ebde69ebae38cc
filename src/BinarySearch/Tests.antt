-- ===== src/BinarySearch/Tests.antt =====
-- Searches of the array 10, 20, 30: linuxpintos/src/lib/stdlib.c.
use tddb68_collab.Base.{ℕ, ◌+◌, ◌*◌, ◌≡◌, refl, none, some, arith}
use tddb68_collab.Base.Int.{ℤ, sub_ℕ}
use tddb68_collab.BinarySearch.{binary_search, search_between}
use tddb68_collab.BinarySearch.Found.{IsOrdered}

-- The key less the element.
abbrev compare_to : (key : ℕ) → ℕ → ℤ
compare_to key i = sub_ℕ key (10 * i + 10)

ordered : (key : ℕ) → IsOrdered (compare_to key) 3
ordered key = record {
  after_less = λ i j le less h. ground arith;
  before_greater = λ i j le less h. ground arith;
}

search_run :
    (binary_search (compare_to 30) 3 ≡ some (some 2))
    × (binary_search (compare_to 25) 3 ≡ some none)
unfolding binary_search search_between
search_run = (refl, refl)
