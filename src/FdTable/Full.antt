-- ===== src/FdTable/Full.antt =====
-- Where the descriptor table of linuxpintos/src/threads/thread.c goes wrong: at its ends.
use tddb68_collab.Base.{
  ℕ, zero, suc, ◌+◌, ◌-◌, ◌≤◌, ◌<◌, ◌≡◌, ◌≢◌, ◌↔◌, refl, ◌⊎◌, true, Option, none, some, List,
  get_or, set, arith, lt→ltb, get_or-set_ne, ap, ◌∙◌, subst, sym,
}
use tddb68_collab.Base.Int.{ℤ, pos, negsuc, ltb_ℤ}
use native.Mathlib.Decide.{dec_lt}
use tddb68_collab.FdTable.{
  File, FdTable, len_file_list, Outcome, returns, out_of_bounds, next_free, finish, place,
  add_file_to_fd, get_file_from_fd,
}
use tddb68_collab.FdTable.Descriptors.{IsAvailable, IsValid}

-- Every slot from `i` on holds a file.
abbrev pub IsFullFrom : List (Option File) → ℕ → Type 0
IsFullFrom tracker i = (j : ℕ) → i ≤ j → j < len_file_list → get_or tracker j none ≢ none

next_free-full :
    (tracker : List (Option File)) (left i : ℕ)
    → suc left + i ≡ len_file_list
    → IsFullFrom tracker i
    → next_free tracker (suc left) i ≡ returns none
unfolding next_free
next_free-full tracker zero i e full = ground (arith, full i)
next_free-full tracker (suc left) i e full = ground (
  arith,
  full i,
  next_free-full tracker left (i + 1) (omega arith) (λ j le. full j (omega arith)),
)

-- With a slot left to look at, the loop stays inside the array.
next_free-in_bounds :
    (tracker : List (Option File)) (left i : ℕ)
    → suc left + i ≡ len_file_list
    → next_free tracker (suc left) i ≢ out_of_bounds
unfolding next_free
next_free-in_bounds tracker zero i e = ground arith
next_free-in_bounds tracker (suc left) i e =
    ground (arith, next_free-in_bounds tracker left (i + 1))

finish-in_bounds :
    (placed : List (Option File)) (k : ℕ) (o : Outcome (Option ℕ))
    → finish placed k o ≡ out_of_bounds
    → o ≡ out_of_bounds
unfolding finish
finish-in_bounds placed k out_of_bounds h = refl
finish-in_bounds placed k (returns none) h = cc
finish-in_bounds placed k (returns (some i)) h = cc

-- The store into slot `k` is followed by a read past the array just in case `k` is the last slot.
place-out_of_bounds :
    (t : FdTable) (f : File) (k : ℕ)
    → k < len_file_list
    → (place t (pos k) f ≡ out_of_bounds) ↔ (k ≡ len_file_list - 1)
unfolding place
place-out_of_bounds t f k lt = (
  λ h. elim (dec_lt k (len_file_list - 1)) [
    | yes below ↦ absurd (
        next_free-in_bounds (stored k) (len_file_list - (k + 2)) (k + 1) (omega arith)
          (finish-in_bounds (stored k) k _ (shape k below (rw (lt→ltb k len_file_list lt) at h))))
    | no above ↦ omega arith
  ],
  λ e. rw e refl,
)
  where
    stored : ℕ → List (Option File)
    stored k = set t.file_tracker k (some f)

    shape :
        (k : ℕ)
        → k < len_file_list - 1
        → finish (stored k) k (next_free (stored k) (len_file_list - (k + 1)) (k + 1))
          ≡ out_of_bounds
        → finish (stored k) k (next_free (stored k) (suc (len_file_list - (k + 2))) (k + 1))
          ≡ out_of_bounds
    shape k below h =
        let e : suc (len_file_list - (k + 2)) ≡ len_file_list - (k + 1) = omega arith in rw e h

add_of_available :
    (t : FdTable) (f : File) (k : ℕ)
    → t.tracker_avail_ind ≡ pos k
    → add_file_to_fd t (some f) ≡ place t (pos k) f
unfolding add_file_to_fd
add_of_available t f k e = ground arith

-- On a valid table, opening a file that exists reads `file_tracker` past its end if and only if the
-- last slot is the next to be used.
pub add-out_of_bounds_iff :
    {t : FdTable} (f : File)
    → IsValid t
    → (add_file_to_fd t (some f) ≡ out_of_bounds) ↔ (t.tracker_avail_ind ≡ pos (len_file_list - 1))
add-out_of_bounds_iff {t} f v = go t.tracker_avail_ind refl
  where
    go :
        (ind : ℤ)
        → t.tracker_avail_ind ≡ ind
        → (add_file_to_fd t (some f) ≡ out_of_bounds)
          ↔ (t.tracker_avail_ind ≡ pos (len_file_list - 1))
    go (negsuc n) e =
        (λ h. absurd (unfold add_file_to_fd in ground arith), λ h. absurd (ground arith))
    go (pos k) e =
        let lt : k < len_file_list = (subst (IsAvailable t.file_tracker) e v.available).0 in
        let iff = place-out_of_bounds t f k lt in
        (
          λ h. e ∙ ap pos (iff.0 (sym (add_of_available t f k e) ∙ h)),
          λ h. add_of_available t f k e ∙ iff.1 (ground arith),
        )

-- When the next slot is not the last one and every slot above it is in use, opening a file that
-- exists returns -1, although the file stays in the table, and no slot is available any more.
pub add-full :
    (t : FdTable) (f : File) (k : ℕ)
    → t.tracker_avail_ind ≡ pos k
    → k < len_file_list - 1
    → IsFullFrom t.file_tracker (k + 1)
    → add_file_to_fd t (some f)
      ≡ returns (
        negsuc 0,
        record { tracker_avail_ind = negsuc 0; file_tracker = set t.file_tracker k (some f) },
      )
unfolding place
add-full t f k e lt full =
    add_of_available t f k e
    ∙ rw (lt→ltb k len_file_list (omega arith)) (ap (finish stored k) (stops))
  where
    stored : List (Option File)
    stored = set t.file_tracker k (some f)

    still_full : IsFullFrom stored (k + 1)
    still_full j le below h =
        full j le below (sym (get_or-set_ne t.file_tracker k j (some f) none (omega arith)) ∙ h)

    stops : next_free stored (len_file_list - (k + 1)) (k + 1) ≡ returns none
    stops =
        let e : len_file_list - (k + 1) ≡ suc (len_file_list - (k + 2)) = omega arith in
        rw e (next_free-full stored (len_file_list - (k + 2)) (k + 1) (omega arith) still_full)

-- Reading through a descriptor leaves the array if and only if the descriptor is below 2 (negative
-- ones included) or is 132, which the bound lets through.
pub get-out_of_bounds_iff :
    (t : FdTable) (fd : ℤ)
    → (get_file_from_fd t fd ≡ out_of_bounds) ↔ ((ltb_ℤ fd (pos 2) ≡ true) ⊎ (fd ≡ pos 132))
unfolding get_file_from_fd
get-out_of_bounds_iff t (pos n) = (λ h. ground arith, λ h. ground arith)
get-out_of_bounds_iff t (negsuc n) = (λ h. ground arith, λ h. ground arith)
