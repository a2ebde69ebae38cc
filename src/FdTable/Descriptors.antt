-- ===== src/FdTable/Descriptors.antt =====
-- Opening, using and closing a descriptor: linuxpintos/src/threads/thread.c, while the table has room.
use tddb68_collab.Base.{
  ℕ, zero, suc, ◌+◌, ◌-◌, ◌<◌, ◌≡◌, ◌≢◌, refl, ◌⊎◌, inl, inr, Option, none, some, List, length,
  get_or, set, arith, length-set, get_or-set_self, get_or-set_ne, Bool-cases, ap, ◌∙◌, subst,
}
use tddb68_collab.Base.Int.{ℤ, pos, negsuc, ltb_ℤ}
use tddb68_collab.FdTable.{
  File, FdTable, len_file_list, Outcome, returns, out_of_bounds, next_free, finish, place,
  add_file_to_fd, get_file_from_fd,
}

-- The slot that the next file goes to is in the table and empty, or there is none.
abbrev pub IsAvailable : List (Option File) → ℤ → Type 0
IsAvailable tracker (negsuc n) = Unit {0}
IsAvailable tracker (pos k) = (k < len_file_list) × (get_or tracker k none ≡ none)

pub record IsValid (t : FdTable) : Type 0 where
  pub size : length t.file_tracker ≡ len_file_list
  pub available : IsAvailable t.file_tracker t.tracker_avail_ind

-- The loop stops at an empty slot above its start, or gives up.
next_free-IsAvailable :
    (tracker : List (Option File)) (left i j : ℕ)
    → left + i ≡ len_file_list
    → next_free tracker left i ≡ returns (some j)
    → (j < len_file_list) × (get_or tracker j none ≡ none)
unfolding next_free
next_free-IsAvailable tracker zero i j e h = cc
next_free-IsAvailable tracker (suc left) i j e h =
    ground (arith, next_free-IsAvailable tracker left (i + 1) j)

-- What a call that opened a file has done: it stored the file at the available slot, whatever it
-- returns.
record Added (t : FdTable) (f : File) (fd : ℤ) (t' : FdTable) : Type 0 where
  index : ℕ
  was_available : t.tracker_avail_ind ≡ pos index
  stored : t'.file_tracker ≡ set t.file_tracker index (some f)
  next : IsAvailable t'.file_tracker t'.tracker_avail_ind
  result : (fd ≡ pos (index + 2)) ⊎ (fd ≡ negsuc 0)

finish-Added :
    (t : FdTable) (k : ℕ) (f : File) (o : Outcome (Option ℕ)) (fd : ℤ) (t' : FdTable)
    → next_free (set t.file_tracker k (some f)) (len_file_list - (k + 1)) (k + 1) ≡ o
    → t.tracker_avail_ind ≡ pos k
    → k < len_file_list
    → finish (set t.file_tracker k (some f)) k o ≡ returns (fd, t')
    → Added t f fd t'
unfolding finish
finish-Added t k f out_of_bounds fd t' e a lt h = cc
finish-Added t k f (returns none) fd t' e a lt h = record {
  index = k;
  was_available = a;
  stored = ground arith;
  next = ground arith;
  result = ground arith;
}
finish-Added t k f (returns (some j)) fd t' e a lt h = record {
  index = k;
  was_available = a;
  stored = ground arith;
  next = ground (
    arith,
    next_free-IsAvailable (set t.file_tracker k (some f)) (len_file_list - (k + 1)) (k + 1) j,
  );
  result = ground arith;
}

-- Opening either leaves the table alone and fails, or has stored the file.
add-Added :
    (t : FdTable) (ind : ℤ) (f : File) (fd : ℤ) (t' : FdTable)
    → t.tracker_avail_ind ≡ ind
    → IsValid t
    → place t ind f ≡ returns (fd, t')
    → ((fd ≡ negsuc 0) × (t' ≡ t)) ⊎ Added t f fd t'
unfolding place
add-Added t (negsuc n) f fd t' a v h = inl (ground arith, ground arith)
add-Added t (pos k) f fd t' a v h =
    inr (finish-Added t k f _ fd t' refl a (ground arith) (ground arith))

add-cases :
    {t t' : FdTable} (f : File) {fd : ℤ}
    → IsValid t
    → add_file_to_fd t (some f) ≡ returns (fd, t')
    → ((fd ≡ negsuc 0) × (t' ≡ t)) ⊎ Added t f fd t'
unfolding add_file_to_fd
add-cases {t} {t'} f {fd} v h = elim (Bool-cases (ltb_ℤ t.tracker_avail_ind (pos 0))) [
  | inl none_left ↦ inl (ground arith, ground arith)
  | inr some_left ↦ add-Added t t.tracker_avail_ind f fd t' refl v (rw some_left at h)
]

-- Opening a file keeps the table valid, whether it succeeds or fails.
pub add-IsValid :
    {t t' : FdTable} (opened : Option File) {fd : ℤ}
    → IsValid t
    → add_file_to_fd t opened ≡ returns (fd, t')
    → IsValid t'
add-IsValid none v h = unfold add_file_to_fd in ground arith
add-IsValid {t} {t'} (some f) {fd} v h = elim (add-cases f v h) [
  | inl (_, same) ↦ rw same v
  | inr a ↦ record {
    size = omega (arith, ap length a.stored, length-set t.file_tracker a.index (some f), v.size);
    available = a.next;
  }
]

pub get_in_range :
    (t : FdTable) (i : ℕ)
    → i < len_file_list
    → get_file_from_fd t (pos (i + 2)) ≡ returns (get_or t.file_tracker i none)
unfolding get_file_from_fd
get_in_range t i h = ground arith

-- A store into one slot is seen through its own descriptor only.
pub get-set_ne :
    (t t' : FdTable) (k : ℕ) (v : Option File)
    → t'.file_tracker ≡ set t.file_tracker k v
    → (fd : ℤ) → fd ≢ pos (k + 2)
    → get_file_from_fd t' fd ≡ get_file_from_fd t fd
unfolding get_file_from_fd
get-set_ne t t' k v e (pos m) ne = ground (arith, get_or-set_ne t.file_tracker k (m - 2) v none)
get-set_ne t t' k v e (negsuc m) ne = ground arith

-- When opening a file on a valid table returns a descriptor, that descriptor was free, now stands for
-- the file, and every other descriptor reads as before.
pub get-add :
    {t t' : FdTable} {f : File} {n : ℕ} (other : ℤ)
    → IsValid t
    → add_file_to_fd t (some f) ≡ returns (pos n, t')
    → other ≢ pos n
    → (get_file_from_fd t (pos n) ≡ returns none)
      × (get_file_from_fd t' (pos n) ≡ returns (some f))
      × (get_file_from_fd t' other ≡ get_file_from_fd t other)
get-add {t} {t'} {f} {n} other v h ne = elim (add-cases f v h) [
  | inl (failed, _) ↦ cc
  | inr a ↦ Added-get a
]
  where
    Added-get :
        Added t f (pos n) t'
        → (get_file_from_fd t (pos n) ≡ returns none)
          × (get_file_from_fd t' (pos n) ≡ returns (some f))
          × (get_file_from_fd t' other ≡ get_file_from_fd t other)
    Added-get a =
        let k : ℕ = a.index in
        let e : pos n ≡ pos (k + 2) = ground arith in
        let room : (k < len_file_list) × (get_or t.file_tracker k none ≡ none) =
          subst (IsAvailable t.file_tracker) a.was_available v.available in
        rw e (
          get_in_range t k room.0 ∙ ap returns room.1,
          get_in_range t' k room.0
              ∙ ap returns (
                  ap (λ l. get_or l k none) a.stored
                  ∙ get_or-set_self t.file_tracker k (some f) none (omega (arith, v.size, room.0))),
          get-set_ne t t' k (some f) a.stored other (ground arith),
        )
