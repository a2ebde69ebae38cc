-- ===== src/Hash.antt =====
-- Hash tables: linuxpintos/src/lib/kernel/hash.c. An element is the address of its `struct hash_elem`; a bucket is the
-- list of its elements, by what Lists proves of the linked ones. The functions `hash` and `less` of a table are
-- arguments, each with its `aux`. The argument `room` says whether `malloc` has room for an array of buckets.
pub mod Buckets
pub mod Counting
pub mod Moving
pub mod Tables
pub mod Operations
pub mod Sets
pub mod Iterating
pub mod Bytes
mod Tests
use Prim.Native.Nat.{bit_and, bit_xor}
use tddb68_collab.Base.{
  ℕ, zero, suc, ◌+◌, ◌-◌, ◌*◌, ◌/◌, ◌%◌, ◌^◌, Bool, true, false, not, ◌&&◌, Option, none, some,
  List, [], ◌∷◌, ◌++◌, ◌==◌, ltb, if◌then◌else◌, length, get_or, set, replicate,
}
use tddb68_collab.Base.Kernel.{Kernel, runs, panics, ◌>>=◌, ◌>>◌, assert}

-- `struct hash`. The array of buckets is as long as it was allocated.
pub record Hash : Type 0 where
  pub elem_cnt : ℕ
  pub bucket_cnt : ℕ
  pub buckets : List (List ℕ)

unfoldable pub turn_off_least_1bit : ℕ → ℕ
turn_off_least_1bit x = bit_and x (x - 1)

unfoldable pub is_power_of_2 : ℕ → Bool
unfolding turn_off_least_1bit
is_power_of_2 x = not (x == 0) && turn_off_least_1bit x == 0

-- The loop of `rehash` that makes the number of buckets a power of 2. Each round makes it smaller.
unfoldable pub round_down : (rounds x : ℕ) → ℕ
round_down zero x = x
round_down (suc rounds) x =
    let rest = round_down rounds (turn_off_least_1bit x) in if is_power_of_2 x then x else rest

-- The number of buckets for a number of elements.
unfoldable pub best_bucket_cnt : (elem_cnt : ℕ) → ℕ
best_bucket_cnt elem_cnt =
    let ideal = elem_cnt / 2 in
    let at_least = if ltb ideal 4 then 4 else ideal in round_down at_least at_least

-- The first element of a bucket for which the test holds.
pub first_in : List ℕ → (ℕ → Bool) → Option ℕ
first_in [] test = none
first_in (x ∷ xs) test = if test x then some x else first_in xs test

-- `list_remove` of an element of the bucket.
pub unlink : List ℕ → (e : ℕ) → List ℕ
unlink [] e = []
unlink (x ∷ xs) e = if x == e then xs else x ∷ unlink xs e

unfoldable pub hash_clear : Hash → Hash
hash_clear h = record h { buckets = replicate h.bucket_cnt []; elem_cnt = 0 }

-- What the destructor is called with, in this order.
unfoldable pub destroyed : List (List ℕ) → List ℕ
destroyed [] = []
destroyed (b ∷ bs) = b ++ destroyed bs

-- `hash_destroy`: what it calls the destructor with, if it is given one.
pub hash_destroy : Hash → (destructor : Bool) → List ℕ
unfolding destroyed
hash_destroy h destructor = if destructor then destroyed h.buckets else []

-- A table of four buckets, or none without memory for them.
unfoldable pub hash_init : (room : Bool) → Option Hash
unfolding hash_clear
hash_init room =
    if room
    then some (hash_clear (record { elem_cnt = 0; bucket_cnt = 4; buckets = replicate 4 [] }))
    else none

unfoldable pub hash_size : Hash → ℕ
hash_size h = h.elem_cnt

unfoldable pub hash_empty : Hash → Bool
hash_empty h = h.elem_cnt == 0

module _ (hash : ℕ → ℕ) where
  -- The index of the bucket, among `bucket_cnt`.
  unfoldable pub bucket_idx : (bucket_cnt e : ℕ) → ℕ
  bucket_idx bucket_cnt e = bit_and (hash e) (bucket_cnt - 1)

  -- `list_push_front` to the bucket of an element.
  unfoldable pub push_to : (bucket_cnt : ℕ) → List (List ℕ) → (e : ℕ) → List (List ℕ)
  push_to bucket_cnt bs e = let idx = bucket_idx bucket_cnt e in set bs idx (e ∷ get_or bs idx [])

  -- The inner loop of `rehash`.
  unfoldable pub move_bucket :
      (bucket_cnt : ℕ) → (old : List ℕ) → (new : List (List ℕ)) → List (List ℕ)
  move_bucket bucket_cnt [] new = new
  move_bucket bucket_cnt (e ∷ es) new = move_bucket bucket_cnt es (push_to bucket_cnt new e)

  -- The outer loop of `rehash`.
  unfoldable pub move_buckets : (bucket_cnt : ℕ) → (old new : List (List ℕ)) → List (List ℕ)
  move_buckets bucket_cnt [] new = new
  move_buckets bucket_cnt (b ∷ bs) new = move_buckets bucket_cnt bs (move_bucket bucket_cnt b new)

  unfoldable pub rehash : Hash → (room : Bool) → Hash
  rehash h room =
      let new_cnt = best_bucket_cnt h.elem_cnt in
      let moved : Hash = record {
        elem_cnt = h.elem_cnt;
        bucket_cnt = new_cnt;
        buckets = move_buckets new_cnt h.buckets (replicate new_cnt []);
      } in
      if new_cnt == h.bucket_cnt then h else if room then moved else h

  unfoldable pub insert_elem : Hash → (e : ℕ) → Hash
  insert_elem h e = record h {
    elem_cnt = (h.elem_cnt + 1) % 2 ^ 32;
    buckets = push_to h.bucket_cnt h.buckets e;
  }

  -- The element is in the bucket that it belongs in.
  unfoldable pub remove_elem : Hash → (e : ℕ) → Hash
  remove_elem h e =
      let idx = bucket_idx h.bucket_cnt e in
      record h {
        elem_cnt = (h.elem_cnt + 2 ^ 32 - 1) % 2 ^ 32;
        buckets = set h.buckets idx (unlink (get_or h.buckets idx []) e);
      }

  module _ (less : ℕ → ℕ → Bool) where
    unfoldable pub equal : ℕ → ℕ → Bool
    equal x e = not (less x e) && not (less e x)

    -- `find_elem` in the bucket that the element belongs in.
    unfoldable pub find_elem : Hash → (e : ℕ) → Option ℕ
    find_elem h e = first_in (get_or h.buckets (bucket_idx h.bucket_cnt e) []) (λ x. equal x e)

    unfoldable pub hash_insert : Hash → (new : ℕ) → (room : Bool) → Hash × Option ℕ
    hash_insert h new room =
        let old = find_elem h new in
        let h' : Hash = elim old [ none ↦ insert_elem h new | some x ↦ h ] in (rehash h' room, old)

    unfoldable pub hash_replace : Hash → (new : ℕ) → (room : Bool) → Hash × Option ℕ
    hash_replace h new room =
        let old = find_elem h new in
        let h' : Hash = elim old [ none ↦ h | some x ↦ remove_elem h x ] in
        (rehash (insert_elem h' new) room, old)

    unfoldable pub hash_find : Hash → (e : ℕ) → Option ℕ
    hash_find h e = find_elem h e

    unfoldable pub hash_delete : Hash → (e : ℕ) → (room : Bool) → Hash × Option ℕ
    hash_delete h e room =
        let found = find_elem h e in
        let h' : Hash = elim found [ none ↦ h | some x ↦ rehash (remove_elem h x) room ] in
        (h', found)
