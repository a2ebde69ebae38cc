-- ===== src/Hash/Iterating.antt =====
-- Iterators: `hash_first`, `hash_next`, `hash_cur` and `hash_apply` in linuxpintos/src/lib/kernel/hash.c.
use tddb68_collab.Base.{
  ℕ, zero, suc, ◌+◌, ◌-◌, ◌≤◌, ◌<◌, ◌≡◌, ◌⊎◌, inl, inr, refl, sym, ap, ◌∙◌, Option, none, some,
  List, [], ◌∷◌, ◌++◌, ltb, if◌then◌else◌, arith, Bool-cases, length, get_or, drop,
}
use tddb68_collab.Hash.{Hash, destroyed}

-- `struct hash_iterator`: the index of the bucket, the current element (null at first and at the end), and the elements
-- of the bucket behind it.
pub record HashIterator : Type 0 where
  pub bucket : ℕ
  pub elem : Option ℕ
  pub behind : List ℕ

unfoldable pub hash_first : Hash → HashIterator
hash_first h = record { bucket = 0; elem = none; behind = get_or h.buckets 0 [] }

-- The loop of `hash_next`. A round goes on to the next bucket, of those that are left.
unfoldable pub next_from : Hash → (rounds bucket : ℕ) → (behind : List ℕ) → HashIterator
next_from h rounds bucket (e ∷ es) = record { bucket = bucket; elem = some e; behind = es }
next_from h zero bucket [] = record { bucket = bucket + 1; elem = none; behind = [] }
next_from h (suc rounds) bucket [] =
    let rest = next_from h rounds (bucket + 1) (get_or h.buckets (bucket + 1) []) in
    if ltb (bucket + 1) h.bucket_cnt
    then rest
    else record { bucket = bucket + 1; elem = none; behind = [] }

unfoldable pub hash_next : Hash → HashIterator → HashIterator
hash_next h i = next_from h (h.bucket_cnt - i.bucket) i.bucket i.behind

unfoldable pub hash_cur : HashIterator → Option ℕ
hash_cur i = i.elem

-- What `hash_apply` calls its action with, in this order.
unfoldable pub hash_apply : Hash → List ℕ
unfolding destroyed
hash_apply h = destroyed h.buckets

-- `while (hash_next (&i)) ...`: the elements that `hash_cur` gives, up to a number of rounds.
unfoldable pub visited : Hash → (rounds : ℕ) → HashIterator → List ℕ
visited h zero i = []
visited h (suc rounds) i =
    let j = hash_next h i in
    let rest = visited h rounds j in elim (hash_cur j) [ none ↦ [] | some e ↦ e ∷ rest ]

-- The elements that an iterator has not reached.
abbrev ahead : Hash → HashIterator → List ℕ
ahead h i = i.behind ++ destroyed (drop (suc i.bucket) h.buckets)

-- What a step of the iterator does: it takes the first of them, or there is none.
abbrev Advances : Hash → List ℕ → HashIterator → Type 0
Advances h before j =
    ((j.elem ≡ none) × (before ≡ []))
    ⊎ ((e : ℕ) × (j.elem ≡ some e) × (before ≡ e ∷ ahead h j) × (j.bucket < h.bucket_cnt))

drop-get :
    (bs : List (List ℕ)) (k : ℕ)
    → k < length bs
    → destroyed (drop k bs) ≡ get_or bs k [] ++ destroyed (drop (suc k) bs)
unfolding destroyed
drop-get [] k h = absurd (omega arith)
drop-get (b ∷ bs) zero h = refl
drop-get (b ∷ bs) (suc k) h = drop-get bs k (omega arith)

drop-all : (bs : List (List ℕ)) (k : ℕ) → length bs ≤ k → destroyed (drop k bs) ≡ []
unfolding destroyed
drop-all [] zero h = refl
drop-all [] (suc k) h = refl
drop-all (b ∷ bs) zero h = absurd (omega arith)
drop-all (b ∷ bs) (suc k) h = drop-all bs k (omega arith)

module _ (h : Hash) (allocated : length h.buckets ≡ h.bucket_cnt) where
  next_from-Advances :
      (rounds bucket : ℕ) (behind : List ℕ)
      → h.bucket_cnt ≤ bucket + rounds
      → bucket < h.bucket_cnt
      → Advances h
          (behind ++ destroyed (drop (suc bucket) h.buckets))
          (next_from h rounds bucket behind)
  unfolding next_from
  next_from-Advances rounds bucket (e ∷ es) k lt = inr (e, refl, refl, lt)
  next_from-Advances zero bucket [] k lt = absurd (omega (arith, k, lt))
  next_from-Advances (suc rounds) bucket [] k lt =
      elim (Bool-cases (ltb (bucket + 1) h.bucket_cnt)) [
        | inl t ↦
            (let more : suc bucket < h.bucket_cnt = ground (arith, t) in
              let same : bucket + 1 ≡ suc bucket = omega arith in
              let rest =
                next_from-Advances rounds (suc bucket) (get_or h.buckets (suc bucket) [])
                  (omega (arith, k)) more in
              let now = drop-get h.buckets (suc bucket) (omega (arith, more, allocated)) in
              rw (t, now, same) rest)
        | inr t ↦ rw t (inl (refl, drop-all h.buckets (suc bucket) (ground (arith, t, allocated))))
      ]

  visited_lem :
      (rounds : ℕ) (i : HashIterator)
      → i.bucket < h.bucket_cnt
      → length (ahead h i) < rounds
      → visited h rounds i ≡ ahead h i
  unfolding visited hash_next hash_cur
  visited_lem zero i lt k = absurd (omega (arith, k))
  visited_lem (suc rounds) i lt k =
      elim (next_from-Advances (h.bucket_cnt - i.bucket) i.bucket i.behind (omega (arith, lt)) lt) [
        | inl (n, e) ↦ rw (n, e, visited) refl
        | inr (x, s, e, lt') ↦
            (let j = hash_next h i in
              let fewer : length (ahead h j) < rounds = omega (arith, k, ap length e) in
              rw (s, e, visited) (ap (λ t. x ∷ t) (visited_lem rounds j lt' fewer)))
      ]

-- The loop with an iterator from `hash_first` on ends, and visits the elements that `hash_apply` does, in the same
-- order.
pub visited-hash_apply :
    (h : Hash) (rounds : ℕ)
    → length h.buckets ≡ h.bucket_cnt
    → 0 < h.bucket_cnt
    → length (hash_apply h) < rounds
    → visited h rounds (hash_first h) ≡ hash_apply h
unfolding hash_first hash_apply
visited-hash_apply h rounds allocated some_buckets k =
    let all = drop-get h.buckets 0 (omega (arith, allocated, some_buckets)) in
    visited_lem h allocated rounds (hash_first h) some_buckets (omega (arith, k, ap length all))
    ∙ sym all
