-- ===== src/Hash/Buckets.antt =====
-- Arrays of buckets: linuxpintos/src/lib/kernel/hash.c.
use tddb68_collab.Base.{
  ℕ, zero, suc, ◌+◌, ◌-◌, ◌≤◌, ◌<◌, ◌≡◌, inl, inr, refl, sym, subst, ap, ◌∙◌, List, [], ◌∷◌, ◌==◌,
  arith, Bool-cases, length, get_or, set, replicate, length-set, get_or-set_self, get_or-set_ne,
  length-replicate, get_or-replicate,
}
use tddb68_collab.Base.Copies.{copies}
use tddb68_collab.Bits.{bit_and-le}
use tddb68_collab.Hash.{bucket_idx}

-- A number that the buckets have together.
unfoldable pub total : (List ℕ → ℕ) → List (List ℕ) → ℕ
total f [] = 0
total f (b ∷ bs) = f b + total f bs

-- How often an element is in the table, and how many elements there are.
abbrev pub stored : List (List ℕ) → (e : ℕ) → ℕ
stored bs e = total (λ b. copies b e) bs

abbrev pub size : List (List ℕ) → ℕ
size bs = total length bs

pub total-set :
    (f : List ℕ → ℕ) (bs : List (List ℕ)) (i : ℕ) (b : List ℕ)
    → i < length bs
    → total f (set bs i b) + f (get_or bs i []) ≡ total f bs + f b
unfolding total
total-set f [] i b h = absurd (omega arith)
total-set f (c ∷ bs) zero b h = omega arith
total-set f (c ∷ bs) (suc i) b h = omega (arith, total-set f bs i b (omega arith))

pub total-replicate : (f : List ℕ → ℕ) (n : ℕ) → f [] ≡ 0 → total f (replicate n []) ≡ 0
unfolding total
total-replicate f zero h = refl
total-replicate f (suc n) h = omega (arith, h, total-replicate f n h)

-- A bucket has no more than the table, and each element of the table is in a bucket.
pub get-le-total :
    (f : List ℕ → ℕ) (bs : List (List ℕ)) (i : ℕ) → i < length bs → f (get_or bs i []) ≤ total f bs
unfolding total
get-le-total f [] i h = absurd (omega arith)
get-le-total f (b ∷ bs) zero h = omega arith
get-le-total f (b ∷ bs) (suc i) h = omega (arith, get-le-total f bs i (omega arith))

pub stored-get :
    (bs : List (List ℕ)) (e : ℕ)
    → 0 < stored bs e
    → (i : ℕ) × (i < length bs) × (0 < copies (get_or bs i []) e)
unfolding total
stored-get [] e h = absurd (omega arith)
stored-get (b ∷ bs) e h = elim (Bool-cases (copies b e == 0)) [
  | inl z ↦ (let (i, lt, here) = stored-get bs e (ground (arith, z)) in (suc i, omega arith, here))
  | inr z ↦ (0, omega arith, ground (arith, z))
]

module _ (hash : ℕ → ℕ) where
  -- Every element is in the bucket that its hash says.
  pub record IsPlaced (bucket_cnt : ℕ) (bs : List (List ℕ)) : Type 0 where
    pub allocated : length bs ≡ bucket_cnt
    pub nonempty : 0 < bucket_cnt
    pub placed :
        (i e : ℕ) → i < length bs → 0 < copies (get_or bs i []) e → bucket_idx hash bucket_cnt e ≡ i

  pub bucket_idx_lt :
      (bucket_cnt e : ℕ) → 0 < bucket_cnt → bucket_idx hash bucket_cnt e < bucket_cnt
  unfolding bucket_idx
  bucket_idx_lt bucket_cnt e h = omega (arith, bit_and-le (hash e) (bucket_cnt - 1))

  -- An element of the table is in its bucket.
  pub stored-bucket :
      {bucket_cnt : ℕ} {bs : List (List ℕ)} (e : ℕ)
      → IsPlaced bucket_cnt bs
      → 0 < stored bs e
      → 0 < copies (get_or bs (bucket_idx hash bucket_cnt e) []) e
  stored-bucket {bucket_cnt} {bs} e v h =
      let (i, lt, here) = stored-get bs e h in let same = v.placed i e lt here in rw same here

  -- A bucket whose elements belong in it can be put in its place.
  pub set-IsPlaced :
      {bucket_cnt : ℕ} {bs : List (List ℕ)} (i : ℕ) (b : List ℕ)
      → IsPlaced bucket_cnt bs
      → ((e : ℕ) → 0 < copies b e → bucket_idx hash bucket_cnt e ≡ i)
      → IsPlaced bucket_cnt (set bs i b)
  set-IsPlaced {bucket_cnt} {bs} i b v h = record {
    allocated = length-set bs i b ∙ v.allocated;
    nonempty = v.nonempty;
    placed = λ j e lt here.
        (let old : j < length bs = omega (arith, length-set bs i b) in
          elim (Bool-cases (i == j)) [
            | inl q ↦
                (let same : i ≡ j = ground (arith, q) in
                  let at_i = subst (λ t. 0 < copies (get_or (set bs i b) t []) e) (sym same) here in
                  let self = get_or-set_self bs i b [] (omega (arith, old, same)) in
                  h e (subst (λ c. 0 < copies c e) self at_i) ∙ same)
            | inr q ↦
                v.placed j e old
                  (rw (sym (get_or-set_ne bs i j b [] (λ t. ground (arith, q, t)))) here)
          ]);
  }

  pub replicate-IsPlaced :
      (bucket_cnt : ℕ) → 0 < bucket_cnt → IsPlaced bucket_cnt (replicate bucket_cnt [])
  unfolding copies
  replicate-IsPlaced bucket_cnt h = record {
    allocated = length-replicate bucket_cnt [];
    nonempty = h;
    placed = λ i e lt here.
        (let none_here : ◌≡◌ {A = List ℕ} (get_or (replicate bucket_cnt []) i []) [] =
            get_or-replicate bucket_cnt i [] []
              (omega (arith, length-replicate {0} bucket_cnt ([]))) in
          absurd (omega (arith, ap (λ b. copies b e) none_here)));
  }
