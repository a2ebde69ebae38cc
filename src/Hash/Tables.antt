-- ===== src/Hash/Tables.antt =====
-- What the functions on tables do: linuxpintos/src/lib/kernel/hash.c.
use tddb68_collab.Base.{
  ℕ, ◌+◌, ◌-◌, ◌^◌, ◌<◌, ◌≡◌, inl, inr, refl, sym, subst, Bool, true, false, Option, none, some, [],
  ◌==◌, if◌then◌else◌, arith, Bool-cases, Option-cases, length, get_or, set,
}
use tddb68_collab.Base.Copies.{copies}
use tddb68_collab.Hash.{
  Hash, bucket_idx, unlink, insert_elem, remove_elem, equal, find_elem, hash_find,
}
use tddb68_collab.Hash.Buckets.{
  stored, size, total-set, get-le-total, stored-bucket, bucket_idx_lt, set-IsPlaced,
}
use tddb68_collab.Hash.Counting.{copies-unlink, length-unlink, first_in-some, first_in-none}
use tddb68_collab.Hash.Moving.{IsTable, push_to-IsPlaced, push_to-total}

abbrev pub one_if : Bool → ℕ
one_if b = if b then 1 else 0

-- How often each element is in a table after the calls, by the element that they return.
abbrev pub after_insert : (ℕ → ℕ) → (new : ℕ) → Option ℕ → (y : ℕ) → ℕ
after_insert m new none y = m y + one_if (new == y)
after_insert m new (some x) y = m y

abbrev pub after_delete : (ℕ → ℕ) → Option ℕ → (y : ℕ) → ℕ
after_delete m none y = m y
after_delete m (some x) y = m y - one_if (x == y)

abbrev pub after_replace : (ℕ → ℕ) → (new : ℕ) → Option ℕ → (y : ℕ) → ℕ
after_replace m new old y = after_delete m old y + one_if (new == y)

module _ (hash : ℕ → ℕ) (less : ℕ → ℕ → Bool) where
  -- Neither element is less than the other only if their hashes agree.
  abbrev pub Congruent : Type 0
  Congruent = (x y : ℕ) → equal hash less x y ≡ true → hash x ≡ hash y

  -- The result of a search: an element of the table that is equal, or null, and there is none.
  pub data IsMatch (h : Hash) (e : ℕ) : Option ℕ → Type 0 where
    found : (x : ℕ) → 0 < stored h.buckets x → equal hash less x e ≡ true → IsMatch h e (some x)
    missing : ((y : ℕ) → 0 < stored h.buckets y → equal hash less y e ≡ false) → IsMatch h e none

  module _ (congruent : Congruent) {h : Hash} (v : IsTable hash h) where
    idx_allocated : (e : ℕ) → bucket_idx hash h.bucket_cnt e < length h.buckets
    idx_allocated e =
        omega (arith, bucket_idx_lt hash h.bucket_cnt e v.placed.nonempty, v.placed.allocated)

    same_bucket :
        (x e : ℕ)
        → equal hash less x e ≡ true
        → bucket_idx hash h.bucket_cnt x ≡ bucket_idx hash h.bucket_cnt e
    unfolding bucket_idx
    same_bucket x e q = rw (congruent x e q) refl

    -- `hash_find` returns an element of the table that is equal to the one that is looked for, if there is one.
    pub hash_find_lem : (e : ℕ) → IsMatch h e (hash_find hash less h e)
    unfolding hash_find find_elem
    hash_find_lem e =
        let b = get_or h.buckets (bucket_idx hash h.bucket_cnt e) [] in
        elim (Option-cases (find_elem hash less h e)) [
          | inl n ↦ subst (IsMatch h e) (sym n) (
              missing (λ y here. elim (Bool-cases (equal hash less y e)) [
                | inr q ↦ q
                | inl q ↦
                    first_in-none b (λ x. equal hash less x e) n y
                      (subst (λ i. 0 < copies (get_or h.buckets i []) y) (same_bucket y e q)
                        (stored-bucket hash y v.placed here))
              ]))
          | inr (x, s) ↦
              (let (here, q) = first_in-some b (λ x. equal hash less x e) x s in
                subst (IsMatch h e) (sym s) (
                  found x
                    (omega (
                      arith,
                      here,
                      get-le-total (λ c. copies c x) h.buckets (bucket_idx hash h.bucket_cnt e)
                          (idx_allocated e),
                    ))
                    q))
        ]

    pub insert_elem_lem :
        (e : ℕ)
        → size h.buckets + 1 < 2 ^ 32
        → IsTable hash (insert_elem hash h e)
          × ((y : ℕ)
              → stored (insert_elem hash h e).buckets y ≡ stored h.buckets y + one_if (e == y))
    unfolding insert_elem copies
    insert_elem_lem e small = (
      record {
        placed = push_to-IsPlaced hash e v.placed;
        elements =
            omega (arith, v.elements, push_to-total hash e v.placed length 1 (λ b. omega arith));
        power = v.power;
      },
      λ y. push_to-total hash e v.placed (λ b. copies b y) (one_if (e == y)) (λ b. ground arith),
    )

    pub remove_elem_lem :
        (x : ℕ)
        → size h.buckets < 2 ^ 32
        → 0 < stored h.buckets x
        → IsTable hash (remove_elem hash h x)
          × ((y : ℕ)
              → stored (remove_elem hash h x).buckets y ≡ stored h.buckets y - one_if (x == y))
          × (size (remove_elem hash h x).buckets + 1 ≡ size h.buckets)
    unfolding remove_elem
    remove_elem_lem x small here =
        let i = bucket_idx hash h.bucket_cnt x in
        let b = get_or h.buckets i [] in
        let inside = stored-bucket hash x v.placed here in
        let fewer : size (set h.buckets i (unlink b x)) + 1 ≡ size h.buckets = omega (
          arith,
          total-set length h.buckets i (unlink b x) (idx_allocated x),
          length-unlink b x inside,
        ) in
        (
          record {
            placed = set-IsPlaced hash i (unlink b x) v.placed (λ e in_rest.
                v.placed.placed i e (idx_allocated x)
                  (omega (arith, in_rest, copies-unlink b x e inside)));
            elements = omega (arith, v.elements, fewer);
            power = v.power;
          },
          λ y. omega (
            arith,
            total-set (λ c. copies c y) h.buckets i (unlink b x) (idx_allocated x),
            copies-unlink b x y inside,
          ),
          fewer,
        )
