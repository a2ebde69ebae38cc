-- ===== src/Hash/Moving.antt =====
-- `rehash` in linuxpintos/src/lib/kernel/hash.c.
use tddb68_collab.Base.{
  ℕ, zero, suc, ◌+◌, ◌-◌, ◌/◌, ◌≤◌, ◌<◌, ◌≡◌, inl, inr, refl, sym, ap, ◌∙◌, Bool, true, List, [],
  ◌∷◌, ◌==◌, ltb, if◌then◌else◌, arith, Bool-cases, length, get_or, replicate,
}
use tddb68_collab.Base.Copies.{copies}
use tddb68_collab.Bits.{bit_and-le}
use tddb68_collab.Hash.{
  Hash, turn_off_least_1bit, is_power_of_2, round_down, best_bucket_cnt, bucket_idx, push_to,
  move_bucket, move_buckets, rehash,
}
use tddb68_collab.Hash.Buckets.{
  total, stored, size, total-set, total-replicate, IsPlaced, bucket_idx_lt, set-IsPlaced,
  replicate-IsPlaced,
}

-- The loop of `rehash` ends with a power of 2.
round_down-is_power :
    (rounds x : ℕ) → 0 < x → x ≤ rounds → is_power_of_2 (round_down rounds x) ≡ true
unfolding round_down is_power_of_2 turn_off_least_1bit
round_down-is_power zero x h k = absurd (omega arith)
round_down-is_power (suc rounds) x h k = elim (Bool-cases (is_power_of_2 x)) [
  | inl p ↦ rw p p
  | inr p ↦ rw p (
      round_down-is_power rounds (turn_off_least_1bit x) (ground (arith, p))
        (omega (arith, bit_and-le x (x - 1))))
]

pub best-is_power : (n : ℕ) → is_power_of_2 (best_bucket_cnt n) ≡ true
unfolding best_bucket_cnt
best-is_power n =
    let at_least = if ltb (n / 2) 4 then 4 else n / 2 in
    round_down-is_power at_least at_least (ground arith) (omega arith)

pub power-pos : (n : ℕ) → is_power_of_2 n ≡ true → 0 < n
unfolding is_power_of_2
power-pos n h = ground (arith, h)

module _ (hash : ℕ → ℕ) where
  module _ {cnt : ℕ} {bs : List (List ℕ)} (e : ℕ) (v : IsPlaced hash cnt bs) where
    pub push_to-IsPlaced : IsPlaced hash cnt (push_to hash cnt bs e)
    unfolding push_to copies
    push_to-IsPlaced =
        let idx = bucket_idx hash cnt e in
        set-IsPlaced hash idx (e ∷ get_or bs idx []) v (λ x here. elim (Bool-cases (e == x)) [
          | inl q ↦ ap (bucket_idx hash cnt) (ground (arith, q))
          | inr q ↦
              v.placed idx x (omega (arith, bucket_idx_lt hash cnt e v.nonempty, v.allocated))
                (ground (arith, q, here))
        ])

    pub push_to-total :
        (f : List ℕ → ℕ) (w : ℕ)
        → ((b : List ℕ) → f (e ∷ b) ≡ f b + w)
        → total f (push_to hash cnt bs e) ≡ total f bs + w
    unfolding push_to
    push_to-total f w h =
        let idx = bucket_idx hash cnt e in
        omega (
          arith,
          total-set f bs idx (e ∷ get_or bs idx [])
              (omega (arith, bucket_idx_lt hash cnt e v.nonempty, v.allocated)),
          h (get_or bs idx []),
        )

  pub move_bucket-IsPlaced :
      {cnt : ℕ} (es : List ℕ) (new : List (List ℕ))
      → IsPlaced hash cnt new
      → IsPlaced hash cnt (move_bucket hash cnt es new)
  unfolding move_bucket
  move_bucket-IsPlaced [] new v = v
  move_bucket-IsPlaced {cnt} (e ∷ es) new v =
      move_bucket-IsPlaced es (push_to hash cnt new e) (push_to-IsPlaced e v)

  pub move_buckets-IsPlaced :
      {cnt : ℕ} (old new : List (List ℕ))
      → IsPlaced hash cnt new
      → IsPlaced hash cnt (move_buckets hash cnt old new)
  unfolding move_buckets
  move_buckets-IsPlaced [] new v = v
  move_buckets-IsPlaced {cnt} (b ∷ bs) new v =
      move_buckets-IsPlaced bs (move_bucket hash cnt b new) (move_bucket-IsPlaced b new v)

  -- A number that each element adds to by itself, wherever it is.
  module _ (f : List ℕ → ℕ) (w : ℕ → ℕ) (empty : f [] ≡ 0)
      (each : (e : ℕ) (b : List ℕ) → f (e ∷ b) ≡ f b + w e) where
    move_bucket-total :
        {cnt : ℕ} (es : List ℕ) (new : List (List ℕ))
        → IsPlaced hash cnt new
        → total f (move_bucket hash cnt es new) ≡ f es + total f new
    unfolding move_bucket
    move_bucket-total [] new v = omega (arith, empty)
    move_bucket-total {cnt} (e ∷ es) new v = omega (
      arith,
      move_bucket-total es (push_to hash cnt new e) (push_to-IsPlaced e v),
      push_to-total e v f (w e) (each e),
      each e es,
    )

    pub move_buckets-total :
        {cnt : ℕ} (old new : List (List ℕ))
        → IsPlaced hash cnt new
        → total f (move_buckets hash cnt old new) ≡ total f old + total f new
    unfolding move_buckets total
    move_buckets-total [] new v = omega arith
    move_buckets-total {cnt} (b ∷ bs) new v = omega (
      arith,
      move_buckets-total bs (move_bucket hash cnt b new) (move_bucket-IsPlaced b new v),
      move_bucket-total b new v,
    )

  -- A table in order.
  pub record IsTable (h : Hash) : Type 0 where
    pub placed : IsPlaced hash h.bucket_cnt h.buckets
    pub elements : h.elem_cnt ≡ size h.buckets
    pub power : is_power_of_2 h.bucket_cnt ≡ true

  moved-copies :
      (cnt : ℕ) (old : List (List ℕ)) (x : ℕ)
      → 0 < cnt
      → stored (move_buckets hash cnt old (replicate cnt [])) x ≡ stored old x
  unfolding copies
  moved-copies cnt old x h = omega (
    arith,
    move_buckets-total (λ b. copies b x) (λ e. if e == x then 1 else 0) refl (λ e b. ground arith)
        old (replicate cnt []) (replicate-IsPlaced hash cnt h),
    total-replicate (λ b. copies b x) cnt refl,
  )

  moved-size :
      (cnt : ℕ) (old : List (List ℕ))
      → 0 < cnt
      → size (move_buckets hash cnt old (replicate cnt [])) ≡ size old
  moved-size cnt old h = omega (
    arith,
    move_buckets-total length (λ e. 1) refl (λ e b. omega arith) old (replicate cnt [])
        (replicate-IsPlaced hash cnt h),
    total-replicate length cnt refl,
  )

  -- `rehash` keeps the elements of the table, and the table in order.
  pub rehash_lem :
      {h : Hash} (room : Bool)
      → IsTable h
      → IsTable (rehash hash h room)
        × ((x : ℕ) → stored (rehash hash h room).buckets x ≡ stored h.buckets x)
  unfolding rehash
  rehash_lem {h} room v = elim (Bool-cases (best_bucket_cnt h.elem_cnt == h.bucket_cnt)) [
    | inl e ↦ rw e (v, λ x. refl)
    | inr e ↦ (elim (Bool-cases room) [
      | inr r ↦ rw (e, r) (v, λ x. refl)
      | inl r ↦
          (let cnt = best_bucket_cnt h.elem_cnt in
            let power = best-is_power h.elem_cnt in
            let some_buckets = power-pos cnt power in
            rw (e, r)
              (
                record {
                  placed =
                      move_buckets-IsPlaced h.buckets (replicate cnt [])
                        (replicate-IsPlaced hash cnt some_buckets);
                  elements = v.elements ∙ sym (moved-size cnt h.buckets some_buckets);
                  power = power;
                },
                λ x. moved-copies cnt h.buckets x some_buckets,
              ))
    ])
  ]
