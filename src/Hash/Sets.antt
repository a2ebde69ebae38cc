-- ===== src/Hash/Sets.antt =====
-- No two equal elements in a table: linuxpintos/src/lib/kernel/hash.c.
use tddb68_collab.Base.{
  ℕ, ◌+◌, ◌^◌, ◌≤◌, ◌<◌, ◌≡◌, inl, inr, refl, sym, subst, ap, Bool, true, false, Option, none, some,
  ◌==◌, arith, Bool-cases, [], length, replicate,
}
use tddb68_collab.Base.Copies.{copies}
use tddb68_collab.Hash.{
  Hash, is_power_of_2, hash_init, hash_clear, equal, hash_insert, hash_replace, hash_delete,
}
use tddb68_collab.Hash.Buckets.{stored, size, total-replicate, replicate-IsPlaced}
use tddb68_collab.Hash.Moving.{IsTable, power-pos}
use tddb68_collab.Hash.Tables.{
  one_if, after_insert, after_delete, after_replace, Congruent, IsMatch, found, missing,
}
use tddb68_collab.Hash.Operations.{hash_insert_lem, hash_replace_lem, hash_delete_lem}

four_is_power : is_power_of_2 4 ≡ true
unfolding is_power_of_2
four_is_power = refl

some_inj : {x y : Hash} → some x ≡ some y → x ≡ y
some_inj e = cc

module _ (hash : ℕ → ℕ) (less : ℕ → ℕ → Bool) where
  -- What the code relies on of `hash` and `less`: to be equal is an equivalence, of elements with one hash.
  pub record IsKey : Type 0 where
    pub congruent : Congruent hash less
    pub reflexive : (x : ℕ) → equal hash less x x ≡ true
    pub transitive :
        (x y z : ℕ)
        → equal hash less x y ≡ true
        → equal hash less y z ≡ true
        → equal hash less x z ≡ true

  equal_comm : (x y : ℕ) → equal hash less x y ≡ true → equal hash less y x ≡ true
  unfolding equal
  equal_comm x y q = ground (arith, q)

  pub record IsUnrepeated (m : ℕ → ℕ) : Type 0 where
    pub once : (y : ℕ) → m y ≤ 1
    pub apart : (x y : ℕ) → 0 < m x → 0 < m y → equal hash less x y ≡ true → x ≡ y

  module _ (k : IsKey) {m : ℕ → ℕ} (t : IsUnrepeated m) where
    -- An element that is added apart from all others.
    module _ (new : ℕ) (other : (y : ℕ) → 0 < m y → equal hash less y new ≡ false) where
      absent : m new ≡ 0
      absent = elim (Bool-cases (m new == 0)) [
        | inl q ↦ ground (arith, q)
        | inr q ↦ (let no_other = other new (ground (arith, q)) in let same = k.reflexive new in cc)
      ]

      -- No element of the table is equal to the new one.
      no_equal : (x y : ℕ) → (new == x) ≡ true → 0 < m y → equal hash less x y ≡ true → ⊥
      no_equal x y e h q =
          let same : new ≡ x = ground (arith, e) in
          let no_other = other y h in
          let as_new = subst (λ u. equal hash less u y ≡ true) (sym same) q in
          let back = equal_comm new y as_new in cc

      added : IsUnrepeated (λ y. m y + one_if (new == y))
      added = record {
        once = λ y. (elim (Bool-cases (new == y)) [
          | inl q ↦
              (let gone = absent in
                let same : new ≡ y = ground (arith, q) in rw q (ground (arith, gone, ap m same)))
          | inr q ↦ rw q (omega (arith, t.once y))
        ]);
        apart = λ x y hx hy q. (elim (Bool-cases (new == x)) [
          | inl a ↦ (elim (Bool-cases (new == y)) [
            | inl b ↦ ground (arith, a, b)
            | inr b ↦ absurd (no_equal x y a (ground (arith, hy, b)) q)
          ])
          | inr a ↦ (elim (Bool-cases (new == y)) [
            | inl b ↦ absurd (no_equal y x b (ground (arith, hx, a)) (equal_comm x y q))
            | inr b ↦ t.apart x y (ground (arith, hx, a)) (ground (arith, hy, b)) q
          ])
        ]);
      }

    deleted : (o : Option ℕ) → IsUnrepeated (after_delete m o)
    deleted none = t
    deleted (some x) = record {
      once = λ y. omega (arith, t.once y);
      apart = λ a b ha hb q. t.apart a b (omega (arith, ha)) (omega (arith, hb)) q;
    }

  module _ (k : IsKey) {h : Hash} (t : IsUnrepeated (stored h.buckets)) where
    after_insert-IsUnrepeated :
        (new : ℕ) (o : Option ℕ)
        → IsMatch hash less h new o
        → IsUnrepeated (after_insert (stored h.buckets) new o)
    after_insert-IsUnrepeated new none (missing other) = added k t new other
    after_insert-IsUnrepeated new (some x) (found _ here q) = t

    after_replace-IsUnrepeated :
        (new : ℕ) (o : Option ℕ)
        → IsMatch hash less h new o
        → IsUnrepeated (after_replace (stored h.buckets) new o)
    after_replace-IsUnrepeated new none (missing other) = added k t new other
    after_replace-IsUnrepeated new (some x) (found _ here q) =
        added k (deleted k t (some x)) new (λ y there. elim (Bool-cases (equal hash less y new)) [
          | inr e ↦ e
          | inl e ↦
              (let in_table : 0 < stored h.buckets y = omega (arith, there) in
                let same : y ≡ x =
                  t.apart y x in_table here (k.transitive y new x e (equal_comm x new q)) in
                absurd (ground (arith, there, same, t.once y, ap (stored h.buckets) same)))
        ])

  -- Tables that calls lead to, while fewer than 2^32 - 1 elements are in them.
  pub data Reach : Hash → Type 0 where
    created : (room : Bool) (h : Hash) → hash_init room ≡ some h → Reach h
    cleared : {h : Hash} → Reach h → Reach (hash_clear h)
    inserted :
        {h : Hash} (new : ℕ) (room : Bool)
        → Reach h
        → size h.buckets + 1 < 2 ^ 32
        → Reach (hash_insert hash less h new room).0
    replaced :
        {h : Hash} (new : ℕ) (room : Bool)
        → Reach h
        → size h.buckets + 1 < 2 ^ 32
        → Reach (hash_replace hash less h new room).0
    deleted_from :
        {h : Hash} (e : ℕ) (room : Bool)
        → Reach h
        → size h.buckets + 1 < 2 ^ 32
        → Reach (hash_delete hash less h e room).0

  IsUnrepeated-eq : {m m' : ℕ → ℕ} → ((y : ℕ) → m' y ≡ m y) → IsUnrepeated m → IsUnrepeated m'
  IsUnrepeated-eq e t = record {
    once = λ y. omega (arith, e y, t.once y);
    apart = λ x y hx hy q. t.apart x y (omega (arith, hx, e x)) (omega (arith, hy, e y)) q;
  }

  -- A table of empty buckets.
  pub empty-InOrder :
      (h : Hash)
      → is_power_of_2 h.bucket_cnt ≡ true
      → IsTable hash (hash_clear h) × IsUnrepeated (stored (hash_clear h).buckets)
  unfolding hash_clear copies
  empty-InOrder h p =
      let some_buckets = power-pos h.bucket_cnt p in
      let free = λ (y : ℕ). total-replicate (λ b. copies b y) h.bucket_cnt refl in
      (
        record {
          placed = replicate-IsPlaced hash h.bucket_cnt some_buckets;
          elements = sym (total-replicate length h.bucket_cnt refl);
          power = p;
        },
        record {
          once = λ y. omega (arith, free y);
          apart = λ x y hx hy q. absurd (omega (arith, free x, hx));
        },
      )

  -- After any sequence of calls from `hash_init` on: every element is in the bucket of its hash, `elem_cnt` is the number
  -- of elements, the number of buckets is a power of 2, and no two elements are equal.
  pub Reach-InOrder :
      {h : Hash} → IsKey → Reach h → IsTable hash h × IsUnrepeated (stored h.buckets)
  unfolding hash_init
  Reach-InOrder k (created true h e) =
      subst (λ t. IsTable hash t × IsUnrepeated (stored t.buckets)) (some_inj e)
        (empty-InOrder (record { elem_cnt = 0; bucket_cnt = 4; buckets = replicate 4 [] })
          four_is_power)
  Reach-InOrder k (created false h e) = cc
  Reach-InOrder k (cleared {h} r) = let (v, t) = Reach-InOrder k r in empty-InOrder h v.power
  Reach-InOrder k (inserted {h} new room r small) =
      let (v, t) = Reach-InOrder k r in
      let (m, c) = hash_insert_lem hash less k.congruent v room new small in
      (c.table, IsUnrepeated-eq c.elements (after_insert-IsUnrepeated k t new _ m))
  Reach-InOrder k (replaced {h} new room r small) =
      let (v, t) = Reach-InOrder k r in
      let (m, c) = hash_replace_lem hash less k.congruent v room new small in
      (c.table, IsUnrepeated-eq c.elements (after_replace-IsUnrepeated k t new _ m))
  Reach-InOrder k (deleted_from {h} e room r small) =
      let (v, t) = Reach-InOrder k r in
      let (m, c) = hash_delete_lem hash less k.congruent v room e (omega arith) in
      (c.table, IsUnrepeated-eq c.elements (deleted k t _))
