-- ===== src/Hash/Operations.antt =====
-- Insertion, replacement and deletion: linuxpintos/src/lib/kernel/hash.c.
use tddb68_collab.Base.{
  ℕ, ◌+◌, ◌-◌, ◌^◌, ◌<◌, ◌≡◌, inl, inr, refl, ◌∙◌, Bool, Option, some, ◌==◌, arith, Option-cases,
}
use tddb68_collab.Hash.{
  Hash, rehash, insert_elem, remove_elem, hash_insert, hash_replace, hash_find, hash_delete,
  find_elem,
}
use tddb68_collab.Hash.Buckets.{stored, size}
use tddb68_collab.Hash.Moving.{IsTable, rehash_lem}
use tddb68_collab.Hash.Tables.{
  one_if, after_insert, after_delete, after_replace, Congruent, IsMatch, found, missing,
  hash_find_lem, insert_elem_lem, remove_elem_lem,
}

some_inj : (x y : ℕ) → some x ≡ some y → x ≡ y
some_inj x y e = cc

module _ (hash : ℕ → ℕ) (less : ℕ → ℕ → Bool) where
  -- A table in order with these elements.
  pub record Contains (h : Hash) (m : ℕ → ℕ) : Type 0 where
    pub table : IsTable hash h
    pub elements : (y : ℕ) → stored h.buckets y ≡ m y

  match_here :
      (h : Hash) (e x : ℕ) (o : Option ℕ)
      → o ≡ some x
      → IsMatch hash less h e o
      → 0 < stored h.buckets x
  match_here h e x o s (found y here q) = rw (← (some_inj y x s)) here
  match_here h e x o s (missing n) = cc

  rehash-Contains :
      {h : Hash} {m : ℕ → ℕ} (room : Bool) → Contains h m → Contains (rehash hash h room) m
  rehash-Contains room c =
      let (t, same) = rehash_lem hash room c.table in
      record { table = t; elements = λ y. same y ∙ c.elements y }

  module _ (congruent : Congruent hash less) {h : Hash} (v : IsTable hash h) (room : Bool) where
    insert-Contains :
        (e : ℕ)
        → size h.buckets + 1 < 2 ^ 32
        → Contains (insert_elem hash h e) (λ y. stored h.buckets y + one_if (e == y))
    insert-Contains e small =
        let (t, same) = insert_elem_lem hash less congruent v e small in
        record { table = t; elements = same }

    remove-Contains :
        (x : ℕ)
        → size h.buckets < 2 ^ 32
        → 0 < stored h.buckets x
        → Contains (remove_elem hash h x) (λ y. stored h.buckets y - one_if (x == y))
    remove-Contains x small here =
        let (t, same, _) = remove_elem_lem hash less congruent v x small here in
        record { table = t; elements = same }

    -- `hash_insert` returns an equal element of the table and changes nothing else, or adds the new one if there is none; with or
    -- without memory for more buckets.
    pub hash_insert_lem :
        (new : ℕ)
        → size h.buckets + 1 < 2 ^ 32
        → IsMatch hash less h new (hash_insert hash less h new room).1
          × Contains
              (hash_insert hash less h new room).0
              (after_insert (stored h.buckets) new (hash_insert hash less h new room).1)
    unfolding hash_insert hash_find
    hash_insert_lem new small =
        let m = hash_find_lem hash less congruent v new in
        (
          m,
          elim (Option-cases (find_elem hash less h new)) [
            | inl n ↦ rw n (rehash-Contains room (insert-Contains new small))
            | inr (x, s) ↦ rw s (rehash-Contains room (record { table = v; elements = λ y. refl }))
          ],
        )

    -- `hash_delete` returns an equal element of the table and takes it out, or changes nothing if there is none.
    pub hash_delete_lem :
        (e : ℕ)
        → size h.buckets < 2 ^ 32
        → IsMatch hash less h e (hash_delete hash less h e room).1
          × Contains
              (hash_delete hash less h e room).0
              (after_delete (stored h.buckets) (hash_delete hash less h e room).1)
    unfolding hash_delete hash_find
    hash_delete_lem e small =
        let m = hash_find_lem hash less congruent v e in
        (
          m,
          elim (Option-cases (find_elem hash less h e)) [
            | inl n ↦ rw (n, hash_delete) (record { table = v; elements = λ y. refl })
            | inr (x, s) ↦
                rw (s, hash_delete)
                  (rehash-Contains room (remove-Contains x small (match_here h e x _ s m)))
          ],
        )

    -- `hash_replace` returns an equal element of the table and takes it out, if there is one, and adds the new one.
    pub hash_replace_lem :
        (new : ℕ)
        → size h.buckets + 1 < 2 ^ 32
        → IsMatch hash less h new (hash_replace hash less h new room).1
          × Contains
              (hash_replace hash less h new room).0
              (after_replace (stored h.buckets) new (hash_replace hash less h new room).1)
    unfolding hash_replace hash_find
    hash_replace_lem new small =
        let m = hash_find_lem hash less congruent v new in
        (
          m,
          elim (Option-cases (find_elem hash less h new)) [
            | inl n ↦ rw n (rehash-Contains room (insert-Contains new small))
            | inr (x, s) ↦
                (let here = match_here h new x _ s m in
                  let (t, same, fewer) =
                    remove_elem_lem hash less congruent v x (omega arith) here in
                  let (t', same') =
                    insert_elem_lem hash less congruent t new (omega (arith, fewer)) in
                  rw s (
                    rehash-Contains room
                      (record { table = t'; elements = λ y. omega (arith, same' y, same y) })))
          ],
        )
