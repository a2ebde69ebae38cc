-- ===== src/Hash/Tests.antt =====
-- Tables of numbers that are their own hashes: linuxpintos/src/lib/kernel/hash.c.
use tddb68_collab.Base.{
  ℕ, ◌+◌, ◌^◌, ◌<◌, ◌≡◌, refl, subst, Bool, true, false, none, [], ◌∷◌, ltb, ◌==◌, if◌then◌else◌,
  arith, replicate,
}
use tddb68_collab.Base.Kernel.{runs}
use tddb68_collab.Hash.{
  Hash, turn_off_least_1bit, is_power_of_2, round_down, best_bucket_cnt, first_in, hash_init,
  hash_clear, bucket_idx, push_to, rehash, insert_elem, equal, find_elem, hash_insert, hash_replace,
  hash_find, destroyed,
}
use tddb68_collab.Hash.Buckets.{stored, size, total}
use tddb68_collab.Hash.Moving.{IsTable}
use tddb68_collab.Hash.Tables.{after_insert, after_replace, IsMatch}
use tddb68_collab.Hash.Operations.{Contains, hash_insert_lem, hash_replace_lem}
use tddb68_collab.Hash.Sets.{IsKey, IsUnrepeated, Reach, created, inserted, Reach-InOrder}
use tddb68_collab.Hash.Iterating.{hash_first, hash_apply, visited, visited-hash_apply}
use tddb68_collab.Hash.Bytes.{hash_bytes, mix, bytes_from}
use tddb68_collab.Strings.{Memory}
use tddb68_collab.Strings.Search.{IsPlaced}

abbrev own : ℕ → ℕ
own x = x

abbrev smaller : ℕ → ℕ → Bool
smaller x y = ltb x y

own-IsKey : IsKey own smaller
unfolding equal
own-IsKey = record {
  congruent = λ x y q. ground (arith, q);
  reflexive = λ x. ground arith;
  transitive = λ x y z q r. ground (arith, q, r);
}

abbrev fresh : Hash
fresh = record { elem_cnt = 0; bucket_cnt = 4; buckets = replicate 4 [] }

fresh-Reach : Reach own smaller fresh
unfolding hash_init hash_clear
fresh-Reach = created true fresh refl

-- 5 and 9 share a bucket.
abbrev pair : Hash
pair = record { elem_cnt = 2; bucket_cnt = 4; buckets = [] ∷ (9 ∷ 5 ∷ []) ∷ [] ∷ [] ∷ [] }

pair_made : (hash_insert own smaller (hash_insert own smaller fresh 5 true).0 9 true).0 ≡ pair
unfolding hash_insert find_elem first_in equal bucket_idx insert_elem push_to rehash best_bucket_cnt
    round_down is_power_of_2 turn_off_least_1bit
pair_made = refl

pair-Reach : Reach own smaller pair
unfolding hash_insert find_elem first_in equal bucket_idx insert_elem push_to rehash best_bucket_cnt
    round_down is_power_of_2 turn_off_least_1bit total
pair-Reach =
    subst (Reach own smaller) pair_made
      (inserted 9 true (inserted 5 true fresh-Reach (omega arith)) (omega arith))

pair-IsTable : IsTable own pair
pair-IsTable = (Reach-InOrder own smaller own-IsKey pair-Reach).0

pair_small : size pair.buckets + 1 < 2 ^ 32
unfolding total
pair_small = omega arith

pair_fits : size pair.buckets < 2 ^ 32
unfolding total
pair_fits = omega arith

find_other : hash_find own smaller pair 13 ≡ none
unfolding hash_find find_elem first_in equal bucket_idx
find_other = refl

-- Fifteen elements, one more, and then no memory for eight buckets, or some.
abbrev many : Hash
many = record {
  elem_cnt = 15;
  bucket_cnt = 4;
  buckets =
      (0 ∷ 4 ∷ 8 ∷ 12 ∷ [])
      ∷ (1 ∷ 5 ∷ 9 ∷ 13 ∷ [])
      ∷ (2 ∷ 6 ∷ 10 ∷ 14 ∷ [])
      ∷ (3 ∷ 7 ∷ 11 ∷ [])
      ∷ [];
}

grows : (hash_insert own smaller many 15 true).0.bucket_cnt ≡ 8
unfolding hash_insert find_elem first_in equal bucket_idx insert_elem push_to rehash best_bucket_cnt
    round_down is_power_of_2 turn_off_least_1bit
grows = refl

stays : (hash_insert own smaller many 15 false).0.bucket_cnt ≡ 4
unfolding hash_insert find_elem first_in equal bucket_idx insert_elem push_to rehash best_bucket_cnt
    round_down is_power_of_2 turn_off_least_1bit
stays = refl

hash_insert_lem_example :
    IsMatch own smaller pair 13 (hash_insert own smaller pair 13 true).1
    × Contains own smaller
        (hash_insert own smaller pair 13 true).0
        (after_insert (stored pair.buckets) 13 (hash_insert own smaller pair 13 true).1)
hash_insert_lem_example =
    hash_insert_lem own smaller own-IsKey.congruent pair-IsTable true 13 pair_small

hash_replace_lem_example :
    IsMatch own smaller pair 9 (hash_replace own smaller pair 9 true).1
    × Contains own smaller
        (hash_replace own smaller pair 9 true).0
        (after_replace (stored pair.buckets) 9 (hash_replace own smaller pair 9 true).1)
hash_replace_lem_example =
    hash_replace_lem own smaller own-IsKey.congruent pair-IsTable true 9 pair_small

Reach-InOrder_example : IsTable own pair × IsUnrepeated own smaller (stored pair.buckets)
Reach-InOrder_example = Reach-InOrder own smaller own-IsKey pair-Reach

visited-hash_apply_example : visited pair 3 (hash_first pair) ≡ hash_apply pair
unfolding hash_apply destroyed
visited-hash_apply_example = visited-hash_apply pair 3 refl (omega arith) (omega arith)

-- "ab" at address 1.
abbrev text : Memory
text a = if a == 1 then 97 else if a == 2 then 98 else 0

text-IsPlaced : IsPlaced text 1 2
text-IsPlaced = record {
  string = record { chars = λ i h. ground arith; ends = refl };
  not_null = λ e. absurd (omega (arith, e));
  below = omega arith;
}

-- FNV-1 of "ab".
hash_of_ab : hash_bytes text 1 2 ≡ runs 1886858552
unfolding hash_bytes bytes_from mix
hash_of_ab = refl
