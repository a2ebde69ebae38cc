-- ===== src/Random/Tests.antt =====
-- The first bytes of the generator: linuxpintos/src/lib/random.c.
use tddb68_collab.Base.{◌≡◌, refl, [], ◌∷◌, length}
use tddb68_collab.Random.{unseeded, random_bytes}
use tddb68_collab.Random.Permutation.{IsPermutation, IsReady, AreBytes, random_bytes-IsPermutation}

-- The key stream of RC4 for a key of zeros.
first_bytes : (random_bytes unseeded 4).1 ≡ 0xde ∷ 0x18 ∷ 0x89 ∷ 0x41 ∷ []
unfolding random_bytes
first_bytes = refl

unseeded-IsReady : IsReady unseeded
unseeded-IsReady = record { has_room = refl; seeded = λ t. cc }

random_bytes-IsPermutation_example :
    IsPermutation (random_bytes unseeded 4).0.s
    × (length (random_bytes unseeded 4).1 ≡ 4)
    × AreBytes (random_bytes unseeded 4).1
random_bytes-IsPermutation_example = random_bytes-IsPermutation unseeded 4 unseeded-IsReady
