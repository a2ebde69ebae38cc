-- ===== src/Random.antt =====
-- The pseudo-random numbers of linuxpintos/src/lib/random.c. The array `s` has 256 bytes.
pub mod Permutation
mod Tests
use tddb68_collab.Base.{
  ℕ, zero, suc, ◌+◌, ◌*◌, ◌/◌, ◌%◌, ◌^◌, Bool, true, false, List, [], ◌∷◌, if◌then◌else◌, get_or,
  set, replicate,
}

-- `s`, `s_i`, `s_j` and `inited`.
pub record Generator : Type 0 where
  pub s : List ℕ
  pub s_i : ℕ
  pub s_j : ℕ
  pub inited : Bool

-- Before the first call.
abbrev pub unseeded : Generator
unseeded = record { s = replicate 256 0; s_i = 0; s_j = 0; inited = false }

-- `swap_byte (s + i, s + j)`
unfoldable pub swap_byte : List ℕ → (i j : ℕ) → List ℕ
swap_byte s i j = let t = get_or s i 0 in set (set s i (get_or s j 0)) j t

-- `seedp[k]`, on a little-endian machine.
abbrev pub seed_byte : (seed k : ℕ) → ℕ
seed_byte seed k = seed / 2 ^ (8 * k) % 2 ^ 8

-- `for (i = 0; i < 256; i++) s[i] = i;`, with the rounds that are left.
unfoldable pub fill_from : (rounds i : ℕ) → List ℕ → List ℕ
fill_from zero i s = s
fill_from (suc rounds) i s = fill_from rounds (i + 1) (set s i (i % 2 ^ 8))

-- The second loop of `random_init`.
unfoldable pub mix_from : (seed rounds i j : ℕ) → List ℕ → List ℕ
unfolding swap_byte
mix_from seed zero i j s = s
mix_from seed (suc rounds) i j s =
    let j' = (j + (get_or s i 0 + seed_byte seed (i % 4))) % 2 ^ 8 in
    mix_from seed rounds (i + 1) j' (swap_byte s i j')

unfoldable pub random_init : Generator → (seed : ℕ) → Generator
unfolding fill_from mix_from
random_init g seed = record {
  s = mix_from seed 256 0 0 (fill_from 256 0 g.s);
  s_i = 0;
  s_j = 0;
  inited = true;
}

-- One round of the loop of `random_bytes`.
unfoldable pub next_byte : Generator → Generator × ℕ
unfolding swap_byte
next_byte g =
    let i = (g.s_i + 1) % 2 ^ 8 in
    let j = (g.s_j + get_or g.s i 0) % 2 ^ 8 in
    let s' = swap_byte g.s i j in
    let k = (get_or s' i 0 + get_or s' j 0) % 2 ^ 8 in
    (record g { s = s'; s_i = i; s_j = j }, get_or s' k 0)

unfoldable pub bytes_of : Generator → (size : ℕ) → Generator × List ℕ
unfolding next_byte
bytes_of g zero = (g, [])
bytes_of g (suc size) =
    let (g', b) = next_byte g in let (g'', bs) = bytes_of g' size in (g'', b ∷ bs)

-- The bytes that are written to the buffer.
unfoldable pub random_bytes : Generator → (size : ℕ) → Generator × List ℕ
unfolding random_init bytes_of
random_bytes g size = bytes_of (if g.inited then g else random_init g 0) size

unfoldable pub from_bytes : List ℕ → ℕ
from_bytes [] = 0
from_bytes (b ∷ bs) = b + 2 ^ 8 * from_bytes bs

unfoldable pub random_ulong : Generator → Generator × ℕ
unfolding random_bytes from_bytes
random_ulong g = let (g', bs) = random_bytes g 4 in (g', from_bytes bs)
