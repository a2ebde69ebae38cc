-- ===== src/Random/Permutation.antt =====
-- The bytes of the generator are a permutation: linuxpintos/src/lib/random.c.
use tddb68_collab.Base.{
  ℕ, zero, suc, ◌+◌, ◌%◌, ◌^◌, ◌≤◌, ◌<◌, ◌≡◌, inl, inr, refl, sym, subst, ap, ◌∙◌, Bool, true, ◌&&◌,
  List, [], ◌∷◌, ◌==◌, ltb, leb, if◌then◌else◌, get_or, set, length, arith, Bool-cases, length-set,
  get_or-set_self, get_or-set_ne,
}
use tddb68_collab.Base.Copies.{copies}
use tddb68_collab.Random.{
  Generator, swap_byte, seed_byte, fill_from, mix_from, random_init, next_byte, bytes_of,
  random_bytes,
}

abbrev one_if : Bool → ℕ
one_if b = if b then 1 else 0

copies-set :
    (s : List ℕ) (i v x : ℕ)
    → i < length s
    → copies (set s i v) x + one_if (get_or s i 0 == x) ≡ copies s x + one_if (v == x)
unfolding copies
copies-set [] i v x h = absurd (omega (arith, h))
copies-set (c ∷ s) zero v x h = ground arith
copies-set (c ∷ s) (suc i) v x h = ground (arith, copies-set s i v x (omega (arith, h)))

-- Swapping changes no number of copies.
copies-swap_byte :
    (s : List ℕ) (i j x : ℕ) → i < length s → j < length s → copies (swap_byte s i j) x ≡ copies s x
unfolding swap_byte
copies-swap_byte s i j x hi hj =
    let t = set s i (get_or s j 0) in
    let first = copies-set s i (get_or s j 0) x hi in
    let second =
      copies-set t j (get_or s i 0) x (omega (arith, hj, length-set s i (get_or s j 0))) in
    elim (Bool-cases (i == j)) [
      | inl q ↦
          (let same : i ≡ j = ground (arith, q) in
            let own : get_or t j 0 ≡ get_or s j 0 =
              subst (λ u. get_or t u 0 ≡ get_or s j 0) same
                (get_or-set_self s i (get_or s j 0) 0 hi) in
            let both : get_or s i 0 ≡ get_or s j 0 = ap (λ u. get_or s u 0) same in
            omega
              (arith, first, second, ap (λ u. one_if (u == x)) own, ap (λ u. one_if (u == x)) both))
      | inr q ↦
          (let own = get_or-set_ne s i j (get_or s j 0) 0 (λ u. ground (arith, q, u)) in
            omega (arith, first, second, ap (λ u. one_if (u == x)) own))
    ]

length-swap_byte : (s : List ℕ) (i j : ℕ) → length (swap_byte s i j) ≡ length s
unfolding swap_byte
length-swap_byte s i j =
    length-set (set s i (get_or s j 0)) j (get_or s i 0) ∙ length-set s i (get_or s j 0)

-- `n` numbers from `k` on.
count_up : (n k : ℕ) → List ℕ
count_up zero k = []
count_up (suc n) k = k ∷ count_up n (k + 1)

copies-count_up : (n k x : ℕ) → copies (count_up n k) x ≡ one_if (leb k x && ltb x (k + n))
unfolding copies count_up
copies-count_up zero k x = ground arith
copies-count_up (suc n) k x = ground (arith, copies-count_up n (k + 1) x)

length-count_up : (n k : ℕ) → length (count_up n k) ≡ n
unfolding count_up
length-count_up zero k = refl
length-count_up (suc n) k = ap suc (length-count_up n (k + 1))

get_or-count_up : (n k i : ℕ) → i < n → get_or (count_up n k) i 0 ≡ k + i
unfolding count_up
get_or-count_up zero k i h = absurd (omega (arith, h))
get_or-count_up (suc n) k zero h = omega arith
get_or-count_up (suc n) k (suc i) h = omega (arith, get_or-count_up n (k + 1) i (omega (arith, h)))

get_or_ext :
    (xs ys : List ℕ)
    → length xs ≡ length ys
    → ((i : ℕ) → i < length xs → get_or xs i 0 ≡ get_or ys i 0)
    → xs ≡ ys
get_or_ext [] [] e h = refl
get_or_ext [] (y ∷ ys) e h = absurd (omega (arith, e))
get_or_ext (x ∷ xs) [] e h = absurd (omega (arith, e))
get_or_ext (x ∷ xs) (y ∷ ys) e h =
    let here : x ≡ y = h 0 (omega arith) in
    let rest = get_or_ext xs ys (omega (arith, e)) (λ i lt. h (suc i) (omega (arith, lt))) in
    λ t. here t ∷ rest t

length-fill_from : (rounds i : ℕ) (s : List ℕ) → length (fill_from rounds i s) ≡ length s
unfolding fill_from
length-fill_from zero i s = refl
length-fill_from (suc rounds) i s =
    length-fill_from rounds (i + 1) (set s i (i % 2 ^ 8)) ∙ length-set s i (i % 2 ^ 8)

fill_from-before :
    (rounds i k : ℕ) (s : List ℕ) → k < i → get_or (fill_from rounds i s) k 0 ≡ get_or s k 0
unfolding fill_from
fill_from-before zero i k s h = refl
fill_from-before (suc rounds) i k s h =
    fill_from-before rounds (i + 1) k (set s i (i % 2 ^ 8)) (omega (arith, h))
    ∙ get_or-set_ne s i k (i % 2 ^ 8) 0 (λ u. absurd (omega (arith, h, u)))

fill_from-get :
    (rounds i k : ℕ) (s : List ℕ)
    → i ≤ k
    → k < i + rounds
    → k < length s
    → get_or (fill_from rounds i s) k 0 ≡ k % 2 ^ 8
unfolding fill_from
fill_from-get zero i k s h lt len = absurd (omega (arith, h, lt))
fill_from-get (suc rounds) i k s h lt len = elim (Bool-cases (i == k)) [
  | inl q ↦
      (let same : i ≡ k = ground (arith, q) in
        fill_from-before rounds (i + 1) k (set s i (i % 2 ^ 8)) (omega (arith, same))
        ∙ subst (λ u. get_or (set s i (i % 2 ^ 8)) u 0 ≡ u % 2 ^ 8) same
            (get_or-set_self s i (i % 2 ^ 8) 0 (omega (arith, same, len))))
  | inr q ↦
      fill_from-get rounds (i + 1) k (set s i (i % 2 ^ 8)) (ground (arith, q, h))
        (omega (arith, lt)) (omega (arith, len, length-set s i (i % 2 ^ 8)))
]

-- Every byte is in the array once.
pub record IsPermutation (s : List ℕ) : Type 0 where
  pub size : length s ≡ 256
  pub once : (x : ℕ) → copies s x ≡ one_if (ltb x 256)

filled :
    (s : List ℕ)
    → length s ≡ 256
    → (i : ℕ) → i < 256
    → get_or (fill_from 256 0 s) i 0 ≡ get_or (count_up 256 0) i 0
filled s h i lt =
    fill_from-get 256 0 i s (omega arith) (omega (arith, lt)) (omega (arith, lt, h))
    ∙ omega (arith, get_or-count_up 256 0 i lt, lt)

fill-IsPermutation : (s : List ℕ) → length s ≡ 256 → IsPermutation (fill_from 256 0 s)
fill-IsPermutation s h =
    let all : fill_from 256 0 s ≡ count_up 256 0 =
      get_or_ext (fill_from 256 0 s) (count_up 256 0)
        (length-fill_from 256 0 s ∙ h ∙ sym (length-count_up 256 0))
        (λ i lt. filled s h i (omega (arith, lt, length-fill_from 256 0 s, h))) in
    record {
      size = length-fill_from 256 0 s ∙ h;
      once = λ x. ap (λ l. copies l x) all ∙ copies-count_up 256 0 x ∙ ground arith;
    }

swap_byte-IsPermutation :
    (s : List ℕ) (i j : ℕ) → i < 256 → j < 256 → IsPermutation s → IsPermutation (swap_byte s i j)
swap_byte-IsPermutation s i j hi hj v = record {
  size = length-swap_byte s i j ∙ v.size;
  once = λ x.
      copies-swap_byte s i j x (omega (arith, hi, v.size)) (omega (arith, hj, v.size)) ∙ v.once x;
}

mix_from-IsPermutation :
    (seed rounds i j : ℕ) (s : List ℕ)
    → i + rounds ≤ 256
    → IsPermutation s
    → IsPermutation (mix_from seed rounds i j s)
unfolding mix_from
mix_from-IsPermutation seed zero i j s h v = v
mix_from-IsPermutation seed (suc rounds) i j s h v =
    let j' = (j + (get_or s i 0 + seed_byte seed (i % 4))) % 2 ^ 8 in
    mix_from-IsPermutation seed rounds (i + 1) j' (swap_byte s i j') (omega (arith, h))
      (swap_byte-IsPermutation s i j' (omega (arith, h)) (omega arith) v)

-- `random_init` leaves every byte in the array once, whatever the seed and whatever the array held.
random_init-IsPermutation :
    (g : Generator) (seed : ℕ) → length g.s ≡ 256 → IsPermutation (random_init g seed).s
unfolding random_init
random_init-IsPermutation g seed h =
    mix_from-IsPermutation seed 256 0 0 (fill_from 256 0 g.s) (omega arith)
      (fill-IsPermutation g.s h)

-- An entry of the array is a byte.
copies-get_or : (s : List ℕ) (i : ℕ) → i < length s → 0 < copies s (get_or s i 0)
unfolding copies
copies-get_or [] i h = absurd (omega (arith, h))
copies-get_or (c ∷ s) zero h = ground arith
copies-get_or (c ∷ s) (suc i) h = ground (arith, copies-get_or s i (omega (arith, h)))

entry_lt : (s : List ℕ) (i : ℕ) → i < 256 → IsPermutation s → get_or s i 0 < 256
entry_lt s i h v =
    let one = v.once (get_or s i 0) in
    let has = copies-get_or s i (omega (arith, h, v.size)) in ground (arith, one, has)

next_byte-IsPermutation :
    (g : Generator) → IsPermutation g.s → IsPermutation (next_byte g).0.s × ((next_byte g).1 < 256)
unfolding next_byte
next_byte-IsPermutation g v =
    let i = (g.s_i + 1) % 2 ^ 8 in
    let j = (g.s_j + get_or g.s i 0) % 2 ^ 8 in
    let s' = swap_byte g.s i j in
    let w = swap_byte-IsPermutation g.s i j (omega arith) (omega arith) v in
    (w, entry_lt s' ((get_or s' i 0 + get_or s' j 0) % 2 ^ 8) (omega arith) w)

abbrev pub AreBytes : List ℕ → Type 0
AreBytes [] = Unit
AreBytes (b ∷ bs) = (b < 256) × AreBytes bs

-- What a call for so many bytes does.
abbrev Delivers : Generator → (size : ℕ) → Type 0
Delivers g size =
    IsPermutation (bytes_of g size).0.s
    × (length (bytes_of g size).1 ≡ size)
    × AreBytes (bytes_of g size).1

bytes_of-IsPermutation :
    (size : ℕ) (g : Generator)
    → IsPermutation g.s
    → IsPermutation (bytes_of g size).0.s
      × (length (bytes_of g size).1 ≡ size)
      × AreBytes (bytes_of g size).1
unfolding bytes_of
bytes_of-IsPermutation zero g v = (v, refl, tt)
bytes_of-IsPermutation (suc size) g v =
    let (w, b) = next_byte-IsPermutation g v in
    let (w', len, bs) = bytes_of-IsPermutation size (next_byte g).0 w in (w', ap suc len, (b, bs))

-- A generator with an array of 256 bytes, which is a permutation once it is initialised.
pub record IsReady (g : Generator) : Type 0 where
  pub has_room : length g.s ≡ 256
  pub seeded : g.inited ≡ true → IsPermutation g.s

-- `random_bytes`, which initialises the generator if `random_init` was not called, writes as many bytes as it is asked for,
-- and leaves every byte in the array once.
pub random_bytes-IsPermutation :
    (g : Generator) (size : ℕ)
    → IsReady g
    → IsPermutation (random_bytes g size).0.s
      × (length (random_bytes g size).1 ≡ size)
      × AreBytes (random_bytes g size).1
unfolding random_bytes
random_bytes-IsPermutation g size v =
    let after = λ (b : Bool). if b then g else random_init g 0 in
    elim (Bool-cases g.inited) [
      | inl t ↦
          subst (λ b. Delivers (after b) size) (sym t) (bytes_of-IsPermutation size g (v.seeded t))
      | inr t ↦
          subst (λ b. Delivers (after b) size) (sym t)
            (bytes_of-IsPermutation size (random_init g 0)
              (random_init-IsPermutation g 0 v.has_room))
    ]
