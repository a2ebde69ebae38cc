-- ===== src/Bits.antt =====
-- The binary digits of a machine word, and what `&`, `|`, `^`, `~` and `<<` do to each of them.
mod Step
use Prim.Native.Nat.{bit_and, bit_or, bit_xor}
use tddb68_collab.Base.{
  ℕ, zero, suc, ◌+◌, ◌-◌, ◌*◌, ◌/◌, ◌%◌, ◌^◌, ◌≤◌, ◌<◌, ◌≡◌, ◌≢◌, refl, ap, ◌∙◌, Bool, true, false,
  not, ◌&&◌, ◌||◌, arith, ltb, ◌==◌, if◌then◌else◌, inl, inr, Bool-cases,
}
pub use Step.{bit_and_step, bit_or_step, bit_xor_step}
use native.Mathlib.Nat.{pow-suc}

-- Digit `k` of `w`, the lowest first.
pub bit : ℕ → ℕ → Bool
bit w zero = w % 2 == 1
bit w (suc k) = bit (w / 2) k

pub bit-bit_and : (a b k : ℕ) → bit (bit_and a b) k ≡ bit a k && bit b k
unfolding bit
bit-bit_and a b zero = ground (arith, bit_and_step a b)
bit-bit_and a b (suc k) =
    let e : bit_and a b / 2 ≡ bit_and (a / 2) (b / 2) = omega (arith, bit_and_step a b) in
    rw e (bit-bit_and (a / 2) (b / 2) k)

pub bit-bit_or : (a b k : ℕ) → bit (bit_or a b) k ≡ bit a k || bit b k
unfolding bit
bit-bit_or a b zero = ground (arith, bit_or_step a b)
bit-bit_or a b (suc k) =
    let e : bit_or a b / 2 ≡ bit_or (a / 2) (b / 2) = omega (arith, bit_or_step a b) in
    rw e (bit-bit_or (a / 2) (b / 2) k)

pub bit-bit_xor : (a b k : ℕ) → bit (bit_xor a b) k ≡ (if bit b k then not (bit a k) else bit a k)
unfolding bit
bit-bit_xor a b zero = ground (arith, bit_xor_step a b)
bit-bit_xor a b (suc k) =
    let e : bit_xor a b / 2 ≡ bit_xor (a / 2) (b / 2) = omega (arith, bit_xor_step a b) in
    rw e (bit-bit_xor (a / 2) (b / 2) k)

bit-zero : (k : ℕ) → bit 0 k ≡ false
unfolding bit
bit-zero zero = refl
bit-zero (suc k) = bit-zero k

pub pow_step : (i : ℕ) → 2 ^ suc i ≡ 2 * 2 ^ i
pow_step i = omega (arith, pow-suc 2 i)

pub pow-pos : (i : ℕ) → 0 < 2 ^ i
pow-pos zero = omega arith
pow-pos (suc i) = omega (arith, pow_step i, pow-pos i)

pow-lt : (i n : ℕ) → i < n → 2 ^ i < 2 ^ n
pow-lt i zero h = absurd (omega arith)
pow-lt zero (suc n) h = omega (arith, pow_step n, pow-pos n)
pow-lt (suc i) (suc n) h = omega (arith, pow_step n, pow_step i, pow-lt i n (omega arith))

half-pow : (i : ℕ) → 2 ^ suc i / 2 ≡ 2 ^ i
half-pow i = omega (arith, pow_step i)

-- `1 << i` has digit `i` alone.
pub bit-pow : (i k : ℕ) → bit (2 ^ i) k ≡ (i == k)
unfolding bit
bit-pow zero zero = refl
bit-pow zero (suc k) = ground (arith, bit-zero k)
bit-pow (suc i) zero = ground (arith, pow_step i)
bit-pow (suc i) (suc k) = rw (half-pow i) (ground (arith, bit-pow i k))

bit-ones : (n k : ℕ) → k < n → bit (2 ^ n - 1) k ≡ true
unfolding bit
bit-ones zero k h = absurd (omega arith)
bit-ones (suc n) zero h = ground (arith, pow_step n, pow-pos n)
bit-ones (suc n) (suc k) h =
    let e : (2 ^ suc n - 1) / 2 ≡ 2 ^ n - 1 = omega (arith, pow_step n) in
    rw e (bit-ones n k (omega arith))

-- `~(1 << i)` in a word of `n` digits has every digit but `i`.
pub bit-complement : (n i k : ℕ) → i < n → k < n → bit (2 ^ n - 1 - 2 ^ i) k ≡ not (i == k)
unfolding bit
bit-complement zero i k p q = absurd (omega arith)
bit-complement (suc n) zero zero p q = ground (arith, pow_step n, pow-pos n)
bit-complement (suc n) (suc i) zero p q = ground (arith, pow_step n, pow_step i, pow-lt i n)
bit-complement (suc n) zero (suc k) p q =
    let e : (2 ^ suc n - 1 - 1) / 2 ≡ 2 ^ n - 1 = omega (arith, pow_step n) in
    rw e (ground (arith, bit-ones n k))
bit-complement (suc n) (suc i) (suc k) p q =
    let e : (2 ^ suc n - 1 - 2 ^ suc i) / 2 ≡ 2 ^ n - 1 - 2 ^ i =
      omega (arith, pow_step n, pow_step i) in
    rw e (ground (arith, bit-complement n i k))

bit_and-zero : (w : ℕ) (k : ℕ) → w < 2 ^ k → bit_and w 0 ≡ 0
bit_and-zero w zero h = let e : w ≡ 0 = omega arith in rw e refl
bit_and-zero w (suc k) h =
    omega (arith, bit_and_step w 0, bit_and-zero (w / 2) k (omega (arith, pow_step k)))

pub lt-pow : (w : ℕ) → w < 2 ^ w
lt-pow zero = omega arith
lt-pow (suc w) = omega (arith, lt-pow w, pow_step w)

-- Masking with `1 << i` leaves a number that is not zero just where digit `i` is set.
pub bit_and-pow : (w i : ℕ) → bit_and w (2 ^ i) ≡ (if bit w i then 2 ^ i else 0)
unfolding bit
bit_and-pow w zero = ground (arith, bit_and_step w 1, bit_and-zero (w / 2) (w / 2), lt-pow (w / 2))
bit_and-pow w (suc i) = ground (
  arith,
  bit_and_step w (2 ^ suc i),
  half-pow i,
  pow_step i,
  ap (bit_and (w / 2)) (half-pow i),
  bit_and-pow (w / 2) i,
)

bit_and-le_fuel : (n a b : ℕ) → a + b ≤ n → bit_and a b ≤ b
bit_and-le_fuel zero a b h =
    let za : a ≡ 0 = omega arith in let zb : b ≡ 0 = omega arith in rw (za, zb) (omega arith)
bit_and-le_fuel (suc n) a b h = elim (Bool-cases (a + b == 0)) [
  | inl z ↦ bit_and-le_fuel n a b (ground (arith, z))
  | inr z ↦
      (let rest = bit_and-le_fuel n (a / 2) (b / 2) (ground (arith, z)) in
        omega (arith, bit_and_step a b, rest))
]

-- A mask lets no more than itself through.
pub bit_and-le : (a b : ℕ) → bit_and a b ≤ b
bit_and-le a b = bit_and-le_fuel (a + b) a b (omega arith)
