-- ===== src/Bitmap/Range.antt =====
-- Writing and reading ranges of bits: linuxpintos/src/lib/kernel/bitmap.c.
use tddb68_collab.Base.{
  ℕ, zero, suc, ◌+◌, ◌≤◌, ◌<◌, ◌≡◌, ◌↔◌, inl, inr, refl, ap, ◌∙◌, Bool, true, false, not, ◌&&◌, ltb,
  leb, if◌then◌else◌, arith, lt→ltb, le→leb, Bool-cases,
}
use native.Mathlib.Decide.{ℕ_discrete}
use tddb68_collab.Base.Kernel.{runs}
use tddb68_collab.Bitmap.{
  Bitmap, add_size, bitmap_test, set_from, bitmap_set_multiple, bitmap_set_all, same, contains_from,
  bitmap_contains, bitmap_all, count_from, bitmap_count,
}
use tddb68_collab.Bitmap.Bits.{IsValid, holds, Wrote, set-Wrote, test_lem}

-- The bits from `start` on, `cnt` of them.
abbrev pub within : (start cnt : ℕ) → ℕ → Bool
within start cnt j = leb start j && ltb j (start + cnt)

set_from-Wrote :
    (b : Bitmap) (i n : ℕ) (value : Bool)
    → IsValid b
    → i + n ≤ b.bit_cnt
    → (b' : Bitmap) × (set_from b i n value ≡ runs b') × Wrote b b' (within i n) value
unfolding set_from
set_from-Wrote b i zero value v le =
    (b, refl, record { valid = v; size = refl; bits = λ j. ground arith })
set_from-Wrote b i (suc n) value v le =
    let (b1, e1, w1) = set-Wrote i value v (omega arith) in
    let (b2, e2, w2) = set_from-Wrote b1 (i + 1) n value w1.valid (omega (arith, w1.size)) in
    let next : add_size i 1 ≡ i + 1 = omega (arith, v.small) in
    (
      b2,
      rw (e1, next) e2,
      record {
        valid = w2.valid;
        size = w2.size ∙ w1.size;
        bits = λ j. ground (arith, w1.bits j, w2.bits j);
      },
    )

-- `bitmap_set_multiple` on a range inside a valid bitmap does not panic, writes the value to every bit of
-- the range and changes no other bit.
pub set_multiple-Wrote :
    {b : Bitmap} (start cnt : ℕ) (value : Bool)
    → IsValid b
    → start + cnt ≤ b.bit_cnt
    → (b' : Bitmap) × (bitmap_set_multiple b start cnt value ≡ runs b')
      × Wrote b b' (within start cnt) value
unfolding bitmap_set_multiple
set_multiple-Wrote {b} start cnt value v le =
    let fits : add_size start cnt ≡ start + cnt = omega (arith, v.small) in
    let (b', e, w) = set_from-Wrote b start cnt value v le in
    (b', rw (fits, le→leb start b.bit_cnt (omega arith), le→leb (start + cnt) b.bit_cnt le) e, w)

pub set_all-Wrote :
    (b : Bitmap) (value : Bool)
    → IsValid b
    → (b' : Bitmap) × (bitmap_set_all b value ≡ runs b') × Wrote b b' (within 0 b.bit_cnt) value
unfolding bitmap_set_all
set_all-Wrote b value v = set_multiple-Wrote 0 b.bit_cnt value v (omega arith)

-- All `cnt` bits from `start` on have the value.
abbrev pub IsGroup : Bitmap → (start cnt : ℕ) → Bool → Type 0
IsGroup b start cnt value = (j : ℕ) → start ≤ j → j < start + cnt → holds b j ≡ value

contains_from_lem :
    (b : Bitmap) (i n : ℕ) (value : Bool)
    → IsValid b
    → i + n ≤ b.bit_cnt
    → (c : Bool) × (contains_from b i n value ≡ runs c) × ((c ≡ false) ↔ IsGroup b i n (not value))
unfolding contains_from
contains_from_lem b i zero value v le = (false, refl, (λ _ j p q. absurd (omega arith), λ _. refl))
contains_from_lem b i (suc n) value v le = elim (Bool-cases (same (holds b i) value)) [
  | inl hit ↦
      (true, ground (arith, here), (λ h. cc, λ g. ground (arith, g i (omega arith) (omega arith))))
  | inr miss ↦
      let (c, e, iff) = contains_from_lem b (i + 1) n value v (omega arith) in
      (
        c,
        ground (arith, here, next, e),
        (
          λ z j p q. elim (ℕ_discrete i j) [
            | yes at ↦ ground (arith, ap (holds b) at)
            | no after ↦ iff.0 z j (omega arith) (omega arith)
          ],
          λ g. iff.1 (λ j p q. g j (omega arith) (omega arith)),
        ),
      )
]
  where
    here : bitmap_test b i ≡ runs (holds b i)
    here = rw (test_lem b i, lt→ltb i b.bit_cnt (omega arith))

    next : add_size i 1 ≡ i + 1
    next = omega (arith, v.small)

-- `bitmap_contains` on a range inside the bitmap does not panic, and answers false if and only if all
-- its bits have the other value.
pub contains_lem :
    {b : Bitmap} (start cnt : ℕ) (value : Bool)
    → IsValid b
    → start + cnt ≤ b.bit_cnt
    → (c : Bool) × (bitmap_contains b start cnt value ≡ runs c)
      × ((c ≡ false) ↔ IsGroup b start cnt (not value))
unfolding bitmap_contains
contains_lem {b} start cnt value v le =
    let fits : add_size start cnt ≡ start + cnt = omega (arith, v.small) in
    let (c, e, iff) = contains_from_lem b start cnt value v le in
    (c, rw (fits, le→leb start b.bit_cnt (omega arith), le→leb (start + cnt) b.bit_cnt le) e, iff)

-- `bitmap_all` on a range inside the bitmap answers whether all its bits are set.
pub all_lem :
    {b : Bitmap} (start cnt : ℕ)
    → IsValid b
    → start + cnt ≤ b.bit_cnt
    → (a : Bool) × (bitmap_all b start cnt ≡ runs a) × ((a ≡ true) ↔ IsGroup b start cnt true)
unfolding bitmap_all
all_lem {b} start cnt v le =
    let (c, e, iff) = contains_lem {b = b} start cnt false v le in
    (not c, ground (arith, e), (λ h. iff.0 (ground arith), λ g. ground (arith, iff.1 g)))

-- How many of the `n` bits from `i` on have the value.
pub population : Bitmap → (i n : ℕ) → Bool → ℕ
population b i zero value = 0
population b i (suc n) value =
    (if same (holds b i) value then 1 else 0) + population b (i + 1) n value

count_from_lem :
    (b : Bitmap) (i n : ℕ) (value : Bool) (found : ℕ)
    → IsValid b
    → i + n ≤ b.bit_cnt
    → count_from b i n value found ≡ runs (found + population b i n value)
unfolding count_from population
count_from_lem b i zero value found v le = ap runs (omega arith)
count_from_lem b i (suc n) value found v le =
    rw (here, next, count_from_lem b (i + 1) n value _ v (omega arith)) (ap runs (ground arith))
  where
    here : bitmap_test b i ≡ runs (holds b i)
    here = rw (test_lem b i, lt→ltb i b.bit_cnt (omega arith))

    next : add_size i 1 ≡ i + 1
    next = omega (arith, v.small)

-- `bitmap_count` on a range inside a valid bitmap does not panic and counts its bits with the value.
pub count_lem :
    {b : Bitmap} (start cnt : ℕ) (value : Bool)
    → IsValid b
    → start + cnt ≤ b.bit_cnt
    → bitmap_count b start cnt value ≡ runs (population b start cnt value)
unfolding bitmap_count
count_lem {b} start cnt value v le =
    let fits : add_size start cnt ≡ start + cnt = omega (arith, v.small) in
    rw (fits, le→leb start b.bit_cnt (omega arith), le→leb (start + cnt) b.bit_cnt le)
      (count_from_lem b start cnt value 0 v le ∙ ap runs (omega arith))

-- Set and clear bits make up the range.
pub population_total : (b : Bitmap) (i n : ℕ) → population b i n true + population b i n false ≡ n
unfolding population
population_total b i zero = omega arith
population_total b i (suc n) = ground (arith, population_total b (i + 1) n)
