-- ===== src/Bitmap/Scan.antt =====
-- Looking for a group of bits: `bitmap_scan` and `bitmap_scan_and_flip` of
-- linuxpintos/src/lib/kernel/bitmap.c.
use tddb68_collab.Base.{
  ℕ, zero, suc, ◌+◌, ◌-◌, ◌≤◌, ◌<◌, ◌≡◌, ◌↔◌, ◌⊎◌, inl, inr, refl, sym, subst, Bool, true, false,
  not, arith, le→leb, Bool-cases,
}
use native.Mathlib.Decide.{ℕ_discrete, dec_le}
use tddb68_collab.Base.Kernel.{runs}
use tddb68_collab.Bitmap.{
  Bitmap, bitmap_error, add_size, bitmap_contains, scan_from, bitmap_scan, flip_group,
  bitmap_scan_and_flip,
}
use tddb68_collab.Bitmap.Bits.{IsValid, Wrote}
use tddb68_collab.Bitmap.Range.{within, IsGroup, set_multiple-Wrote, contains_lem}

-- `r` is the first group of `cnt` bits with the value at or after `start`.
pub record Found (b : Bitmap) (start cnt : ℕ) (value : Bool) (r : ℕ) : Type 0 where
  pub from : start ≤ r
  pub inside : r + cnt ≤ b.bit_cnt
  pub group : IsGroup b r cnt value
  pub first : (i : ℕ) → start ≤ i → i < r → ¬ IsGroup b i cnt value

-- There is no such group.
abbrev pub NoGroup : Bitmap → (start cnt : ℕ) → Bool → Type 0
NoGroup b start cnt value = (i : ℕ) → start ≤ i → i + cnt ≤ b.bit_cnt → ¬ IsGroup b i cnt value

contains_other :
    {b : Bitmap} (start cnt : ℕ) (value : Bool)
    → IsValid b
    → start + cnt ≤ b.bit_cnt
    → (c : Bool) × (bitmap_contains b start cnt (not value) ≡ runs c)
      × ((c ≡ false) ↔ IsGroup b start cnt value)
contains_other start cnt true v le = contains_lem start cnt false v le
contains_other start cnt false v le = contains_lem start cnt true v le

-- What a scan returns.
abbrev pub Scanned : Bitmap → (start cnt : ℕ) → Bool → ℕ → Type 0
Scanned b start cnt value r =
    Found b start cnt value r ⊎ ((r ≡ bitmap_error) × NoGroup b start cnt value)

later-Scanned :
    (b : Bitmap) (i cnt : ℕ) (value : Bool) (r : ℕ)
    → ¬ IsGroup b i cnt value
    → Scanned b (i + 1) cnt value r
    → Scanned b i cnt value r
later-Scanned b i cnt value r not_here (inl f) = inl (record {
  from = omega (arith, f.from);
  inside = f.inside;
  group = f.group;
  first = λ k p q g. elim (ℕ_discrete i k) [
    | yes at ↦ not_here (subst (λ s. IsGroup b s cnt value) (sym at) g)
    | no after ↦ f.first k (omega arith) q g
  ];
})
later-Scanned b i cnt value r not_here (inr (e, none_later)) = inr (
  e,
  λ k p q g. elim (ℕ_discrete i k) [
    | yes at ↦ not_here (subst (λ s. IsGroup b s cnt value) (sym at) g)
    | no after ↦ none_later k (omega arith) q g
  ],
)

-- A group of no bits is everywhere.
group-pos : (b : Bitmap) (i cnt : ℕ) (value : Bool) → ¬ IsGroup b i cnt value → 0 < cnt
group-pos b i zero value no_group = absurd (no_group (λ j p q. absurd (omega arith)))
group-pos b i (suc cnt) value no_group = omega arith

scan_from-Scanned :
    (b : Bitmap) (i n cnt : ℕ) (value : Bool)
    → IsValid b
    → cnt ≤ b.bit_cnt
    → n ≡ b.bit_cnt - cnt + 1 - i
    → (r : ℕ) × (scan_from b i n cnt value ≡ runs r) × Scanned b i cnt value r
unfolding scan_from
scan_from-Scanned b i zero cnt value v le e =
    (bitmap_error, refl, inr (refl, λ k p q. absurd (omega arith)))
scan_from-Scanned b i (suc n) cnt value v le e =
    let (c, here, iff) = contains_other i cnt value v (omega arith) in
    elim (Bool-cases c) [
      | inl other ↦
          let not_here : ¬ IsGroup b i cnt value = λ g. cc (iff.1 g) in
          let some_bits : 0 < cnt = group-pos b i cnt value not_here in
          let next : add_size i 1 ≡ i + 1 = omega (arith, v.small) in
          let (r, run, s) = scan_from-Scanned b (i + 1) n cnt value v le (omega arith) in
          (r, ground (arith, here, next, run), later-Scanned b i cnt value r not_here s)
      | inr all ↦ (
        i,
        ground (arith, here),
        inl (record {
          from = omega arith;
          inside = omega arith;
          group = iff.0 all;
          first = λ k p q. absurd (omega arith);
        }),
      )
    ]

-- On a valid bitmap `bitmap_scan` does not panic from a start that is at most the count, and returns
-- the first group at or after the start, or BITMAP_ERROR where there is none.
pub scan-Scanned :
    {b : Bitmap} (start cnt : ℕ) (value : Bool)
    → IsValid b
    → start ≤ b.bit_cnt
    → (r : ℕ) × (bitmap_scan b start cnt value ≡ runs r) × Scanned b start cnt value r
unfolding bitmap_scan
scan-Scanned {b} start cnt value v le = elim (dec_le cnt b.bit_cnt) [
  | yes small ↦
      let (r, run, s) =
        scan_from-Scanned b start (b.bit_cnt - cnt + 1 - start) cnt value v small refl in
      (r, rw (le→leb start b.bit_cnt le, le→leb cnt b.bit_cnt small) run, s)
  | no large ↦ (bitmap_error, ground arith, inr (refl, λ i p q. absurd (omega arith)))
]

-- What `bitmap_scan_and_flip` does: it takes the first group and gives all its bits, and no others, the
-- other value, or reports that there is no group and leaves the bitmap as it was.
pub data Flipped (b : Bitmap) (start cnt : ℕ) (value : Bool) : ℕ → Bitmap → Type 0 where
  flipped :
      {r : ℕ} {b' : Bitmap}
      → Found b start cnt value r
      → Wrote b b' (within r cnt) (not value)
      → Flipped b start cnt value r b'
  unchanged :
      {r : ℕ} {b' : Bitmap}
      → r ≡ bitmap_error
      → b' ≡ b
      → NoGroup b start cnt value
      → Flipped b start cnt value r b'

-- On a valid bitmap of fewer bits than BITMAP_ERROR, from a start that is at most their count,
-- `bitmap_scan_and_flip` does not panic, and either flips the bits of the first group with the value and
-- no others, or returns BITMAP_ERROR, changes nothing, and there is no such group.
pub scan_and_flip-Flipped :
    {b : Bitmap} (start cnt : ℕ) (value : Bool)
    → IsValid b
    → b.bit_cnt < bitmap_error
    → start ≤ b.bit_cnt
    → (r : ℕ) × (b' : Bitmap) × (bitmap_scan_and_flip b start cnt value ≡ runs (r, b'))
      × Flipped b start cnt value r b'
unfolding bitmap_scan_and_flip flip_group
scan_and_flip-Flipped {b} start cnt value v small le = go (scan-Scanned start cnt value v le)
  where
    go :
        ((r : ℕ) × (bitmap_scan b start cnt value ≡ runs r) × Scanned b start cnt value r)
        → (r : ℕ) × (b' : Bitmap) × (bitmap_scan_and_flip b start cnt value ≡ runs (r, b'))
          × Flipped b start cnt value r b'
    go (r, run, inl f) =
        let (b', e, w) = set_multiple-Wrote r cnt (not value) v f.inside in
        (r, b', ground (arith, run, e, f.inside), flipped f w)
    go (r, run, inr (e, none_there)) = (r, b, ground (arith, run, e), unchanged e refl none_there)
