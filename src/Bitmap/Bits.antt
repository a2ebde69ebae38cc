-- ===== src/Bitmap/Bits.antt =====
-- A bitmap of linuxpintos/src/lib/kernel/bitmap.c seen as an array of bits.
use Prim.Native.Nat.{bit_and, bit_or, bit_xor}
use tddb68_collab.Base.{
  ℕ, ◌-◌, ◌*◌, ◌/◌, ◌%◌, ◌^◌, ◌≤◌, ◌<◌, ◌≡◌, refl, ap, Bool, true, false, not, length, get_or, set,
  ltb, ◌==◌, if◌then◌else◌, arith, lt→ltb, length-set, get_or-set_self, get_or-set_ne,
}
use tddb68_collab.Base.Kernel.{runs, panics}
use native.Mathlib.Decide.{ℕ_discrete}
use tddb68_collab.Bits.{
  bit, bit-bit_and, bit-bit_or, bit-bit_xor, bit-pow, bit-complement, bit_and-pow, pow-pos,
}
use tddb68_collab.Bitmap.{
  Bitmap, elem_bits, elem_idx, bit_mask, update, bitmap_mark, bitmap_reset, bitmap_flip, bitmap_set,
  bitmap_test,
}

-- There is a word for each bit, and the count is a `size_t`.
pub record IsValid (b : Bitmap) : Type 0 where
  pub room : b.bit_cnt ≤ elem_bits * length b.bits
  pub small : b.bit_cnt < 2 ^ 32

-- Bit `i` of the array.
pub holds : Bitmap → ℕ → Bool
holds b i = bit (get_or b.bits (i / elem_bits) 0) (i % elem_bits)

-- A change of one word is a change of one bit, if it is so in the word.
holds-update :
    (b : Bitmap) (i : ℕ) (f : ℕ → ℕ) (v : Bool → Bool)
    → IsValid b
    → i < b.bit_cnt
    → ((w k : ℕ)
        → k < elem_bits
        → bit (f w) k ≡ (if i % elem_bits == k then v (bit w k) else bit w k))
    → (j : ℕ) → holds (update b (elem_idx i) f) j ≡ (if i == j then v (holds b j) else holds b j)
unfolding holds
holds-update b i f v valid lt h j = elim (ℕ_discrete (i / elem_bits) (j / elem_bits)) [
  | yes same ↦
      let new : ℕ = f (get_or b.bits (i / elem_bits) 0) in
      ground (
        arith,
        ap (get_or (set b.bits (i / elem_bits) new)) same,
        get_or-set_self b.bits (i / elem_bits) new 0 (omega (arith, valid.room)),
        ap (get_or b.bits) same,
        h (get_or b.bits (i / elem_bits) 0) (j % elem_bits),
      )
  | no other ↦ ground (
    arith,
    get_or-set_ne b.bits (i / elem_bits) (j / elem_bits) (f (get_or b.bits (i / elem_bits) 0)) 0
        other,
  )
]

update-IsValid : (b : Bitmap) (idx : ℕ) (f : ℕ → ℕ) → IsValid b → IsValid (update b idx f)
update-IsValid b idx f v = record {
  room = omega (arith, length-set b.bits idx (f (get_or b.bits idx 0)), v.room);
  small = v.small;
}

-- Marking a bit sets it and changes no other bit of the bitmap.
pub holds-mark :
    {b : Bitmap} (i : ℕ)
    → IsValid b
    → i < b.bit_cnt
    → (j : ℕ) → holds (bitmap_mark b i) j ≡ (if i == j then true else holds b j)
unfolding bitmap_mark
holds-mark {b} i v lt =
    holds-update b i (λ w. bit_or w (bit_mask i)) (λ _. true) v lt
      λ w k k_lt. ground (arith, bit-bit_or w (bit_mask i) k, bit-pow (i % elem_bits) k)

-- Resetting a bit clears it and changes no other bit of the bitmap.
pub holds-reset :
    {b : Bitmap} (i : ℕ)
    → IsValid b
    → i < b.bit_cnt
    → (j : ℕ) → holds (bitmap_reset b i) j ≡ (if i == j then false else holds b j)
unfolding bitmap_reset
holds-reset {b} i v lt =
    holds-update b i (λ w. bit_and w (2 ^ elem_bits - 1 - bit_mask i)) (λ _. false) v lt
      λ w k k_lt. ground (
        arith,
        bit-bit_and w (2 ^ elem_bits - 1 - bit_mask i) k,
        bit-complement elem_bits (i % elem_bits) k,
      )

-- Flipping a bit negates it and changes no other bit of the bitmap.
pub holds-flip :
    {b : Bitmap} (i : ℕ)
    → IsValid b
    → i < b.bit_cnt
    → (j : ℕ) → holds (bitmap_flip b i) j ≡ (if i == j then not (holds b j) else holds b j)
unfolding bitmap_flip
holds-flip {b} i v lt =
    holds-update b i (λ w. bit_xor w (bit_mask i)) not v lt
      λ w k k_lt. ground (arith, bit-bit_xor w (bit_mask i) k, bit-pow (i % elem_bits) k)

-- `bitmap_test` reads the bit, and panics just where the index is not below the count.
pub test_lem :
    (b : Bitmap) (i : ℕ) → bitmap_test b i ≡ (if ltb i b.bit_cnt then runs (holds b i) else panics)
unfolding bitmap_test holds
test_lem b i =
    ground (
      arith,
      bit_and-pow (get_or b.bits (i / elem_bits) 0) (i % elem_bits),
      pow-pos (i % elem_bits),
    )

-- What a write of one bit, or of many, gives.
pub record Wrote (b b' : Bitmap) (hit : ℕ → Bool) (value : Bool) : Type 0 where
  pub valid : IsValid b'
  pub size : b'.bit_cnt ≡ b.bit_cnt
  pub bits : (j : ℕ) → holds b' j ≡ (if hit j then value else holds b j)

mark-IsValid : (b : Bitmap) (i : ℕ) → IsValid b → IsValid (bitmap_mark b i)
unfolding bitmap_mark
mark-IsValid b i v = update-IsValid b (elem_idx i) (λ w. bit_or w (bit_mask i)) v

reset-IsValid : (b : Bitmap) (i : ℕ) → IsValid b → IsValid (bitmap_reset b i)
unfolding bitmap_reset
reset-IsValid b i v =
    update-IsValid b (elem_idx i) (λ w. bit_and w (2 ^ elem_bits - 1 - bit_mask i)) v

size-mark : (b : Bitmap) (i : ℕ) → (bitmap_mark b i).bit_cnt ≡ b.bit_cnt
unfolding bitmap_mark
size-mark b i = refl

size-reset : (b : Bitmap) (i : ℕ) → (bitmap_reset b i).bit_cnt ≡ b.bit_cnt
unfolding bitmap_reset
size-reset b i = refl

-- `bitmap_set` on a bit of a valid bitmap does not panic, writes the value to it and changes no other.
pub set-Wrote :
    {b : Bitmap} (i : ℕ) (value : Bool)
    → IsValid b
    → i < b.bit_cnt
    → (b' : Bitmap) × (bitmap_set b i value ≡ runs b') × Wrote b b' (λ j. i == j) value
unfolding bitmap_set
set-Wrote {b} i true v lt = (
  bitmap_mark b i,
  rw (lt→ltb i b.bit_cnt lt),
  record { valid = mark-IsValid b i v; size = size-mark b i; bits = holds-mark i v lt },
)
set-Wrote {b} i false v lt = (
  bitmap_reset b i,
  rw (lt→ltb i b.bit_cnt lt),
  record { valid = reset-IsValid b i v; size = size-reset b i; bits = holds-reset i v lt },
)
