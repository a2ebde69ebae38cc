-- ===== src/Bitmap/Tests.antt =====
-- Tests of the bitmaps and the theorems about them at concrete bitmaps:
-- linuxpintos/src/lib/kernel/bitmap.c.
use tddb68_collab.Base.{ℕ, ◌≡◌, refl, false, [], ◌∷◌, arith}
use tddb68_collab.Base.Kernel.{runs, panics}
use tddb68_collab.Bitmap.{
  Bitmap, scan_from, contains_from, flip_group, set_from, bitmap_mark, bitmap_flip, bitmap_set,
  bitmap_test, bitmap_set_multiple, bitmap_contains, bitmap_scan, bitmap_scan_and_flip,
}
use tddb68_collab.Bitmap.Bits.{IsValid}
use tddb68_collab.Bitmap.Scan.{Flipped, scan_and_flip-Flipped}

-- 40 bits in two words; bits 0, 1, 3 and 33 are set.
abbrev sample : Bitmap
sample = record { bit_cnt = 40; bits = 0b1011 ∷ 0b10 ∷ [] }

sample-IsValid : IsValid sample
sample-IsValid = record { room = omega arith; small = omega arith }

scan_sample :
    bitmap_scan_and_flip sample 0 4 false
    ≡ runs (4, record { bit_cnt = 40; bits = 0b11111011 ∷ 0b10 ∷ [] })
unfolding bitmap_scan_and_flip bitmap_scan scan_from bitmap_contains contains_from bitmap_test
    flip_group bitmap_set_multiple set_from bitmap_set bitmap_mark
scan_sample = refl

flip_sample : bitmap_flip sample 33 ≡ record { bit_cnt = 40; bits = 0b1011 ∷ 0 ∷ [] }
unfolding bitmap_flip
flip_sample = refl

test_past_the_end : bitmap_test sample 40 ≡ panics
unfolding bitmap_test
test_past_the_end = refl

-- With a count of zero the start comes back, whatever it is.
scan_for_nothing : bitmap_scan_and_flip sample 3 0 false ≡ runs (3, sample)
unfolding bitmap_scan_and_flip bitmap_scan scan_from bitmap_contains contains_from bitmap_test
    flip_group bitmap_set_multiple set_from bitmap_set bitmap_mark
scan_for_nothing = refl

scan_and_flip-Flipped_example :
    (r : ℕ) × (b' : Bitmap) × (bitmap_scan_and_flip sample 0 4 false ≡ runs (r, b'))
    × Flipped sample 0 4 false r b'
scan_and_flip-Flipped_example =
    scan_and_flip-Flipped 0 4 false sample-IsValid (omega arith) (omega arith)
