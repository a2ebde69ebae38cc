-- ===== src/Bitmap/Create.antt =====
-- New bitmaps: `bitmap_create` and `bitmap_create_in_buf` of linuxpintos/src/lib/kernel/bitmap.c.
use tddb68_collab.Base.{ℕ, ◌+◌, ◌^◌, ◌≤◌, ◌<◌, ◌≡◌, true, false, some, List, length, arith, le→leb}
use tddb68_collab.Base.Kernel.{runs}
use tddb68_collab.Bitmap.{
  Bitmap, elem_cnt, bitmap_buf_size, bitmap_set_all, bitmap_create, bitmap_create_in_buf,
}
use tddb68_collab.Bitmap.Bits.{IsValid, holds}
use tddb68_collab.Bitmap.Range.{set_all-Wrote}

-- A valid bitmap of `bit_cnt` bits, all clear.
pub record IsClear (bit_cnt : ℕ) (b : Bitmap) : Type 0 where
  pub valid : IsValid b
  pub size : b.bit_cnt ≡ bit_cnt
  pub clear : (j : ℕ) → j < bit_cnt → holds b j ≡ false

set_all-IsClear :
    (bit_cnt : ℕ) (words : List ℕ)
    → bit_cnt + 31 < 2 ^ 32
    → length words ≡ elem_cnt bit_cnt
    → (b : Bitmap) × (bitmap_set_all (record { bit_cnt = bit_cnt; bits = words }) false ≡ runs b)
      × IsClear bit_cnt b
set_all-IsClear bit_cnt words small e =
    let (b, run, w) =
      set_all-Wrote (record { bit_cnt = bit_cnt; bits = words }) false
        (record { room = omega arith; small = omega arith }) in
    (b, run, record { valid = w.valid; size = w.size; clear = λ j lt. ground (arith, w.bits j) })

-- With both blocks of memory, `bitmap_create` gives a valid bitmap of the size asked for with every bit
-- clear, whatever the memory held before, if rounding the size up to words does not wrap.
pub create-IsClear :
    (bit_cnt : ℕ) (words : List ℕ)
    → bit_cnt + 31 < 2 ^ 32
    → length words ≡ elem_cnt bit_cnt
    → (b : Bitmap) × (bitmap_create bit_cnt true (some words) ≡ runs (some b)) × IsClear bit_cnt b
unfolding bitmap_create
create-IsClear bit_cnt words small e =
    let (b, run, c) = set_all-IsClear bit_cnt words small e in (b, ground (arith, run), c)

-- So does `bitmap_create_in_buf` in a block that is large enough.
pub create_in_buf-IsClear :
    (bit_cnt block_size : ℕ) (words : List ℕ)
    → bit_cnt + 31 < 2 ^ 32
    → length words ≡ elem_cnt bit_cnt
    → bitmap_buf_size bit_cnt ≤ block_size
    → (b : Bitmap) × (bitmap_create_in_buf bit_cnt block_size words ≡ runs b) × IsClear bit_cnt b
unfolding bitmap_create_in_buf
create_in_buf-IsClear bit_cnt block_size words small e le =
    let (b, run, c) = set_all-IsClear bit_cnt words small e in
    (b, rw (le→leb (bitmap_buf_size bit_cnt) block_size le) run, c)
