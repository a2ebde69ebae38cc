-- ===== src/Bitmap.antt =====
-- The bitmaps of linuxpintos/src/lib/kernel/bitmap.c: an array of 32-bit words, read and written a
-- bit at a time. `size_t` sums wrap at 2 ^ 32; a failed ASSERT is `panics`.
pub mod Bits
pub mod Range
pub mod Scan
pub mod Create
mod Tests
use Prim.Native.Nat.{bit_and, bit_or, bit_xor}
use tddb68_collab.Base.{
  ℕ, zero, suc, ◌+◌, ◌-◌, ◌*◌, ◌/◌, ◌%◌, ◌^◌, ◌≤◌, ◌<◌, Bool, true, false, not, Option, none, some,
  List, length, get_or, set, ltb, leb, ◌==◌, ◌||◌, if◌then◌else◌, [],
}
use tddb68_collab.Base.Kernel.{Kernel, runs, ◌>>=◌, ◌>>◌, assert}

-- sizeof (elem_type) * CHAR_BIT
abbrev pub elem_bits : ℕ
elem_bits = 32

-- `struct bitmap`
pub record Bitmap : Type 0 where
  pub bit_cnt : ℕ
  pub bits : List ℕ

-- SIZE_MAX
abbrev pub bitmap_error : ℕ
bitmap_error = 2 ^ 32 - 1

abbrev pub add_size : ℕ → ℕ → ℕ
add_size a b = (a + b) % 2 ^ 32

abbrev pub elem_idx : ℕ → ℕ
elem_idx bit_idx = bit_idx / elem_bits

-- (elem_type) 1 << (bit_idx % ELEM_BITS)
abbrev pub bit_mask : ℕ → ℕ
bit_mask bit_idx = 2 ^ (bit_idx % elem_bits)

-- DIV_ROUND_UP (bit_cnt, ELEM_BITS)
abbrev pub elem_cnt : ℕ → ℕ
elem_cnt bit_cnt = add_size bit_cnt (elem_bits - 1) / elem_bits

abbrev pub byte_cnt : ℕ → ℕ
byte_cnt bit_cnt = 4 * elem_cnt bit_cnt

-- sizeof (struct bitmap) is 8.
abbrev pub bitmap_buf_size : ℕ → ℕ
bitmap_buf_size bit_cnt = 8 + byte_cnt bit_cnt

abbrev pub bitmap_size : Bitmap → ℕ
bitmap_size b = b.bit_cnt

-- b->bits[idx] = f (b->bits[idx])
abbrev update : Bitmap → ℕ → (ℕ → ℕ) → Bitmap
update b idx f = record b { bits = set b.bits idx (f (get_or b.bits idx 0)) }

unfoldable pub bitmap_mark : Bitmap → ℕ → Bitmap
bitmap_mark b bit_idx = update b (elem_idx bit_idx) λ w. bit_or w (bit_mask bit_idx)

-- ~mask is 2 ^ 32 - 1 - mask.
unfoldable pub bitmap_reset : Bitmap → ℕ → Bitmap
bitmap_reset b bit_idx =
    update b (elem_idx bit_idx) λ w. bit_and w (2 ^ elem_bits - 1 - bit_mask bit_idx)

pub bitmap_flip : Bitmap → ℕ → Bitmap
bitmap_flip b bit_idx = update b (elem_idx bit_idx) λ w. bit_xor w (bit_mask bit_idx)

unfoldable pub bitmap_set : Bitmap → ℕ → Bool → Kernel Bitmap
bitmap_set b idx value = do
  assert (ltb idx b.bit_cnt)
  runs (if value then bitmap_mark b idx else bitmap_reset b idx)

unfoldable pub bitmap_test : Bitmap → ℕ → Kernel Bool
bitmap_test b idx = do
  assert (ltb idx b.bit_cnt)
  runs (not (bit_and (get_or b.bits (elem_idx idx) 0) (bit_mask idx) == 0))

-- The loop of `bitmap_set_multiple` with `n` rounds to go, the next at bit `i`.
unfoldable pub set_from : Bitmap → (i n : ℕ) → Bool → Kernel Bitmap
set_from b i zero value = runs b
set_from b i (suc n) value = do b' ← bitmap_set b i value; set_from b' (add_size i 1) n value

unfoldable pub bitmap_set_multiple : Bitmap → (start cnt : ℕ) → Bool → Kernel Bitmap
bitmap_set_multiple b start cnt value = do
  assert (leb start b.bit_cnt)
  assert (leb (add_size start cnt) b.bit_cnt)
  set_from b start cnt value

unfoldable pub bitmap_set_all : Bitmap → Bool → Kernel Bitmap
bitmap_set_all b value = bitmap_set_multiple b 0 (bitmap_size b) value

-- `==` on bool
abbrev pub same : Bool → Bool → Bool
same true value = value
same false value = not value

-- The loop of `bitmap_count`, with `value_cnt` bits found so far.
pub count_from : Bitmap → (i n : ℕ) → Bool → (value_cnt : ℕ) → Kernel ℕ
count_from b i zero value value_cnt = runs value_cnt
count_from b i (suc n) value value_cnt = do
  t ← bitmap_test b i
  count_from b (add_size i 1) n value (if same t value then value_cnt + 1 else value_cnt)

pub bitmap_count : Bitmap → (start cnt : ℕ) → Bool → Kernel ℕ
bitmap_count b start cnt value = do
  assert (leb start b.bit_cnt)
  assert (leb (add_size start cnt) b.bit_cnt)
  count_from b start cnt value 0

-- The loop of `bitmap_contains`.
unfoldable pub contains_from : Bitmap → (i n : ℕ) → Bool → Kernel Bool
contains_from b i zero value = runs false
contains_from b i (suc n) value = do
  t ← bitmap_test b i
  elim (same t value) [ true ↦ runs true | false ↦ contains_from b (add_size i 1) n value ]

unfoldable pub bitmap_contains : Bitmap → (start cnt : ℕ) → Bool → Kernel Bool
bitmap_contains b start cnt value = do
  assert (leb start b.bit_cnt)
  assert (leb (add_size start cnt) b.bit_cnt)
  contains_from b start cnt value

pub bitmap_any : Bitmap → (start cnt : ℕ) → Kernel Bool
bitmap_any b start cnt = bitmap_contains b start cnt true

pub bitmap_none : Bitmap → (start cnt : ℕ) → Kernel Bool
bitmap_none b start cnt = do c ← bitmap_contains b start cnt true; runs (not c)

unfoldable pub bitmap_all : Bitmap → (start cnt : ℕ) → Kernel Bool
bitmap_all b start cnt = do c ← bitmap_contains b start cnt false; runs (not c)

-- The loop of `bitmap_scan` with `n` candidates to go, the next at bit `i`.
unfoldable pub scan_from : Bitmap → (i n cnt : ℕ) → Bool → Kernel ℕ
scan_from b i zero cnt value = runs bitmap_error
scan_from b i (suc n) cnt value = do
  c ← bitmap_contains b i cnt (not value)
  elim c [ true ↦ scan_from b (add_size i 1) n cnt value | false ↦ runs i ]

-- The loop runs while `i <= last`, from `start` on: `last + 1 - start` times at most.
unfoldable pub bitmap_scan : Bitmap → (start cnt : ℕ) → Bool → Kernel ℕ
bitmap_scan b start cnt value = do
  assert (leb start b.bit_cnt)
  let last = b.bit_cnt - cnt
  if leb cnt b.bit_cnt then scan_from b start (last + 1 - start) cnt value else runs bitmap_error

-- `if (idx != BITMAP_ERROR) bitmap_set_multiple (b, idx, cnt, !value)`
unfoldable pub flip_group : Bitmap → (idx cnt : ℕ) → Bool → Kernel Bitmap
flip_group b idx cnt value =
    if idx == bitmap_error then runs b else bitmap_set_multiple b idx cnt (not value)

unfoldable pub bitmap_scan_and_flip : Bitmap → (start cnt : ℕ) → Bool → Kernel (ℕ × Bitmap)
bitmap_scan_and_flip b start cnt value = do
  idx ← bitmap_scan b start cnt value
  b' ← flip_group b idx cnt value
  runs (idx, b')

-- What the two calls of `malloc` give: whether there is room for the struct, and the words of the
-- array, with what stood there before, or a null pointer.
unfoldable pub bitmap_create : (bit_cnt : ℕ) → Bool → Option (List ℕ) → Kernel (Option Bitmap)
bitmap_create bit_cnt false words = runs none
bitmap_create bit_cnt true (some words) = do
  b ← bitmap_set_all (record { bit_cnt = bit_cnt; bits = words }) false
  runs (some b)
bitmap_create bit_cnt true none =
    let rest = do b ← bitmap_set_all (record { bit_cnt = bit_cnt; bits = [] }) false; runs (some b)
    in if bit_cnt == 0 then rest else runs none

-- The words are those of the block behind the struct.
unfoldable pub bitmap_create_in_buf : (bit_cnt block_size : ℕ) → List ℕ → Kernel Bitmap
bitmap_create_in_buf bit_cnt block_size words = do
  assert (leb (bitmap_buf_size bit_cnt) block_size)
  bitmap_set_all (record { bit_cnt = bit_cnt; bits = words }) false
