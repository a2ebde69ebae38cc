-- ===== src/FreeMap.antt =====
-- The map of free disk sectors: linuxpintos/src/filesys/free-map.c. How the write of the map to its file
-- ends is an argument of the calls that write: `none` for a complete write, or the words that the file
-- holds after a short one. A call is modelled as running alone: `free_map_release` holds a lock for that,
-- `free_map_allocate` does not.
pub mod Allocate
mod Tests
use tddb68_collab.Base.{ℕ, Bool, true, false, Option, none, some, List, ◌==◌, if◌then◌else◌}
use tddb68_collab.Base.Kernel.{Kernel, runs, panics, ◌>>=◌, ◌>>◌, assert}
use tddb68_collab.Bitmap.{
  Bitmap, bitmap_error, bitmap_create, bitmap_mark, bitmap_all, bitmap_scan_and_flip,
  bitmap_set_multiple,
}

-- `free_map`, and the words in the file of the map, if it is open.
pub record FreeMap : Type 0 where
  pub free_map : Bitmap
  pub free_map_file : Option (List ℕ)

abbrev pub free_map_sector : ℕ
free_map_sector = 0

abbrev pub root_dir_sector : ℕ
root_dir_sector = 1

-- What the file holds after `bitmap_write`, if it is open.
abbrev pub write_map : Bitmap → Option (List ℕ) → (short : Option (List ℕ)) → Option (List ℕ)
write_map b none short = none
write_map b (some old) none = some b.bits
write_map b (some old) (some words) = some words

-- The memory arguments are those of `bitmap_create`.
pub free_map_init : (disk_size : ℕ) → Bool → Option (List ℕ) → Kernel FreeMap
free_map_init disk_size room words = do
  created ← bitmap_create disk_size room words
  elim created [
    | none ↦ panics
    | some b ↦ runs (record {
      free_map = bitmap_mark (bitmap_mark b free_map_sector) root_dir_sector;
      free_map_file = none;
    })
  ]

-- The part of `free_map_allocate` after the scan.
record_sectors :
    Option (List ℕ) → (cnt sector : ℕ) → Bitmap → Option (List ℕ) → Kernel (Option ℕ × FreeMap)
record_sectors file cnt sector b short =
    let kept =
      runs (some sector, record { free_map = b; free_map_file = write_map b file short }) in
    let undone = do
      b' ← bitmap_set_multiple b sector cnt false
      runs (none, record { free_map = b'; free_map_file = write_map b file short })
    in if sector == bitmap_error
      then runs (none, record { free_map = b; free_map_file = file })
      else elim file [ none ↦ kept | some old ↦ elim short [ none ↦ kept | some words ↦ undone ] ]

-- The first of the sectors, or `none` for false.
pub free_map_allocate :
    FreeMap → (cnt : ℕ) → (short : Option (List ℕ)) → Kernel (Option ℕ × FreeMap)
free_map_allocate m cnt short = do
  (sector, b) ← bitmap_scan_and_flip m.free_map 0 cnt false
  record_sectors m.free_map_file cnt sector b short

pub free_map_release : FreeMap → (sector cnt : ℕ) → (short : Option (List ℕ)) → Kernel FreeMap
free_map_release m sector cnt short = do
  all ← bitmap_all m.free_map sector cnt
  assert all
  b ← bitmap_set_multiple m.free_map sector cnt false
  runs (record { free_map = b; free_map_file = write_map b m.free_map_file short })
