-- ===== src/Creation.antt =====
-- Creating an inode: `inode_create` of linuxpintos/src/filesys/inode.c, on the disk of Inode and the map of FreeMap. It
-- holds a lock around what follows the assertion, so it is modelled as running alone.
pub mod Sectors
pub mod Created
mod Tests
use tddb68_collab.Base.{
  ℕ, zero, suc, ◌+◌, ◌-◌, ◌*◌, ◌/◌, ◌%◌, ◌^◌, Bool, true, false, not, Option, none, some, List, ltb,
  if◌then◌else◌,
}
use tddb68_collab.Base.Int.{ℤ, pos, pos_part, ltb_ℤ}
use tddb68_collab.Base.Kernel.{Kernel, runs, ◌>>=◌, ◌>>◌, assert}
use tddb68_collab.Inode.{Bytes, Disk, InodeDisk, bytes_to_sectors, disk_read, disk_write}
use tddb68_collab.FreeMap.{FreeMap, free_map_allocate}

abbrev pub inode_magic : ℕ
inode_magic = 0x494e4f44

-- Byte `k` of a word in memory, lowest first.
abbrev pub word_byte : (word k : ℕ) → ℕ
word_byte word k = word / 2 ^ (8 * k) % 2 ^ 8

-- The bytes of a `struct inode_disk` from `calloc` that was filled in.
unfoldable pub bytes_of_inode : InodeDisk → Bytes
bytes_of_inode i k =
    if ltb k 4
    then word_byte i.start k
    else if ltb k 8
    then word_byte i.length (k - 4)
    else if ltb k 12
    then word_byte inode_magic (k - 8)
    else 0

-- The word at an offset.
abbrev pub word_at : Bytes → (ofs : ℕ) → ℕ
word_at b ofs = b ofs + 2 ^ 8 * b (ofs + 1) + 2 ^ 16 * b (ofs + 2) + 2 ^ 24 * b (ofs + 3)

-- `disk_read (filesys_disk, inode->sector, &inode->data)` of `inode_open`.
unfoldable pub read_inode : Disk → (sector : ℕ) → Kernel InodeDisk
read_inode d sector = do
  b ← disk_read d sector
  runs (record { start = word_at b 0; length = word_at b 4 })

-- The loop that writes zeros, with the rounds that are left.
unfoldable pub write_zeros : (rounds sector : ℕ) → Disk → Kernel Disk
write_zeros zero sector d = runs d
write_zeros (suc rounds) sector d = do
  d' ← disk_write d (sector % 2 ^ 32) (λ k. 0)
  write_zeros rounds (sector + 1) d'

-- What follows `free_map_allocate`.
unfoldable pub write_inode : Disk → (sector length : ℕ) → (start : Option ℕ) → Kernel (Bool × Disk)
write_inode d sector length none = runs (false, d)
write_inode d sector length (some start) = do
  d' ← disk_write d sector (bytes_of_inode (record { start = start; length = length }))
  e ← write_zeros (bytes_to_sectors length) start d'
  runs (true, e)

-- `room` says whether `calloc` has room.
unfoldable pub inode_create :
    Disk
    → FreeMap
    → (room : Bool) → (short : Option (List ℕ)) → (sector : ℕ) → (length : ℤ)
    → Kernel (Bool × Disk × FreeMap)
inode_create d m room short sector length =
    let create = do
      (start, m') ← free_map_allocate m (bytes_to_sectors (pos_part length)) short
      (success, e) ← write_inode d sector (pos_part length) start
      runs (success, e, m')
    in do assert (not (ltb_ℤ length (pos 0))); if room then create else runs (false, d, m)
