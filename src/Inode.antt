-- ===== src/Inode.antt =====
-- Reading and writing an inode: linuxpintos/src/filesys/inode.c, on a disk whose sectors are read and written whole.
-- The semaphores that `inode_read_at` and `inode_write_at` hold around their loops are in Inode/Readers, the list of
-- open inodes in Opens. `off_t` values are natural numbers where the code asserts or
-- computes that they are not negative.
pub mod Reading
pub mod Writing
pub mod Readers
mod Tests
use tddb68_collab.Base.{
  ℕ, zero, suc, ◌+◌, ◌-◌, ◌/◌, ◌%◌, ◌^◌, Bool, true, false, not, ◌&&◌, ◌||◌, Option, none, some,
  ◌==◌, ltb, leb, if◌then◌else◌,
}
use tddb68_collab.Base.Int.{ℤ, pos_part}
use tddb68_collab.Base.Kernel.{Kernel, runs, panics, ◌>>=◌, ◌>>◌, assert}

abbrev pub disk_sector_size : ℕ
disk_sector_size = 512

-- The bytes of a sector, or of a buffer from its start.
abbrev pub Bytes : Type 0
Bytes = ℕ → ℕ

-- `struct disk`, with what its sectors hold.
pub record Disk : Type 0 where
  pub capacity : ℕ
  pub sectors : ℕ → Bytes

-- `disk_read` and `disk_write` of devices/disk.c, on a disk that does what they ask of it.
unfoldable pub disk_read : Disk → (sec_no : ℕ) → Kernel Bytes
disk_read d sec_no = do assert (ltb sec_no d.capacity); runs (d.sectors sec_no)

abbrev pub put_sector : Disk → (sec_no : ℕ) → Bytes → Disk
put_sector d sec_no bytes = record d { sectors = λ s. if s == sec_no then bytes else d.sectors s }

unfoldable pub disk_write : Disk → (sec_no : ℕ) → Bytes → Kernel Disk
disk_write d sec_no bytes = do assert (ltb sec_no d.capacity); runs (put_sector d sec_no bytes)

-- `struct inode_disk`
pub record InodeDisk : Type 0 where
  pub start : ℕ
  pub length : ℕ

abbrev pub bytes_to_sectors : (size : ℕ) → ℕ
bytes_to_sectors size = (size + disk_sector_size - 1) / disk_sector_size

-- The result -1 is the largest sector number.
unfoldable pub byte_to_sector : InodeDisk → (pos : ℕ) → ℕ
byte_to_sector i pos =
    if ltb pos i.length then (i.start + pos / disk_sector_size) % 2 ^ 32 else 2 ^ 32 - 1

abbrev pub sector_left : (offset : ℕ) → ℕ
sector_left offset = disk_sector_size - offset % disk_sector_size

-- The bytes to copy in one round. Behind the end of the file `inode_left` and with it the chunk is not positive; here
-- it is 0, with the same test after it.
unfoldable pub chunk_size : InodeDisk → (size offset : ℕ) → ℕ
chunk_size i size offset =
    let inode_left = i.length - offset in
    let min_left = if ltb inode_left (sector_left offset) then inode_left else sector_left offset in
    if ltb size min_left then size else min_left

-- `memcpy (to + at, from + ofs, cnt)` between buffers that do not overlap.
abbrev pub copied : (to : Bytes) → (at : ℕ) → (from : Bytes) → (ofs cnt : ℕ) → Bytes
copied to at from ofs cnt a = if leb at a && ltb a (at + cnt) then from (ofs + (a - at)) else to a

-- The body of the loop of `inode_read_at` behind the test of `chunk_size`; `none` for `break`. The argument `room` says
-- whether `malloc` has room for the bounce buffer, of which the code asks it until it once gets it.
unfoldable pub read_chunk :
    Disk
    → InodeDisk
    → (room : Bool) → (offset chunk : ℕ) → Bytes
    → (bytes_read : ℕ) → Kernel (Option Bytes)
read_chunk d i room offset chunk buffer bytes_read =
    let sector_idx = byte_to_sector i offset in
    let sector_ofs = offset % disk_sector_size in
    let whole = do
      s ← disk_read d sector_idx
      runs (some (copied buffer bytes_read s 0 disk_sector_size))
    in let part = do
      bounce ← disk_read d sector_idx
      runs (some (copied buffer bytes_read bounce sector_ofs chunk))
      in if sector_ofs == 0 && chunk == disk_sector_size
        then whole
        else if room
        then part
        else runs none

-- The loop of `inode_read_at`. A round takes at least one byte off `size`.
unfoldable pub read_from :
    (rounds : ℕ)
    → Disk
    → InodeDisk
    → (room : Bool) → (size offset : ℕ) → Bytes
    → (bytes_read : ℕ) → Kernel (Bytes × ℕ)
read_from zero d i room size offset buffer bytes_read = runs (buffer, bytes_read)
read_from (suc rounds) d i room size offset buffer bytes_read =
    let chunk = chunk_size i size offset in
    let again = λ (b : Bytes).
      read_from rounds d i room (size - chunk) (offset + chunk) b (bytes_read + chunk) in
    let round = do
      copy ← read_chunk d i room offset chunk buffer bytes_read
      elim copy [ none ↦ runs (buffer, bytes_read) | some b ↦ again b ]
    in if chunk == 0 then runs (buffer, bytes_read) else round

-- The buffer, and the number of bytes read.
unfoldable pub inode_read_at :
    Disk → InodeDisk → (room : Bool) → Bytes → (size : ℤ) → (offset : ℕ) → Kernel (Bytes × ℕ)
inode_read_at d i room buffer size offset =
    read_from (pos_part size) d i room (pos_part size) offset buffer 0

unfoldable pub write_chunk :
    Disk
    → InodeDisk
    → (room : Bool) → (offset chunk : ℕ) → Bytes
    → (bytes_written : ℕ) → Kernel (Option Disk)
write_chunk d i room offset chunk buffer bytes_written =
    let sector_idx = byte_to_sector i offset in
    let sector_ofs = offset % disk_sector_size in
    let whole = do d' ← disk_write d sector_idx (λ k. buffer (bytes_written + k)); runs (some d')
    in let part = do
      bounce ←
          (if ltb 0 sector_ofs || ltb chunk (sector_left offset)
            then disk_read d sector_idx
            else runs (λ k. 0))
      d' ← disk_write d sector_idx (copied bounce sector_ofs buffer bytes_written chunk)
      runs (some d')
      in if sector_ofs == 0 && chunk == disk_sector_size
        then whole
        else if room
        then part
        else runs none

-- The loop of `inode_write_at`.
unfoldable pub write_from :
    (rounds : ℕ)
    → Disk
    → InodeDisk
    → (room : Bool) → (size offset : ℕ) → Bytes
    → (bytes_written : ℕ) → Kernel (Disk × ℕ)
write_from zero d i room size offset buffer bytes_written = runs (d, bytes_written)
write_from (suc rounds) d i room size offset buffer bytes_written =
    let chunk = chunk_size i size offset in
    let again = λ (e : Disk).
      write_from rounds e i room (size - chunk) (offset + chunk) buffer (bytes_written + chunk) in
    let round = do
      after ← write_chunk d i room offset chunk buffer bytes_written
      elim after [ none ↦ runs (d, bytes_written) | some e ↦ again e ]
    in if chunk == 0 then runs (d, bytes_written) else round

-- The disk, and the number of bytes written.
pub inode_write_at :
    Disk
    → InodeDisk
    → (deny_write_cnt : ℕ) → (room : Bool) → Bytes
    → (size : ℤ) → (offset : ℕ) → Kernel (Disk × ℕ)
inode_write_at d i deny_write_cnt room buffer size offset =
    let go = write_from (pos_part size) d i room (pos_part size) offset buffer 0 in
    if deny_write_cnt == 0 then go else runs (d, 0)
