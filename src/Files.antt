-- ===== src/Files.antt =====
-- Reading and writing a file at its position: linuxpintos/src/filesys/file.c, on the inodes of Inode. The file is one
-- that was opened, so it is not null; `i` is what the disk says of its inode.
pub mod Positions
mod Tests
use tddb68_collab.Base.{ℕ, ◌+◌, Bool, not}
use tddb68_collab.Base.Int.{ℤ, pos, pos_part, ltb_ℤ}
use tddb68_collab.Base.Kernel.{Kernel, runs, ◌>>=◌, ◌>>◌, assert}
use tddb68_collab.Inode.{Bytes, Disk, InodeDisk, inode_read_at, inode_write_at}
use tddb68_collab.Opens.{OpenFile}

abbrev pub file_get_inode : OpenFile → ℕ
file_get_inode f = f.inode

abbrev pub inode_length : InodeDisk → ℕ
inode_length i = i.length

-- `file->pos += bytes`. The sum is at most the length of the file, or the bytes are 0.
abbrev pub advanced : OpenFile → (bytes : ℕ) → OpenFile
advanced f bytes = record f { pos = f.pos + bytes }

-- The file, the buffer and the number of bytes read.
unfoldable pub file_read :
    Disk → InodeDisk → (room : Bool) → OpenFile → Bytes → (size : ℤ) → Kernel (OpenFile × Bytes × ℕ)
file_read d i room f buffer size = do
  (b, bytes_read) ← inode_read_at d i room buffer size f.pos
  runs (advanced f bytes_read, b, bytes_read)

abbrev pub file_read_at :
    Disk → InodeDisk → (room : Bool) → Bytes → (size : ℤ) → (file_ofs : ℕ) → Kernel (Bytes × ℕ)
file_read_at d i room buffer size file_ofs = inode_read_at d i room buffer size file_ofs

-- The file, the disk and the number of bytes written.
unfoldable pub file_write :
    Disk
    → InodeDisk
    → (deny_write_cnt : ℕ) → (room : Bool) → OpenFile
    → Bytes
    → (size : ℤ) → Kernel (OpenFile × Disk × ℕ)
file_write d i deny_write_cnt room f buffer size = do
  (e, bytes_written) ← inode_write_at d i deny_write_cnt room buffer size f.pos
  runs (advanced f bytes_written, e, bytes_written)

abbrev pub file_write_at :
    Disk
    → InodeDisk
    → (deny_write_cnt : ℕ) → (room : Bool) → Bytes
    → (size : ℤ) → (file_ofs : ℕ) → Kernel (Disk × ℕ)
file_write_at d i deny_write_cnt room buffer size file_ofs =
    inode_write_at d i deny_write_cnt room buffer size file_ofs

abbrev pub file_length : InodeDisk → ℕ
file_length i = inode_length i

unfoldable pub file_seek : OpenFile → (new_pos : ℤ) → Kernel OpenFile
file_seek f new_pos = do
  assert (not (ltb_ℤ new_pos (pos 0)))
  runs (record f { pos = pos_part new_pos })

abbrev pub file_tell : OpenFile → ℕ
file_tell f = f.pos
