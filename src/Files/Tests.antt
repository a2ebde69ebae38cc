-- ===== src/Files/Tests.antt =====
-- Runs on a file of 1100 bytes: linuxpintos/src/filesys/file.c.
use tddb68_collab.Base.{ℕ, ◌+◌, ◌-◌, ◌*◌, ◌%◌, ◌<◌, ◌≡◌, refl, false, true, min, arith}
use tddb68_collab.Base.Int.{pos, negsuc}
use tddb68_collab.Base.Kernel.{Kernel, runs, panics, ◌>>=◌}
use tddb68_collab.Inode.{
  Bytes, Disk, InodeDisk, disk_read, byte_to_sector, chunk_size, read_chunk, read_from,
  inode_read_at,
}
use tddb68_collab.Inode.Reading.{IsPlaced}
use tddb68_collab.Opens.{OpenFile}
use tddb68_collab.Files.{advanced, file_read, file_write, file_seek, file_tell}
use tddb68_collab.Files.Positions.{file_read-file_write}

abbrev disk : Disk
disk = record { capacity = 8; sectors = λ s k. (s * 100 + k) % 256 }

abbrev inode_data : InodeDisk
inode_data = record { start = 2; length = 1100 }

inode_data-IsPlaced : IsPlaced disk inode_data
inode_data-IsPlaced = record { within = omega arith; addressable = omega arith }

abbrev file : OpenFile
file = record { inode = 1; pos = 500; deny_write = false }

abbrev zeros : Bytes
zeros a = 0

abbrev ones : Bytes
ones a = 1

abbrev position_and_byte : Kernel (OpenFile × Bytes × ℕ) → (a : ℕ) → Kernel (ℕ × ℕ × ℕ)
position_and_byte r a = do (g, b, n) ← r; runs (g.pos, b a, n)

read_to_end :
    position_and_byte (file_read disk inode_data true file zeros (pos 2000)) 520
    ≡ runs (1100, 40, 600)
unfolding file_read inode_read_at read_from read_chunk chunk_size byte_to_sector disk_read
read_to_end = refl

seek_negative : file_seek file (negsuc 0) ≡ panics
unfolding file_seek
seek_negative = refl

file_read-file_write_example :
    (e : Disk) × (b : Bytes) × (n : ℕ) × (n ≡ min 700 (1100 - file_tell file))
    × (file_write disk inode_data 0 true file ones (pos 700) ≡ runs (advanced file n, e, n))
    × ((file_seek (advanced file n) (pos (file_tell file)) >>= λ g.
          file_read e inode_data true g zeros (pos 700))
        ≡ runs (advanced file n, b, n))
    × ((a : ℕ) → a < n → b a ≡ ones a)
file_read-file_write_example = file_read-file_write file ones zeros (pos 700) inode_data-IsPlaced
