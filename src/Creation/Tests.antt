-- ===== src/Creation/Tests.antt =====
-- Creating an inode on a disk of eight sectors: linuxpintos/src/filesys/inode.c.
use tddb68_collab.Base.{◌+◌, ◌*◌, ◌%◌, ◌≡◌, refl, true, none, some, [], ◌∷◌}
use tddb68_collab.Base.Int.{negsuc}
use tddb68_collab.Base.Kernel.{runs, panics, ◌>>=◌}
use tddb68_collab.Inode.{Disk, disk_read, disk_write}
use tddb68_collab.FreeMap.{FreeMap}
use tddb68_collab.Creation.{bytes_of_inode, read_inode, inode_create}

abbrev disk : Disk
disk = record { capacity = 8; sectors = λ s k. (s * 100 + k) % 256 }

-- The sectors of the map, of the root directory and of the new inode are taken.
abbrev map : FreeMap
map = record {
  free_map = record { bit_cnt = 8; bits = 0b111 ∷ [] };
  free_map_file = some (0b111 ∷ []);
}

-- The magic number is behind the first two words.
magic : bytes_of_inode (record { start = 3; length = 700 }) 8 ≡ 0x44
unfolding bytes_of_inode
magic = refl

read_back :
    (do d ← disk_write disk 2 (bytes_of_inode (record { start = 3; length = 700 })); read_inode d 2)
    ≡ runs (record { start = 3; length = 700 })
unfolding disk_write read_inode disk_read bytes_of_inode
read_back = refl

create_negative : inode_create disk map true none 2 (negsuc 0) ≡ panics
unfolding inode_create
create_negative = refl
