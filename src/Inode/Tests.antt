-- ===== src/Inode/Tests.antt =====
-- Runs on a disk of eight sectors: linuxpintos/src/filesys/inode.c.
use tddb68_collab.Base.{
  ℕ, ◌+◌, ◌-◌, ◌*◌, ◌%◌, ◌≤◌, ◌<◌, ◌≡◌, refl, true, min, ltb, if◌then◌else◌, arith,
}
use tddb68_collab.Base.Int.{pos, negsuc}
use tddb68_collab.Base.Kernel.{Kernel, runs, ◌>>=◌}
use tddb68_collab.Inode.{
  Bytes, Disk, InodeDisk, disk_read, byte_to_sector, chunk_size, read_chunk, read_from,
  inode_read_at, inode_write_at,
}
use tddb68_collab.Base.{[], ◌∷◌}
use tddb68_collab.Synch.{sema_init, sema_down, sema_up}
use tddb68_collab.Inode.Readers.{
  new_gate, outside, wants_read, first_test, wants_gate, counting, counted, reading, wants_write,
  advance, System, goes, reads, writes, Reach, start, next,
}
use tddb68_collab.Inode.Readers.Exclusion.{readers_in, writers_in, readers_exclude_writers}
use tddb68_collab.Inode.Reading.{content, IsPlaced, inode_read_at_lem}
use tddb68_collab.Inode.Writing.{Wrote, inode_write_at_lem}

abbrev disk : Disk
disk = record { capacity = 8; sectors = λ s k. (s * 100 + k) % 256 }

-- A file of three sectors, the last one not full.
abbrev file : InodeDisk
file = record { start = 2; length = 1100 }

file-IsPlaced : IsPlaced disk file
file-IsPlaced = record { within = omega arith; addressable = omega arith }

abbrev zeros : Bytes
zeros a = 0

abbrev ones : Bytes
ones a = 1

abbrev read_byte : Kernel (Bytes × ℕ) → (a : ℕ) → Kernel (ℕ × ℕ)
read_byte r a = do (b, n) ← r; runs (b a, n)

-- The read ends with the file, in its third sector.
read_over_end : read_byte (inode_read_at disk file true zeros (pos 2000) 500) 520 ≡ runs (40, 600)
unfolding inode_read_at read_from read_chunk chunk_size byte_to_sector disk_read
read_over_end = refl

read_negative : read_byte (inode_read_at disk file true ones (negsuc 4) 0) 0 ≡ runs (1, 0)
unfolding inode_read_at read_from
read_negative = refl

inode_read_at_lem_example :
    (b : Bytes) × (n : ℕ) × (inode_read_at disk file true zeros (pos 700) 500 ≡ runs (b, n))
    × (n ≤ min 700 (1100 - 500))
    × (◌≡◌ true true → n ≡ min 700 (1100 - 500))
    × ((a : ℕ) → b a ≡ (if ltb a n then content disk file (500 + a) else zeros a))
inode_read_at_lem_example = inode_read_at_lem true zeros (pos 700) 500 file-IsPlaced

inode_write_at_lem_example :
    (e : Disk) × (n : ℕ) × (inode_write_at disk file 0 true ones (pos 700) 500 ≡ runs (e, n))
    × (n ≤ min 700 (1100 - 500))
    × (◌≡◌ true true → ◌≡◌ {A = ℕ} 0 0 → n ≡ min 700 (1100 - 500))
    × Wrote disk file ones 500 0 n e
inode_write_at_lem_example = inode_write_at_lem 0 true ones (pos 700) 500 file-IsPlaced

-- One thread reads, the other waits to write.
abbrev shared : System
shared = record {
  gate = record {
    r_sema = record { value = 1; waiters = [] };
    w_sema = record { value = 0; waiters = 1 ∷ [] };
    n_readers = 1;
  };
  threads = reading ∷ wants_write ∷ [];
}

shared-Reach : Reach shared
unfolding advance sema_down sema_up new_gate sema_init
shared-Reach =
    let asked =
      next (next (start 2) (reads [] (outside ∷ []) refl))
        (goes [] wants_read (outside ∷ []) refl) in
    let first =
      next (next asked (goes [] first_test (outside ∷ []) refl))
        (goes [] wants_gate (outside ∷ []) refl) in
    let inside =
      next (next first (goes [] counting (outside ∷ []) refl))
        (goes [] counted (outside ∷ []) refl) in
    next (next inside (writes (reading ∷ []) [] refl)) (goes (reading ∷ []) wants_write [] refl)

readers_exclude_writers_example :
    (writers_in shared.threads ≤ 1)
    × (0 < readers_in shared.threads → writers_in shared.threads ≡ 0)
readers_exclude_writers_example = readers_exclude_writers shared-Reach
