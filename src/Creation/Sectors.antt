-- ===== src/Creation/Sectors.antt =====
-- The sectors that `inode_create` of linuxpintos/src/filesys/inode.c writes.
use tddb68_collab.Base.{
  ℕ, zero, suc, ◌+◌, ◌%◌, ◌^◌, ◌≤◌, ◌<◌, ◌≡◌, refl, ◌∙◌, ◌&&◌, ltb, leb, if◌then◌else◌, arith,
  lt→ltb,
}
use tddb68_collab.Base.Kernel.{runs}
use tddb68_collab.Inode.{Bytes, Disk, InodeDisk, disk_read, disk_write, put_sector}
use tddb68_collab.Creation.{word_byte, bytes_of_inode, word_at, read_inode, write_zeros}

pub record Zeroed (d : Disk) (sector count : ℕ) (e : Disk) : Type 0 where
  pub size : e.capacity ≡ d.capacity
  pub bytes :
      (s k : ℕ)
      → e.sectors s k ≡ (if leb sector s && ltb s (sector + count) then 0 else d.sectors s k)

pub disk_write_lem :
    (d : Disk) (sec_no : ℕ) (bytes : Bytes)
    → sec_no < d.capacity
    → disk_write d sec_no bytes ≡ runs (put_sector d sec_no bytes)
unfolding disk_write
disk_write_lem d sec_no bytes h = rw (lt→ltb sec_no d.capacity h) refl

pub write_zeros_lem :
    (count sector : ℕ) (d : Disk)
    → sector + count ≤ d.capacity
    → d.capacity ≤ 2 ^ 32
    → (e : Disk) × (write_zeros count sector d ≡ runs e) × Zeroed d sector count e
unfolding write_zeros
write_zeros_lem zero sector d h l = (d, refl, record { size = refl; bytes = λ s k. ground arith })
write_zeros_lem (suc count) sector d h l =
    let d' = put_sector d (sector % 2 ^ 32) (λ k. 0) in
    let (e, run, z) = write_zeros_lem count (sector + 1) d' (omega (arith, h)) l in
    let low : sector % 2 ^ 32 ≡ sector = omega (arith, h, l) in
    (
      e,
      rw (disk_write_lem d (sector % 2 ^ 32) (λ k. 0) (omega (arith, h, l))) run,
      record { size = z.size; bytes = λ s k. z.bytes s k ∙ ground (arith, low) },
    )

word_at-word_byte :
    (b : Bytes) (ofs n : ℕ)
    → n < 2 ^ 32
    → b ofs ≡ word_byte n 0
    → b (ofs + 1) ≡ word_byte n 1
    → b (ofs + 2) ≡ word_byte n 2
    → b (ofs + 3) ≡ word_byte n 3
    → word_at b ofs ≡ n
word_at-word_byte b ofs n h h0 h1 h2 h3 = omega arith

pub read_inode_lem :
    (d : Disk) (i : InodeDisk) (sector : ℕ)
    → sector < d.capacity
    → i.start < 2 ^ 32
    → i.length < 2 ^ 32
    → ((k : ℕ) → d.sectors sector k ≡ bytes_of_inode i k)
    → read_inode d sector ≡ runs i
unfolding read_inode disk_read bytes_of_inode
read_inode_lem d i sector h s l same =
    let b = d.sectors sector in
    let start : word_at b 0 ≡ i.start =
      word_at-word_byte b 0 i.start s (same 0) (same 1) (same 2) (same 3) in
    let size : word_at b 4 ≡ i.length =
      word_at-word_byte b 4 i.length l (same 4) (same 5) (same 6) (same 7) in
    rw (lt→ltb sector d.capacity h) cc
