-- ===== src/Creation/Created.antt =====
-- What `inode_create` of linuxpintos/src/filesys/inode.c leaves on the disk and in the map of free sectors.
use tddb68_collab.Base.{
  ℕ, ◌+◌, ◌/◌, ◌%◌, ◌^◌, ◌≤◌, ◌<◌, ◌≡◌, ◌≢◌, ◌⊎◌, inl, inr, refl, ◌∙◌, Bool, true, false, not,
  Option, some, List, ◌==◌, arith, Bool-cases,
}
use tddb68_collab.Base.Int.{pos, ltb_ℤ}
use tddb68_collab.Base.Kernel.{runs}
use tddb68_collab.Bitmap.Bits.{holds}
use tddb68_collab.Bitmap.Range.{within}
use tddb68_collab.Inode.{Disk, InodeDisk, disk_sector_size, bytes_to_sectors, put_sector}
use tddb68_collab.Inode.Reading.{content, IsPlaced}
use tddb68_collab.FreeMap.{FreeMap}
use tddb68_collab.FreeMap.Allocate.{
  IsValid, Refused, Allocated, Outcome, allocated, disk_full, write_failed, allocate-Outcome,
}
use tddb68_collab.Creation.{bytes_of_inode, read_inode, write_inode, inode_create}
use tddb68_collab.Creation.Sectors.{disk_write_lem, write_zeros_lem, read_inode_lem}

abbrev pub inode_of : (start length : ℕ) → InodeDisk
inode_of start length = record { start = start; length = length }

-- The inode is in its sector, its file lies on the disk and has zeros only, and the other sectors are as before.
pub record Stored (d : Disk) (sector length start : ℕ) (e : Disk) : Type 0 where
  pub placed : IsPlaced e (inode_of start length)
  pub on_disk : read_inode e sector ≡ runs (inode_of start length)
  pub zeros : (pos : ℕ) → pos < length → content e (inode_of start length) pos ≡ 0
  pub others :
      (s k : ℕ)
      → s ≢ sector
      → within start (bytes_to_sectors length) s ≡ false
      → e.sectors s k ≡ d.sectors s k

-- The sectors of the file are on the disk, and the one of the inode is not among them.
record HasRoom (d : Disk) (sector length start : ℕ) : Type 0 where
  inode_sector : sector < d.capacity
  file : start + bytes_to_sectors length ≤ d.capacity
  apart : within start (bytes_to_sectors length) sector ≡ false
  addressable : d.capacity < 2 ^ 32
  size : length < 2 ^ 31

write_inode_lem :
    {d : Disk} {sector length start : ℕ}
    → HasRoom d sector length start
    → (e : Disk) × (write_inode d sector length (some start) ≡ runs (true, e))
      × Stored d sector length start e
unfolding write_inode
write_inode_lem {d} {sector} {length} {start} r =
    let i = inode_of start length in
    let d' = put_sector d sector (bytes_of_inode i) in
    let self : (sector == sector) ≡ true = ground arith in
    let in_file : (pos : ℕ)
        → pos < length
        → within start (bytes_to_sectors length) (start + pos / disk_sector_size) ≡ true =
      λ pos h.
        let low : pos / disk_sector_size < bytes_to_sectors length = omega arith in
        ground (arith, low) in
    let (e, run, z) =
      write_zeros_lem (bytes_to_sectors length) start d' r.file (omega (arith, r.addressable)) in
    (
      e,
      rw (disk_write_lem d sector (bytes_of_inode i) r.inode_sector) (rw run refl),
      record {
        placed = record {
          within = omega (arith, z.size, r.file);
          addressable = omega (arith, z.size, r.addressable);
        };
        on_disk =
            read_inode_lem e i sector (omega (arith, z.size, r.inode_sector))
              (omega (arith, r.file, r.addressable)) (omega (arith, r.size))
              (λ k. z.bytes sector k ∙ (rw (r.apart, self) refl));
        zeros = λ pos h.
            z.bytes (start + pos / disk_sector_size) (pos % disk_sector_size)
            ∙ (rw (in_file pos h) refl);
        others = λ s k h o.
            z.bytes s k
            ∙ (let other : (s == sector) ≡ false = ground (arith, h) in rw (o, other) refl);
      },
    )

-- What `inode_create` does, by its result.
abbrev pub Creates : Disk → FreeMap → (sector length : ℕ) → Bool → Disk → FreeMap → Type 0
Creates d m sector length success e m' =
    ((success ≡ true)
      × (start : ℕ) × Allocated m (bytes_to_sectors length) start m'
      × Stored d sector length start e)
    ⊎ ((success ≡ false) × (e ≡ d) × Refused m m')

-- A sector that was taken is not one of those that are allocated.
pub taken-apart :
    {m m' : FreeMap} {cnt start : ℕ} (sector : ℕ)
    → Allocated m cnt start m'
    → holds m.free_map sector ≡ true
    → within start cnt sector ≡ false
taken-apart {m} {m'} {cnt} {start} sector a taken = elim (Bool-cases (within start cnt sector)) [
  | inr t ↦ t
  | inl t ↦ (let free = a.group.group sector (ground (arith, t)) (ground (arith, t)) in cc)
]

after_allocate :
    {d : Disk} {m m' : FreeMap} {sector length : ℕ} {short : Option (List ℕ)} {o : Option ℕ}
    → m.free_map.bit_cnt ≡ d.capacity
    → IsValid m
    → sector < d.capacity
    → holds m.free_map sector ≡ true
    → length < 2 ^ 31
    → Outcome m (bytes_to_sectors length) short o m'
    → (success : Bool) × (e : Disk) × (write_inode d sector length o ≡ runs (success, e))
      × Creates d m sector length success e m'
after_allocate {sector = sector} size v h taken small (allocated start eo a) =
    let (e, run, s) = write_inode_lem (record {
      inode_sector = h;
      file = omega (arith, a.group.inside, size);
      apart = taken-apart sector a taken;
      addressable = omega (arith, v.small, size);
      size = small;
    }) in
    (true, e, rw eo run, inl (refl, start, a, s))
after_allocate {d} size v h taken small (disk_full eo n r) =
    (false, d, rw eo (unfold write_inode in refl), inr (refl, refl, r))
after_allocate {d} size v h taken small (write_failed eo n f r) =
    (false, d, rw eo (unfold write_inode in refl), inr (refl, refl, r))

-- `inode_create`, for a sector that is taken in a valid map of the disk: on success the map has the first free group of
-- sectors taken for the file, reading the inode back gives where they are and how long the file is, the file lies on the
-- disk and consists of zeros, and no other sector changed. Otherwise nothing was written to the disk and every sector is
-- as free as it was.
pub inode_create_lem :
    {d : Disk} {m : FreeMap} (room : Bool) (short : Option (List ℕ)) (sector length : ℕ)
    → IsValid m
    → m.free_map.bit_cnt ≡ d.capacity
    → sector < d.capacity
    → holds m.free_map sector ≡ true
    → length < 2 ^ 31
    → (success : Bool) × (e : Disk) × (m' : FreeMap) × (inode_create d m room short sector
          (pos length)
        ≡ runs (success, e, m'))
      × Creates d m sector length success e m'
unfolding inode_create
inode_create_lem {d} {m} false short sector length v size h taken small =
    let test : not (ltb_ℤ (pos length) (pos 0)) ≡ true = ground arith in
    (
      false,
      d,
      m,
      rw test refl,
      inr (refl, refl, record { valid = v.map; size = refl; sectors = λ j. refl }),
    )
inode_create_lem {d} {m} true short sector length v size h taken small =
    let test : not (ltb_ℤ (pos length) (pos 0)) ≡ true = ground arith in
    let (o, m', run, out) = allocate-Outcome (bytes_to_sectors length) short v in
    let (success, e, wrote, c) = after_allocate size v h taken small out in
    (success, e, m', rw test (rw run (rw wrote refl)), c)
