-- ===== src/Inode/Reading.antt =====
-- What `inode_read_at` of linuxpintos/src/filesys/inode.c does.
use tddb68_collab.Base.{
  ℕ, zero, suc, ◌+◌, ◌-◌, ◌/◌, ◌%◌, ◌^◌, ◌≤◌, ◌<◌, ◌≡◌, ◌⊎◌, inl, inr, refl, sym, ap, ◌∙◌, Bool,
  true, false, ◌&&◌, none, some, ◌==◌, ltb, leb, if◌then◌else◌, arith, Bool-cases, min, lt→ltb,
}
use tddb68_collab.Base.Int.{ℤ, pos_part}
use tddb68_collab.Base.Kernel.{runs}
use tddb68_collab.Inode.{
  Bytes, Disk, InodeDisk, disk_sector_size, bytes_to_sectors, byte_to_sector, chunk_size,
  sector_left, copied, disk_read, read_chunk, read_from, inode_read_at,
}

-- The byte at position `pos` of the file.
abbrev pub content : Disk → InodeDisk → (pos : ℕ) → ℕ
content d i pos = d.sectors (i.start + pos / disk_sector_size) (pos % disk_sector_size)

-- The sectors of the file lie on the disk, whose sectors have numbers of 32 bits.
pub record IsPlaced (d : Disk) (i : InodeDisk) : Type 0 where
  pub within : i.start + bytes_to_sectors i.length ≤ d.capacity
  pub addressable : d.capacity ≤ 2 ^ 32

module _ {d : Disk} {i : InodeDisk} (v : IsPlaced d i) where
  -- The sector of a position in the file is on the disk.
  pub byte_to_sector_lem :
      (pos : ℕ)
      → pos < i.length
      → (byte_to_sector i pos ≡ i.start + pos / disk_sector_size)
        × (ltb (byte_to_sector i pos) d.capacity ≡ true)
  unfolding byte_to_sector
  byte_to_sector_lem pos h =
      let low : pos / disk_sector_size < bytes_to_sectors i.length = omega arith in
      let on : i.start + pos / disk_sector_size < d.capacity = omega (arith, v.within) in
      let small : (i.start + pos / disk_sector_size) % 2 ^ 32 ≡ i.start + pos / disk_sector_size =
        omega (arith, v.addressable) in
      let same : byte_to_sector i pos ≡ i.start + pos / disk_sector_size =
        rw (lt→ltb _ _ h) small in
      (same, rw same (lt→ltb _ _ on))

-- The size of a chunk: as much as is asked for and as the file and the sector have.
pub record IsChunk (i : InodeDisk) (size offset chunk : ℕ) : Type 0 where
  pub asked : chunk ≤ size
  pub in_file : chunk ≤ i.length - offset
  pub in_sector : chunk ≤ sector_left offset
  pub progress : chunk ≡ 0 → min size (i.length - offset) ≡ 0

pub chunk_size-IsChunk :
    (i : InodeDisk) (size offset : ℕ) → IsChunk i size offset (chunk_size i size offset)
unfolding chunk_size
chunk_size-IsChunk i size offset = ground arith

-- A buffer into which `cnt` bytes of the file from `offset` on were read at `at`.
abbrev pub filled : Disk → InodeDisk → Bytes → (offset at cnt : ℕ) → Bytes
filled d i buffer offset at cnt a =
    if leb at a && ltb a (at + cnt) then content d i (offset + (a - at)) else buffer a

-- Positions of one sector.
pub same_sector :
    (offset k : ℕ)
    → k < sector_left offset
    → ((offset + k) / disk_sector_size ≡ offset / disk_sector_size)
      × ((offset + k) % disk_sector_size ≡ offset % disk_sector_size + k)
same_sector offset k h = omega arith

module _ {d : Disk} {i : InodeDisk} (v : IsPlaced d i) where
  copied-filled :
      (offset chunk : ℕ) (buffer : Bytes) (at : ℕ)
      → 0 < chunk
      → chunk ≤ i.length - offset
      → chunk ≤ sector_left offset
      → (a : ℕ)
      → copied buffer at (d.sectors (byte_to_sector i offset)) (offset % disk_sector_size) chunk a
        ≡ filled d i buffer offset at chunk a
  copied-filled offset chunk buffer at h f l a =
      elim (Bool-cases (leb at a && ltb a (at + chunk))) [
        | inr e ↦ rw e refl
        | inl e ↦
            (let near : a - at < sector_left offset = ground arith in
              let p = same_sector offset (a - at) near in
              let sec : byte_to_sector i offset ≡ i.start + (offset + (a - at)) / disk_sector_size =
                (byte_to_sector_lem v offset (omega arith)).0 ∙ ap (λ n. i.start + n) (sym p.0) in
              rw e (λ j. d.sectors (sec j) (sym p.1 j)))
      ]

  -- How the body of the loop ends: the chunk was read, or there is no bounce buffer.
  abbrev ReadChunk : (room : Bool) (offset chunk : ℕ) (buffer : Bytes) (at : ℕ) → Type 0
  ReadChunk room offset chunk buffer at =
      ((room ≡ false) × (read_chunk d i room offset chunk buffer at ≡ runs none))
      ⊎ ((b : Bytes) × (read_chunk d i room offset chunk buffer at ≡ runs (some b))
          × ((a : ℕ) → b a ≡ filled d i buffer offset at chunk a))

  read_chunk_lem :
      (room : Bool) (offset chunk : ℕ) (buffer : Bytes) (at : ℕ)
      → 0 < chunk
      → chunk ≤ i.length - offset
      → chunk ≤ sector_left offset
      → ReadChunk room offset chunk buffer at
  unfolding read_chunk disk_read
  read_chunk_lem room offset chunk buffer at h f l =
      let fits = (byte_to_sector_lem v offset (omega arith)).1 in
      let read = copied-filled offset chunk buffer at h f l in
      elim (Bool-cases (offset % disk_sector_size == 0 && chunk == disk_sector_size)) [
        | inl e ↦
            (let cnt : disk_sector_size ≡ chunk = ground (arith, e) in
              let ofs : 0 ≡ offset % disk_sector_size = ground (arith, e) in
              inr (
                copied buffer at (d.sectors (byte_to_sector i offset)) 0 disk_sector_size,
                rw (e, fits) refl,
                λ a.
                    (λ j. copied buffer at (d.sectors (byte_to_sector i offset)) (ofs j) (cnt j) a)
                    ∙ read a,
              ))
        | inr e ↦ (elim (Bool-cases room) [
          | inl r ↦ inr (_, rw (e, r, fits) refl, read)
          | inr r ↦ inl (r, rw (e, r) refl)
        ])
      ]

filled-filled :
    (d : Disk) (i : InodeDisk) (buffer b : Bytes) (offset at c n : ℕ)
    → ((a : ℕ) → b a ≡ filled d i buffer offset at c a)
    → (a : ℕ) → filled d i b (offset + c) (at + c) n a ≡ filled d i buffer offset at (c + n) a
filled-filled d i buffer b offset at c n h a =
    elim (Bool-cases (leb (at + c) a && ltb a (at + c + n))) [
      | inl e ↦
          (let same : offset + c + (a - (at + c)) ≡ offset + (a - at) = ground arith in
            let in_both : (leb at a && ltb a (at + (c + n))) ≡ true = ground arith in
            rw (e, in_both) (ap (content d i) same))
      | inr e ↦ rw e (
          h a ∙ (elim (Bool-cases (leb at a && ltb a (at + c))) [
            | inl q ↦
                (let in_both : (leb at a && ltb a (at + (c + n))) ≡ true = ground arith in
                  rw (q, in_both) refl)
            | inr q ↦
                (let in_none : (leb at a && ltb a (at + (c + n))) ≡ false = ground arith in
                  rw (q, in_none) refl)
          ]))
    ]

-- What a loop of `inode_read_at` reads: `n` bytes, all that there are unless there is no bounce buffer.
pub record Reads (d : Disk) (i : InodeDisk) (room : Bool) (size offset : ℕ) (buffer : Bytes)
    (at : ℕ) (b : Bytes) (n : ℕ) : Type 0 where
  pub bound : n ≤ min size (i.length - offset)
  pub complete : room ≡ true → n ≡ min size (i.length - offset)
  pub bytes : (a : ℕ) → b a ≡ filled d i buffer offset at n a

filled-none :
    (d : Disk) (i : InodeDisk) (buffer : Bytes) (offset at a : ℕ)
    → buffer a ≡ filled d i buffer offset at 0 a
filled-none d i buffer offset at a = ground arith

module _ {d : Disk} {i : InodeDisk} (v : IsPlaced d i) (room : Bool) where
  ReadFrom : (rounds size offset : ℕ) (buffer : Bytes) (at : ℕ) → Type 0
  ReadFrom rounds size offset buffer at =
      (b : Bytes) × (n : ℕ) × (read_from rounds d i room size offset buffer at ≡ runs (b, at + n))
      × Reads d i room size offset buffer at b n

  -- The loop ended at its first test or at the one for an empty chunk.
  Reads-none :
      (size offset : ℕ) (buffer : Bytes) (at : ℕ)
      → (room ≡ true → min size (i.length - offset) ≡ 0)
      → Reads d i room size offset buffer at buffer 0
  Reads-none size offset buffer at h = record {
    bound = omega arith;
    complete = λ r. sym (h r);
    bytes = λ a. filled-none d i buffer offset at a;
  }

  read_from_lem :
      (rounds size offset : ℕ) (buffer : Bytes) (at : ℕ)
      → size ≤ rounds
      → ReadFrom rounds size offset buffer at
  unfolding ReadFrom read_from
  read_from_lem zero size offset buffer at h = (
    buffer,
    0,
    ap (λ n. runs (buffer, n)) (omega arith),
    Reads-none size offset buffer at (λ _. omega arith),
  )
  read_from_lem (suc rounds) size offset buffer at h =
      let c = chunk_size i size offset in
      let k = chunk_size-IsChunk i size offset in
      elim (Bool-cases (c == 0)) [
        | inl e ↦ (
          buffer,
          0,
          rw e (ap (λ n. runs (buffer, n)) (omega arith)),
          Reads-none size offset buffer at (λ _. k.progress (ground (arith, e))),
        )
        | inr e ↦
            (let some_bytes : 0 < c = ground (arith, e) in
              elim (read_chunk_lem v room offset c buffer at some_bytes k.in_file k.in_sector) [
                | inl (r, q) ↦ (
                  buffer,
                  0,
                  rw (e, q) (ap (λ n. runs (buffer, n)) (omega arith)),
                  Reads-none size offset buffer at (λ t. absurd (cc)),
                )
                | inr (b, q, f) ↦
                    (let rest =
                        read_from_lem rounds (size - c) (offset + c) b (at + c) (omega arith) in
                      (
                        rest.0,
                        c + rest.1,
                        rw (e, q) (rest.2 ∙ ap (λ n. runs (rest.0, n)) (omega arith)),
                        record {
                          bound = omega (arith, rest.3.bound, k.asked, k.in_file);
                          complete = λ r. omega (arith, rest.3.complete r, k.asked, k.in_file);
                          bytes = λ a.
                              rest.3.bytes a ∙ filled-filled d i buffer b offset at c rest.1 f a;
                        },
                      ))
              ])
      ]

filled-start :
    (d : Disk) (i : InodeDisk) (buffer : Bytes) (offset n a : ℕ)
    → filled d i buffer offset 0 n a ≡ (if ltb a n then content d i (offset + a) else buffer a)
filled-start d i buffer offset n a = ground arith

-- `inode_read_at` on a file that lies on the disk reads the bytes of the file from the offset on into the start of the
-- buffer, as many as are asked for and as the file has, or fewer if there is no bounce buffer; the rest of the buffer
-- is unchanged.
pub inode_read_at_lem :
    {d : Disk} {i : InodeDisk} (room : Bool) (buffer : Bytes) (size : ℤ) (offset : ℕ)
    → IsPlaced d i
    → (b : Bytes) × (n : ℕ) × (inode_read_at d i room buffer size offset ≡ runs (b, n))
      × (n ≤ min (pos_part size) (i.length - offset))
      × (room ≡ true → n ≡ min (pos_part size) (i.length - offset))
      × ((a : ℕ) → b a ≡ (if ltb a n then content d i (offset + a) else buffer a))
unfolding inode_read_at ReadFrom
inode_read_at_lem {d} {i} room buffer size offset v =
    let (b, n, e, r) =
      read_from_lem v room (pos_part size) (pos_part size) offset buffer 0 (omega arith) in
    (
      b,
      n,
      e ∙ ap (λ k. runs (b, k)) (omega arith),
      r.bound,
      r.complete,
      λ a. r.bytes a ∙ filled-start d i buffer offset n a,
    )
