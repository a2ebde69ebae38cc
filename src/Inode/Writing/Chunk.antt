-- ===== src/Inode/Writing/Chunk.antt =====
-- One round of the loop of `inode_write_at` in linuxpintos/src/filesys/inode.c.
use tddb68_collab.Base.{
  ℕ, ◌+◌, ◌-◌, ◌*◌, ◌/◌, ◌%◌, ◌≤◌, ◌<◌, ◌≡◌, ◌⊎◌, inl, inr, refl, sym, ap, ◌∙◌, Bool, true, false,
  ◌&&◌, ◌||◌, none, some, ◌==◌, ltb, leb, if◌then◌else◌, arith, Bool-cases,
}
use tddb68_collab.Base.Kernel.{runs}
use tddb68_collab.Inode.{
  Bytes, Disk, InodeDisk, disk_sector_size, byte_to_sector, sector_left, copied, disk_read,
  disk_write, put_sector, write_chunk,
}
use tddb68_collab.Inode.Reading.{IsPlaced, byte_to_sector_lem}

-- The byte of sector `s` at `k` after `cnt` bytes of the buffer from `at` on were written to the file at `offset`.
abbrev pub written : Disk → InodeDisk → Bytes → (offset at cnt s k : ℕ) → ℕ
written d i buffer offset at cnt s k =
    let p = (s - i.start) * disk_sector_size + k in
    if leb i.start s && (leb offset p && ltb p (offset + cnt))
    then buffer (at + (p - offset))
    else d.sectors s k

-- The disk after that, on the bytes that a sector has.
pub record Wrote (d : Disk) (i : InodeDisk) (buffer : Bytes) (offset at cnt : ℕ) (e : Disk)
    : Type 0 where
  pub capacity : e.capacity ≡ d.capacity
  pub bytes :
      (s k : ℕ) → k < disk_sector_size → e.sectors s k ≡ written d i buffer offset at cnt s k

same_tests :
    (offset cnt k p base : ℕ)
    → p ≡ base + k
    → offset ≡ base + offset % disk_sector_size
    → (leb offset p && ltb p (offset + cnt))
      ≡ (leb (offset % disk_sector_size) k && ltb k (offset % disk_sector_size + cnt))
same_tests offset cnt k p base e f = ground arith

other_sector :
    (start s offset cnt k : ℕ)
    → (s == start + offset / disk_sector_size) ≡ false
    → cnt ≤ sector_left offset
    → k < disk_sector_size
    → (leb start s
        && (leb offset ((s - start) * disk_sector_size + k)
            && ltb ((s - start) * disk_sector_size + k) (offset + cnt)))
      ≡ false
other_sector start s offset cnt k e l h = ground arith

-- A sector in which `cnt` bytes were replaced, in the file.
sector-written :
    (d : Disk) (i : InodeDisk) (buffer : Bytes) (offset at cnt : ℕ) (bytes : Bytes)
    → cnt ≤ sector_left offset
    → ((k : ℕ)
        → k < disk_sector_size
        → bytes k
          ≡ copied
              (d.sectors (i.start + offset / disk_sector_size))
              (offset % disk_sector_size)
              buffer
              at
              cnt
              k)
    → Wrote d i buffer offset at cnt (put_sector d (i.start + offset / disk_sector_size) bytes)
sector-written d i buffer offset at cnt bytes l h = record {
  capacity = refl;
  bytes = λ s k lt.
      (let o = offset / disk_sector_size in
        let p = (s - i.start) * disk_sector_size + k in
        elim (Bool-cases (s == i.start + o)) [
          | inl e ↦
              (let here : s ≡ i.start + o = ground (arith, e) in
                let base : p ≡ o * disk_sector_size + k = omega (arith, here) in
                let whole : offset ≡ o * disk_sector_size + offset % disk_sector_size =
                  omega arith in
                let up : leb i.start s ≡ true = ground (arith, here) in
                let index : p - offset ≡ k - offset % disk_sector_size =
                  omega (arith, base, whole) in
                let tests : (leb offset p && ltb p (offset + cnt)) ≡ (
                    leb (offset % disk_sector_size) k && ltb k (offset % disk_sector_size + cnt)) =
                  same_tests offset cnt k p (o * disk_sector_size) base whole in
                rw (e, up, tests, index)
                  (h k lt
                    ∙ ap
                        (λ (t : ℕ).
                          if leb (offset % disk_sector_size) k
                            && ltb k (offset % disk_sector_size + cnt)
                          then buffer (at + (k - offset % disk_sector_size))
                          else d.sectors t k)
                        (sym here)))
          | inr e ↦
              (let out : (leb i.start s && (leb offset p && ltb p (offset + cnt))) ≡ false =
                  other_sector i.start s offset cnt k e l lt in
                rw (e, out) refl)
        ]);
}

whole_sector :
    (offset chunk k : ℕ)
    → (offset % disk_sector_size == 0 && chunk == disk_sector_size) ≡ true
    → k < disk_sector_size
    → (buffer : Bytes) (at : ℕ) (old : Bytes)
    → buffer (at + k) ≡ copied old (offset % disk_sector_size) buffer at chunk k
whole_sector offset chunk k e lt buffer at old =
    let all : (leb (offset % disk_sector_size) k && ltb k (offset % disk_sector_size + chunk))
        ≡ true =
      ground arith in
    let same : k - offset % disk_sector_size ≡ k = ground (arith, e) in rw (all, same) refl

module _ {d : Disk} {i : InodeDisk} (v : IsPlaced d i) where
  -- How the body of the loop ends: the chunk was written, or there is no bounce buffer.
  abbrev WriteChunk : (room : Bool) (offset chunk : ℕ) (buffer : Bytes) (at : ℕ) → Type 0
  WriteChunk room offset chunk buffer at =
      ((room ≡ false) × (write_chunk d i room offset chunk buffer at ≡ runs none))
      ⊎ ((e : Disk) × (write_chunk d i room offset chunk buffer at ≡ runs (some e))
          × Wrote d i buffer offset at chunk e)

  pub write_chunk_lem :
      (room : Bool) (offset chunk : ℕ) (buffer : Bytes) (at : ℕ)
      → 0 < chunk
      → chunk ≤ i.length - offset
      → chunk ≤ sector_left offset
      → WriteChunk room offset chunk buffer at
  unfolding write_chunk disk_read disk_write
  write_chunk_lem room offset chunk buffer at h f l =
      let (same, fits) = byte_to_sector_lem v offset (omega arith) in
      let ends = λ (bytes : Bytes). sector-written d i buffer offset at chunk bytes l in
      elim (Bool-cases (offset % disk_sector_size == 0 && chunk == disk_sector_size)) [
        | inl e ↦ inr (
          put_sector d (i.start + offset / disk_sector_size) (λ k. buffer (at + k)),
          rw (e, fits) (ap (λ n. runs (some (put_sector d n (λ k. buffer (at + k))))) same),
          ends (λ k. buffer (at + k))
              (λ k lt.
                whole_sector offset chunk k e lt buffer at
                  (d.sectors (i.start + offset / disk_sector_size))),
        )
        | inr e ↦ (elim (Bool-cases room) [
          | inl r ↦
              (let keeps : (ltb 0 (offset % disk_sector_size) || ltb chunk (sector_left offset))
                    ≡ true =
                  ground arith in
                let bytes =
                  copied (d.sectors (byte_to_sector i offset)) (offset % disk_sector_size) buffer at
                    chunk in
                inr (
                  put_sector d (i.start + offset / disk_sector_size) bytes,
                  rw (e, r, keeps, fits) (ap (λ n. runs (some (put_sector d n bytes))) same),
                  ends bytes (λ k lt.
                      ap (λ n. copied (d.sectors n) (offset % disk_sector_size) buffer at chunk k)
                        same),
                ))
          | inr r ↦ inl (r, rw (e, r) refl)
        ])
      ]
