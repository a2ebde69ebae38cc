-- ===== src/Inode/Writing.antt =====
-- What `inode_write_at` of linuxpintos/src/filesys/inode.c does.
mod Chunk
pub use Chunk.{written, Wrote}
use tddb68_collab.Base.{
  ℕ, zero, suc, ◌+◌, ◌-◌, ◌*◌, ◌/◌, ◌%◌, ◌≤◌, ◌<◌, ◌≡◌, ◌⊎◌, inl, inr, refl, sym, ap, ◌∙◌, Bool,
  true, false, ◌&&◌, ◌||◌, none, some, ◌==◌, ltb, leb, if◌then◌else◌, arith, Bool-cases, min,
  lt→ltb,
}
use tddb68_collab.Base.Int.{ℤ, pos_part}
use tddb68_collab.Base.Kernel.{runs}
use tddb68_collab.Inode.{
  Bytes, Disk, InodeDisk, disk_sector_size, byte_to_sector, chunk_size, sector_left, copied,
  disk_read, disk_write, put_sector, write_chunk, write_from, inode_write_at, inode_read_at,
}
use tddb68_collab.Inode.Reading.{
  content, IsPlaced, byte_to_sector_lem, chunk_size-IsChunk, inode_read_at_lem,
}
use tddb68_collab.Inode.Writing.Chunk.{write_chunk_lem}

written-written :
    (d e : Disk) (i : InodeDisk) (buffer : Bytes) (offset at c n s k : ℕ)
    → e.sectors s k ≡ written d i buffer offset at c s k
    → written e i buffer (offset + c) (at + c) n s k ≡ written d i buffer offset at (c + n) s k
written-written d e i buffer offset at c n s k h =
    let p = (s - i.start) * disk_sector_size + k in
    elim (Bool-cases (leb i.start s)) [
      | inr o ↦ rw o (h ∙ (rw o refl))
      | inl o ↦ (elim (Bool-cases (leb (offset + c) p && ltb p (offset + c + n))) [
        | inl q ↦
            (let same : at + c + (p - (offset + c)) ≡ at + (p - offset) = ground arith in
              let all : (leb offset p && ltb p (offset + (c + n))) ≡ true = ground arith in
              rw (o, q, all) (ap buffer same))
        | inr q ↦
            rw (o, q)
              (h ∙ (elim (Bool-cases (leb offset p && ltb p (offset + c))) [
                | inl r ↦
                    (let all : (leb offset p && ltb p (offset + (c + n))) ≡ true = ground arith in
                      rw (o, r, all) refl)
                | inr r ↦
                    (let out : (leb offset p && ltb p (offset + (c + n))) ≡ false = ground arith in
                      rw (o, r, out) refl)
              ]))
      ])
    ]

Wrote-IsPlaced :
    {d e : Disk} {i : InodeDisk} {buffer : Bytes} {offset at n : ℕ}
    → IsPlaced d i
    → Wrote d i buffer offset at n e
    → IsPlaced e i
Wrote-IsPlaced v w = record {
  within = omega (arith, v.within, w.capacity);
  addressable = omega (arith, v.addressable, w.capacity);
}

Wrote-Wrote :
    {d e e' : Disk} {i : InodeDisk} {buffer : Bytes} {offset at c n : ℕ}
    → Wrote d i buffer offset at c e
    → Wrote e i buffer (offset + c) (at + c) n e'
    → Wrote d i buffer offset at (c + n) e'
Wrote-Wrote {d} {e} {e'} {i} {buffer} {offset} {at} {c} {n} w w' = record {
  capacity = w'.capacity ∙ w.capacity;
  bytes =
      λ s k lt. w'.bytes s k lt ∙ written-written d e i buffer offset at c n s k (w.bytes s k lt);
}

-- What a loop of `inode_write_at` writes: `n` bytes, all that there is room for unless there is no bounce buffer.
pub record Writes (d : Disk) (i : InodeDisk) (room : Bool) (size offset : ℕ) (buffer : Bytes)
    (at : ℕ) (e : Disk) (n : ℕ) : Type 0 where
  pub bound : n ≤ min size (i.length - offset)
  pub complete : room ≡ true → n ≡ min size (i.length - offset)
  pub wrote : Wrote d i buffer offset at n e

Wrote-none :
    (d : Disk) (i : InodeDisk) (buffer : Bytes) (offset at : ℕ) → Wrote d i buffer offset at 0 d
Wrote-none d i buffer offset at = record { capacity = refl; bytes = λ s k lt. ground arith }

module _ (i : InodeDisk) (room : Bool) where
  WriteFrom : Disk → (rounds size offset : ℕ) (buffer : Bytes) (at : ℕ) → Type 0
  WriteFrom d rounds size offset buffer at =
      (e : Disk) × (n : ℕ) × (write_from rounds d i room size offset buffer at ≡ runs (e, at + n))
      × Writes d i room size offset buffer at e n

  Writes-none :
      (d : Disk) (size offset : ℕ) (buffer : Bytes) (at : ℕ)
      → (room ≡ true → min size (i.length - offset) ≡ 0)
      → Writes d i room size offset buffer at d 0
  Writes-none d size offset buffer at h = record {
    bound = omega arith;
    complete = λ r. sym (h r);
    wrote = Wrote-none d i buffer offset at;
  }

  write_from_lem :
      (rounds : ℕ) (d : Disk) (size offset : ℕ) (buffer : Bytes) (at : ℕ)
      → IsPlaced d i
      → size ≤ rounds
      → WriteFrom d rounds size offset buffer at
  unfolding WriteFrom write_from
  write_from_lem zero d size offset buffer at v h = (
    d,
    0,
    ap (λ n. runs (d, n)) (omega arith),
    Writes-none d size offset buffer at (λ _. omega arith),
  )
  write_from_lem (suc rounds) d size offset buffer at v h =
      let c = chunk_size i size offset in
      let k = chunk_size-IsChunk i size offset in
      elim (Bool-cases (c == 0)) [
        | inl e ↦ (
          d,
          0,
          rw e (ap (λ n. runs (d, n)) (omega arith)),
          Writes-none d size offset buffer at (λ _. k.progress (ground (arith, e))),
        )
        | inr e ↦
            (let some_bytes : 0 < c = ground (arith, e) in
              elim (write_chunk_lem v room offset c buffer at some_bytes k.in_file k.in_sector) [
                | inl (r, q) ↦ (
                  d,
                  0,
                  rw (e, q) (ap (λ n. runs (d, n)) (omega arith)),
                  Writes-none d size offset buffer at (λ t. absurd (cc)),
                )
                | inr (d', q, w) ↦
                    (let rest =
                        write_from_lem rounds d' (size - c) (offset + c) buffer (at + c)
                          (Wrote-IsPlaced v w) (omega arith) in
                      (
                        rest.0,
                        c + rest.1,
                        rw (e, q) (rest.2 ∙ ap (λ n. runs (rest.0, n)) (omega arith)),
                        record {
                          bound = omega (arith, rest.3.bound, k.asked, k.in_file);
                          complete = λ r. omega (arith, rest.3.complete r, k.asked, k.in_file);
                          wrote = Wrote-Wrote w rest.3.wrote;
                        },
                      ))
              ])
      ]

-- `inode_write_at` on a file that lies on the disk writes nothing if writes are denied; else it writes bytes from the
-- start of the buffer to the file at the offset, as many as are asked for and as the file has from there on, or fewer
-- if there is no bounce buffer; no other byte of the disk changes.
pub inode_write_at_lem :
    {d : Disk} {i : InodeDisk} (deny_write_cnt : ℕ) (room : Bool) (buffer : Bytes) (size : ℤ)
    (offset : ℕ)
    → IsPlaced d i
    → (e : Disk) × (n : ℕ) × (inode_write_at d i deny_write_cnt room buffer size offset
        ≡ runs (e, n))
      × (n ≤ (if deny_write_cnt == 0 then min (pos_part size) (i.length - offset) else 0))
      × (room ≡ true → deny_write_cnt ≡ 0 → n ≡ min (pos_part size) (i.length - offset))
      × Wrote d i buffer offset 0 n e
unfolding inode_write_at WriteFrom
inode_write_at_lem {d} {i} deny_write_cnt room buffer size offset v =
    elim (Bool-cases (deny_write_cnt == 0)) [
      | inl z ↦
          (let (e, n, q, w) =
              write_from_lem i room (pos_part size) d (pos_part size) offset buffer 0 v
                (omega arith) in
            (
              e,
              n,
              rw z (q ∙ ap (λ k. runs (e, k)) (omega arith)),
              rw z w.bound,
              λ r _. w.complete r,
              w.wrote,
            ))
      | inr z ↦ (
        d,
        0,
        rw z refl,
        omega arith,
        λ r h. absurd (ground (arith, z, h)),
        Wrote-none d i buffer offset 0,
      )
    ]

content-Wrote :
    {d e : Disk} {i : InodeDisk} {buffer : Bytes} {offset n : ℕ} (a : ℕ)
    → Wrote d i buffer offset 0 n e
    → a < n
    → content e i (offset + a) ≡ buffer a
content-Wrote {d} {e} {i} {buffer} {offset} {n} a w h =
    let s = i.start + (offset + a) / disk_sector_size in
    let k = (offset + a) % disk_sector_size in
    let here : (s - i.start) * disk_sector_size + k ≡ offset + a = omega arith in
    let tests : (leb i.start s && (leb offset (offset + a) && ltb (offset + a) (offset + n)))
        ≡ true =
      ground arith in
    w.bytes s k (omega arith) ∙ (rw (here, tests) (ap buffer (omega arith)))

-- What `inode_write_at` has written, `inode_read_at` at the same offset reads: on a file that lies on the disk, with
-- memory for the bounce buffers and writes not denied.
pub read_at-write_at :
    {d : Disk} {i : InodeDisk} (buffer other : Bytes) (size : ℤ) (offset : ℕ)
    → IsPlaced d i
    → (e : Disk) × (b : Bytes) × (n : ℕ) × (n ≡ min (pos_part size) (i.length - offset))
      × (inode_write_at d i 0 true buffer size offset ≡ runs (e, n))
      × (inode_read_at e i true other size offset ≡ runs (b, n))
      × ((a : ℕ) → a < n → b a ≡ buffer a)
read_at-write_at {d} {i} buffer other size offset v =
    let (e, n, wrote, _, complete, w) = inode_write_at_lem 0 true buffer size offset v in
    let (b, m, read, _, complete', bytes) =
      inode_read_at_lem true other size offset (Wrote-IsPlaced v w) in
    let same : m ≡ n = complete' refl ∙ sym (complete refl refl) in
    (
      e,
      b,
      n,
      complete refl refl,
      wrote,
      read ∙ ap (λ k. runs (b, k)) same,
      λ a h. bytes a ∙ (rw (lt→ltb a m (omega (arith, same, h))) (content-Wrote a w h)),
    )
