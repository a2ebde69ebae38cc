-- ===== src/Files/Positions.antt =====
-- Reads and writes that follow one another: linuxpintos/src/filesys/file.c.
use tddb68_collab.Base.{
  ℕ, ◌+◌, ◌-◌, ◌<◌, ◌≡◌, Bool, not, refl, sym, ap, ◌∙◌, true, arith, min, lt→ltb,
}
use tddb68_collab.Base.Int.{ℤ, pos, pos_part, ltb_ℤ}
use tddb68_collab.Base.Kernel.{runs, ◌>>=◌}
use tddb68_collab.Inode.{Bytes, Disk, InodeDisk, inode_read_at}
use tddb68_collab.Inode.Reading.{IsPlaced, content, inode_read_at_lem}
use tddb68_collab.Inode.Writing.{read_at-write_at}
use tddb68_collab.Opens.{OpenFile}
use tddb68_collab.Files.{advanced, file_read, file_write, file_seek, file_tell}

pub file_read_lem :
    (d : Disk) (i : InodeDisk) (room : Bool) (f : OpenFile) (buffer : Bytes) (size : ℤ) {b : Bytes}
    {n : ℕ}
    → inode_read_at d i room buffer size f.pos ≡ runs (b, n)
    → file_read d i room f buffer size ≡ runs (advanced f n, b, n)
unfolding file_read
file_read_lem d i room f buffer size h = rw h refl

-- Back to a position.
pub file_seek_lem : (f : OpenFile) (p : ℕ) → file_seek f (pos p) ≡ runs (record f { pos = p })
unfolding file_seek
file_seek_lem f p = let test : not (ltb_ℤ (pos p) (pos 0)) ≡ true = ground arith in rw test refl

-- What `file_write` has written, `file_read` reads after `file_seek` to where `file_tell` was before, and leaves the
-- file where the write left it, as many bytes further as were written: on a file that lies on the disk, with memory for
-- the bounce buffers and writes not denied. As many bytes are written as are asked for and lie before the end of the file.
pub file_read-file_write :
    {d : Disk} {i : InodeDisk} (f : OpenFile) (buffer other : Bytes) (size : ℤ)
    → IsPlaced d i
    → (e : Disk) × (b : Bytes) × (n : ℕ) × (n ≡ min (pos_part size) (i.length - file_tell f))
      × (file_write d i 0 true f buffer size ≡ runs (advanced f n, e, n))
      × ((file_seek (advanced f n) (pos (file_tell f)) >>= λ g. file_read e i true g other size)
          ≡ runs (advanced f n, b, n))
      × ((a : ℕ) → a < n → b a ≡ buffer a)
unfolding file_write
file_read-file_write {d} {i} f buffer other size v =
    let (e, b, n, count, wrote, read, bytes) = read_at-write_at buffer other size f.pos v in
    (
      e,
      b,
      n,
      count,
      rw wrote refl,
      rw (file_seek_lem (advanced f n) (file_tell f)) (file_read_lem e i true f other size read),
      bytes,
    )

-- Two calls of `file_read`, the second one for a buffer of its own, read the bytes that one call for both sizes reads,
-- as many of them, and leave the file at the same position: on a file that lies on the disk, with memory for the bounce
-- buffers.
pub file_read-file_read :
    {d : Disk} {i : InodeDisk} (f : OpenFile) (first second both : Bytes) (m n : ℕ)
    → IsPlaced d i
    → (g h : OpenFile) × (a b c : Bytes) × (k l : ℕ) × (file_read d i true f first (pos m)
        ≡ runs (g, a, k))
      × (file_read d i true g second (pos n) ≡ runs (h, b, l))
      × (file_read d i true f both (pos (m + n)) ≡ runs (h, c, k + l))
      × ((x : ℕ) → x < k → c x ≡ a x)
      × ((x : ℕ) → x < l → c (k + x) ≡ b x)
file_read-file_read {d} {i} f first second both m n v =
    let (a, k, read, _, count, bytes) = inode_read_at_lem true first (pos m) f.pos v in
    let (b, l, read', _, count', bytes') = inode_read_at_lem true second (pos n) (f.pos + k) v in
    let (c, t, read'', _, count'', bytes'') = inode_read_at_lem true both (pos (m + n)) f.pos v in
    let all : t ≡ k + l = omega (arith, count refl, count' refl, count'' refl) in
    (
      advanced f k,
      advanced f (k + l),
      a,
      b,
      c,
      k,
      l,
      file_read_lem d i true f first (pos m) read,
      file_read_lem d i true (advanced f k) second (pos n) read'
          ∙ ap (λ p. runs (record f { pos = p }, b, l)) (omega arith),
      file_read_lem d i true f both (pos (m + n)) read'' ∙ ap (λ x. runs (advanced f x, c, x)) all,
      λ x h.
          bytes'' x
          ∙ (rw (lt→ltb x t (omega (arith, all, h))) (sym (bytes x ∙ (rw (lt→ltb x k h) refl)))),
      λ x h.
          bytes'' (k + x)
          ∙ (rw (lt→ltb (k + x) t (omega (arith, all, h)))
              (sym (bytes' x ∙ (rw (lt→ltb x l h) (ap (content d i) (omega arith)))))),
    )
