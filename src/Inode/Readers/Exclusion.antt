-- ===== src/Inode/Readers/Exclusion.antt =====
-- Who is in the loops of `inode_read_at` and `inode_write_at` at one time: linuxpintos/src/filesys/inode.c.
use tddb68_collab.Base.{ℕ, ◌+◌, ◌≤◌, ◌<◌, ◌≡◌, refl, List, [], ◌∷◌, arith}
use tddb68_collab.Inode.Readers.{Phase, reading, writing, System, Reach}
use tddb68_collab.Inode.Readers.Invariant.{sum, is_counted, is_writing, Reach-Keeps}

-- How many threads copy bytes from the inode, and how many write to it.
pub readers_in : List Phase → ℕ
readers_in [] = 0
readers_in (reading ∷ ps) = 1 + readers_in ps
readers_in (p ∷ ps) = readers_in ps

pub writers_in : List Phase → ℕ
writers_in [] = 0
writers_in (writing ∷ ps) = 1 + writers_in ps
writers_in (p ∷ ps) = writers_in ps

readers_counted : (ps : List Phase) → readers_in ps ≤ sum is_counted ps
unfolding readers_in
readers_counted [] = omega arith
readers_counted (reading ∷ ps) = omega (arith, readers_counted ps)
readers_counted (p ∷ ps) = omega (arith, readers_counted ps)

writers_counted : (ps : List Phase) → writers_in ps ≡ sum is_writing ps
unfolding writers_in
writers_counted [] = refl
writers_counted (writing ∷ ps) = omega (arith, writers_counted ps)
writers_counted (p ∷ ps) = omega (arith, writers_counted ps)

-- However any number of threads call `inode_read_at` and `inode_write_at` on one inode, at most one of them writes, and
-- none while another reads.
pub readers_exclude_writers :
    {s : System}
    → Reach s
    → (writers_in s.threads ≤ 1) × (0 < readers_in s.threads → writers_in s.threads ≡ 0)
readers_exclude_writers {s} r =
    let v = Reach-Keeps r in
    ground (arith, readers_counted s.threads, writers_counted s.threads, v.w_taken)
