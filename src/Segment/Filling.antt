-- ===== src/Segment/Filling.antt =====
-- What `load_segment` of linuxpintos/src/userprog/process.c leaves in the memory of the process.
use tddb68_collab.Base.{ℕ, ◌+◌, ◌-◌, ◌≡◌, true, ◌&&◌, leb, ltb, if◌then◌else◌, Option, some, List}
use tddb68_collab.Inode.{Bytes, Disk, InodeDisk}
use tddb68_collab.Inode.Reading.{content}
use tddb68_collab.Segment.{Page, user_byte, Memory}

-- There is memory for everything.
pub record Ample (m : Memory) : Type 0 where
  pub old : ℕ → Bytes
  pub page : (a : ℕ) → m.page a ≡ some (old a)
  pub table : (a : ℕ) → m.table a ≡ true
  pub bounce : (a : ℕ) → m.bounce a ≡ true

-- The byte at an address after `read` bytes of the file from `ofs` on and zeros were put at `upage`, `size` bytes in all.
abbrev pub image : Disk → InodeDisk → List Page → (ofs upage read size uaddr : ℕ) → Option ℕ
image d i ps ofs upage read size uaddr =
    if leb upage uaddr && ltb uaddr (upage + size)
    then some (if ltb (uaddr - upage) read then content d i (ofs + (uaddr - upage)) else 0)
    else user_byte ps uaddr
