-- ===== src/Directory.antt =====
-- Directories: linuxpintos/src/filesys/directory.c. What the inode of a directory holds is the list of its entries, of 20 bytes
-- each; the length of the file is a multiple of that. A read of an entry is short behind the last entry, and where there
-- is no memory for a bounce buffer: for each loop the argument `memory` says at which entries there is.
pub mod Names
pub mod Changes
pub mod Removal
mod Tests
use tddb68_collab.Base.{
  ℕ, zero, suc, ◌+◌, Bool, true, false, not, ◌&&◌, ◌||◌, Option, none, some, List, [], ◌∷◌, ◌==◌,
  ltb, if◌then◌else◌, length, set, drop,
}

-- `struct dir_entry`; a name is the list of its characters, without the terminator.
pub record DirEntry : Type 0 where
  pub inode_sector : ℕ
  pub name : List ℕ
  pub in_use : Bool

abbrev pub name_max : ℕ
name_max = 14

-- `!strcmp (a, b)`
unfoldable pub same_name : List ℕ → List ℕ → Bool
same_name [] [] = true
same_name [] (d ∷ b) = false
same_name (c ∷ a) [] = false
same_name (c ∷ a) (d ∷ b) = c == d && same_name a b

-- `e.in_use && !strcmp (name, e.name)`
abbrev pub is_entry : (name : List ℕ) → DirEntry → Bool
is_entry name e = e.in_use && same_name name e.name

-- The loop of `lookup`, from entry `k` on.
unfoldable pub lookup_from :
    List DirEntry → (memory : ℕ → Bool) → (name : List ℕ) → (k : ℕ) → Option (DirEntry × ℕ)
lookup_from [] memory name k = none
lookup_from (e ∷ es) memory name k =
    let rest = lookup_from es memory name (k + 1) in
    if memory k then (if is_entry name e then some (e, k) else rest) else none

unfoldable pub find_entry :
    List DirEntry → (memory : ℕ → Bool) → (name : List ℕ) → Option (DirEntry × ℕ)
find_entry es memory name = lookup_from es memory name 0

abbrev pub sector_of : Option (DirEntry × ℕ) → Option ℕ
sector_of none = none
sector_of (some (e, k)) = some e.inode_sector

-- `dir_lookup` up to `inode_open`: the sector of the inode.
unfoldable pub dir_lookup : List DirEntry → (memory : ℕ → Bool) → (name : List ℕ) → Option ℕ
dir_lookup es memory name = sector_of (find_entry es memory name)

-- The loop of `dir_add` that looks for a free slot.
unfoldable pub free_slot : List DirEntry → (memory : ℕ → Bool) → (k : ℕ) → ℕ
free_slot [] memory k = k
free_slot (e ∷ es) memory k =
    let rest = free_slot es memory (k + 1) in if memory k && e.in_use then rest else k

-- `inode_write_at` of one entry: false if it lies behind the end, or there is no memory.
unfoldable pub write_slot :
    List DirEntry → (k : ℕ) → DirEntry → (room : Bool) → List DirEntry × Bool
write_slot es k e room = if room && ltb k (length es) then (set es k e, true) else (es, false)

-- Memory for the two loops and for the write.
unfoldable pub dir_add :
    List DirEntry
    → (name : List ℕ) → (inode_sector : ℕ) → (memory memory' : ℕ → Bool) → (room : Bool)
    → List DirEntry × Bool
unfolding find_entry write_slot
dir_add es name inode_sector memory memory' room =
    let write =
      write_slot es (free_slot es memory' 0)
        (record { inode_sector = inode_sector; name = name; in_use = true }) room in
    let checked : List DirEntry × Bool = elim (find_entry es memory name) [
      | none ↦ write
      | some found ↦ (es, false)
    ] in
    if length name == 0 || ltb name_max (length name) then (es, false) else checked

-- `dir_remove` behind `lookup`. `opened` says whether `inode_open` succeeds, `room` whether there is memory for the write.
unfoldable pub erase :
    List DirEntry → (opened room : Bool) → Option (DirEntry × ℕ) → List DirEntry × Option ℕ
unfolding write_slot
erase es opened room none = (es, none)
erase es opened room (some (e, k)) =
    let (es', written) = write_slot es k (record e { in_use = false }) room in
    if opened then (if written then (es', some e.inode_sector) else (es', none)) else (es, none)

-- With the sector of the inode that is to be removed, if it succeeds.
unfoldable pub dir_remove :
    List DirEntry
    → (name : List ℕ) → (memory : ℕ → Bool) → (opened room : Bool) → List DirEntry × Option ℕ
unfolding find_entry erase
dir_remove es name memory opened room = erase es opened room (find_entry es memory name)

-- The loop of `dir_readdir`, on the entries from the position on: the new position, and a name.
unfoldable pub next_entry : List DirEntry → (memory : ℕ → Bool) → (pos : ℕ) → ℕ × Option (List ℕ)
next_entry [] memory pos = (pos, none)
next_entry (e ∷ es) memory pos =
    let rest = next_entry es memory (pos + 1) in
    if memory pos then (if e.in_use then (pos + 1, some e.name) else rest) else (pos, none)

unfoldable pub dir_readdir : List DirEntry → (memory : ℕ → Bool) → (pos : ℕ) → ℕ × Option (List ℕ)
unfolding next_entry
dir_readdir es memory pos = next_entry (drop pos es) memory pos
