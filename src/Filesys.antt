-- ===== src/Filesys.antt =====
-- Creating a file: `filesys_create` of linuxpintos/src/filesys/filesys.c, on the disk of Inode, the map of FreeMap and the
-- entries of the root directory as in Directory. It holds a lock, so it is modelled as running alone.
pub mod Creating
mod Tests
use tddb68_collab.Base.{
  ℕ, ◌+◌, ◌&&◌, ◌||◌, leb, ltb, Bool, true, false, Option, none, some, List, ◌==◌, if◌then◌else◌,
}
use tddb68_collab.Base.Int.{ℤ}
use tddb68_collab.Base.Kernel.{Kernel, runs, ◌>>=◌}
use tddb68_collab.Inode.{Disk, InodeDisk, bytes_to_sectors}
use tddb68_collab.FreeMap.{FreeMap, free_map_allocate, free_map_release}
use tddb68_collab.Creation.{inode_create}
use tddb68_collab.Directory.{DirEntry, dir_add}

-- `filesys_disk`, `free_map` and the root directory. The entries of the directory and the words of the map lie in the
-- files `root_inode` and `map_inode` on the disk; what the sectors of these two files hold is in `root` and `map`, so that
-- `disk` stands for the other sectors.
pub record Volume : Type 0 where
  pub disk : Disk
  pub map : FreeMap
  pub root : List DirEntry
  pub root_inode : InodeDisk
  pub map_inode : InodeDisk

-- The sectors of the two files.
abbrev pub own_sector : Volume → (sector : ℕ) → Bool
own_sector v sector =
    (leb v.root_inode.start sector
      && ltb sector (v.root_inode.start + bytes_to_sectors v.root_inode.length))
    || (leb v.map_inode.start sector
        && ltb sector (v.map_inode.start + bytes_to_sectors v.map_inode.length))

-- Where there is memory, and how the three writes of the map end.
pub record Surroundings : Type 0 where
  pub room : Bool
  pub memory : ℕ → Bool
  pub memory' : ℕ → Bool
  pub slot_room : Bool
  pub short : Option (List ℕ)
  pub short' : Option (List ℕ)
  pub short'' : Option (List ℕ)

-- `&& dir_add (dir, name, inode_sector)`
unfoldable pub enter :
    Volume → Surroundings → (name : List ℕ) → (sector : ℕ) → (made : Bool) → Bool × Volume
enter v c name sector false = (false, v)
enter v c name sector true =
    let (es, added) = dir_add v.root name sector c.memory c.memory' c.slot_room in
    (added, record v { root = es })

-- `if (!success && inode_sector != 0)`
unfoldable pub give_back :
    Volume → Surroundings → (sector : ℕ) → (success : Bool) → Kernel (Bool × Volume)
give_back v c sector true = runs (true, v)
give_back v c sector false =
    let release = do
      m ← free_map_release v.map sector 1 c.short''
      runs (false, record v { map = m })
    in if sector == 0 then runs (false, v) else release

-- What follows the allocation of the sector for the inode.
unfoldable pub with_sector :
    Volume
    → Surroundings
    → (name : List ℕ) → (initial_size : ℤ) → (inode_sector : Option ℕ) → Kernel (Bool × Volume)
with_sector v c name initial_size none = runs (false, v)
with_sector v c name initial_size (some s) = do
  (made, d, m) ← inode_create v.disk v.map c.room c.short' s initial_size
  (success, v') ← runs (enter (record v { disk = d; map = m }) c name s made)
  give_back v' c s success

-- `opened` says whether `dir_open_root` succeeds.
unfoldable pub filesys_create :
    Volume
    → (opened : Bool) → Surroundings
    → (name : List ℕ) → (initial_size : ℤ) → Kernel (Bool × Volume)
filesys_create v false c name initial_size = runs (false, v)
filesys_create v true c name initial_size = do
  (inode_sector, m) ← free_map_allocate v.map 1 c.short
  with_sector (record v { map = m }) c name initial_size inode_sector
