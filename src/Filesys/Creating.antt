-- ===== src/Filesys/Creating.antt =====
-- What `filesys_create` of linuxpintos/src/filesys/filesys.c does to the volume.
use tddb68_collab.Base.{ℕ, ◌≡◌, ◌≢◌, ◌⊎◌, Bool, true, false, List}
use tddb68_collab.Bitmap.Bits
use tddb68_collab.Bitmap.Bits.{holds}
use tddb68_collab.Bitmap.Range.{within}
use tddb68_collab.Inode.{bytes_to_sectors}
use tddb68_collab.FreeMap.{FreeMap}
use tddb68_collab.FreeMap.Allocate.{IsValid}
use tddb68_collab.Creation.Created.{Stored}
use tddb68_collab.Directory.Changes.{HasNew}
use tddb68_collab.Filesys.{Volume, own_sector, Surroundings}

-- The map is valid and has a bit for each sector of the disk, and the sectors of the directory and of the map are taken.
pub record IsMapped (v : Volume) : Type 0 where
  pub valid : IsValid v.map
  pub size : v.map.free_map.bit_cnt ≡ v.disk.capacity
  pub own : (j : ℕ) → own_sector v j ≡ true → holds v.map.free_map j ≡ true

-- No sector that is taken, other than `sector`, has changed.
abbrev KeepsBut : (sector : ℕ) → Volume → Volume → Type 0
KeepsBut sector v v' =
    (j k : ℕ)
    → j ≢ sector
    → holds v.map.free_map j ≡ true
    → v'.disk.sectors j k ≡ v.disk.sectors j k

-- The inode is in `sector`, its file on sectors that were free, and the directory has its name.
pub record IsNewFile (v : Volume) (memory : ℕ → Bool) (name : List ℕ) (size sector : ℕ)
    (v' : Volume) : Type 0 where
  start : ℕ
  entered : HasNew memory v.root name sector v'.root
  stored : Stored v.disk sector size start v'.disk
  free : (j : ℕ) → within start (bytes_to_sectors size) j ≡ true → holds v.map.free_map j ≡ false

-- How a call ends, from when the inode has its sector.
abbrev Ends : Volume → Surroundings → (name : List ℕ) → (size sector : ℕ) → Bool → Volume → Type 0
Ends v c name size sector success v' =
    (((success ≡ true) × IsNewFile v c.memory name size sector v')
      ⊎ ((success ≡ false) × (v'.root ≡ v.root)))
    × KeepsBut sector v v'

-- How a call ends.
abbrev Ended : Volume → Surroundings → (name : List ℕ) → (size : ℕ) → Bool → Volume → Type 0
Ended v c name size success v' =
    (((success ≡ true)
        × (sector : ℕ) × (holds v.map.free_map sector ≡ false)
        × IsNewFile v c.memory name size sector v')
      ⊎ ((success ≡ false) × (v'.root ≡ v.root)))
    × ((j k : ℕ) → holds v.map.free_map j ≡ true → v'.disk.sectors j k ≡ v.disk.sectors j k)

-- What a call of `filesys_create` does.
abbrev pub Result : Volume → Surroundings → (name : List ℕ) → (size : ℕ) → Bool → Volume → Type 0
Result v c name size success v' =
    (((success ≡ true)
        × (sector : ℕ) × (holds v.map.free_map sector ≡ false)
        × (own_sector v sector ≡ false)
        × (new : IsNewFile v c.memory name size sector v') × ((j : ℕ)
            → within new.start (bytes_to_sectors size) j ≡ true
            → own_sector v j ≡ false))
      ⊎ ((success ≡ false) × (v'.root ≡ v.root)))
    × ((j k : ℕ)
        → holds v.map.free_map j ≡ true
        → own_sector v j ≡ false
        → v'.disk.sectors j k ≡ v.disk.sectors j k)
