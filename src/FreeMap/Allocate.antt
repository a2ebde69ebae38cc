-- ===== src/FreeMap/Allocate.antt =====
-- Allocating and releasing sectors: linuxpintos/src/filesys/free-map.c.
use tddb68_collab.Base.{
  ℕ, ◌+◌, ◌≤◌, ◌<◌, ◌≡◌, ◌≢◌, refl, ap, ◌∙◌, subst, true, false, Option, none, some, List, ◌==◌,
  arith,
}
use tddb68_collab.Base.Kernel.{runs}
use tddb68_collab.Bitmap.{Bitmap, bitmap_error}
use tddb68_collab.Bitmap.Bits.{holds, Wrote}
use tddb68_collab.Bitmap.Bits
use tddb68_collab.Bitmap.Range.{within, set_multiple-Wrote, all_lem}
use tddb68_collab.Bitmap.Scan.{Found, NoGroup, Flipped, flipped, unchanged, scan_and_flip-Flipped}
use tddb68_collab.FreeMap.{FreeMap, write_map, record_sectors, free_map_allocate, free_map_release}

-- The map is a valid bitmap with fewer bits than BITMAP_ERROR.
pub record IsValid (m : FreeMap) : Type 0 where
  pub map : Bits.IsValid m.free_map
  pub small : m.free_map.bit_cnt < bitmap_error

-- Every sector is as free as it was.
abbrev pub SameSectors : FreeMap → FreeMap → Type 0
SameSectors m m' = (j : ℕ) → holds m'.free_map j ≡ holds m.free_map j

-- The sectors `sector` to `sector + cnt - 1` were the first free group and are now taken, no other
-- sector changed, and the file, if it is open, has the new map.
pub record Allocated (m : FreeMap) (cnt sector : ℕ) (m' : FreeMap) : Type 0 where
  pub group : Found m.free_map 0 cnt false sector
  pub taken : Wrote m.free_map m'.free_map (within sector cnt) true
  pub saved : m'.free_map_file ≡ write_map m'.free_map m.free_map_file none

-- Nothing was allocated: the sectors are as before.
pub record Refused (m m' : FreeMap) : Type 0 where
  pub valid : Bits.IsValid m'.free_map
  pub size : m'.free_map.bit_cnt ≡ m.free_map.bit_cnt
  pub sectors : SameSectors m m'

-- What `free_map_allocate` does, by its result.
pub data Outcome (m : FreeMap) (cnt : ℕ) (short : Option (List ℕ))
    : Option ℕ → FreeMap → Type 0 where
  allocated :
      {o : Option ℕ} {m' : FreeMap} (sector : ℕ)
      → o ≡ some sector
      → Allocated m cnt sector m'
      → Outcome m cnt short o m'
  disk_full :
      {o : Option ℕ} {m' : FreeMap}
      → o ≡ none
      → NoGroup m.free_map 0 cnt false
      → Refused m m'
      → Outcome m cnt short o m'
  write_failed :
      {o : Option ℕ} {m' : FreeMap}
      → o ≡ none
      → short ≢ none
      → m.free_map_file ≢ none
      → Refused m m'
      → Outcome m cnt short o m'

record-Found :
    (m : FreeMap) (cnt sector : ℕ) (b : Bitmap) (short : Option (List ℕ))
    → IsValid m
    → Found m.free_map 0 cnt false sector
    → Wrote m.free_map b (within sector cnt) true
    → (o : Option ℕ) × (m' : FreeMap) × (record_sectors m.free_map_file cnt sector b short
        ≡ runs (o, m'))
      × Outcome m cnt short o m'
unfolding record_sectors
record-Found m cnt sector b short v f w = go m.free_map_file refl short refl
  where
    not_error : (sector == bitmap_error) ≡ false
    not_error = ground (arith, f.inside, v.small)

    go :
        (file : Option (List ℕ))
        → m.free_map_file ≡ file
        → (c : Option (List ℕ)) → short ≡ c
        → (o : Option ℕ) × (m' : FreeMap) × (record_sectors m.free_map_file cnt sector b short
            ≡ runs (o, m'))
          × Outcome m cnt short o m'
    go none e c ec = (
      some sector,
      record { free_map = b; free_map_file = none },
      ground (arith, not_error, e),
      allocated sector refl (record { group = f; taken = w; saved = ground (arith, e) }),
    )
    go (some old) e none ec = (
      some sector,
      record { free_map = b; free_map_file = some b.bits },
      ground (arith, not_error, e, ec),
      allocated sector refl (record { group = f; taken = w; saved = ground (arith, e) }),
    )
    go (some old) e (some words) ec =
        let (b', run, u) =
          set_multiple-Wrote sector cnt false w.valid (omega (arith, w.size, f.inside)) in
        (
          none,
          record { free_map = b'; free_map_file = some words },
          ground (arith, not_error, e, ec, run),
          write_failed refl (λ whole. cc) (λ no_file. cc)
              (record {
                valid = u.valid;
                size = u.size ∙ w.size;
                sectors = λ j. ground (arith, u.bits j, w.bits j, f.group j);
              }),
        )

-- `free_map_allocate` does not panic on a valid map, and either takes the first free group and saves
-- the map, or takes nothing because there is no group, or because the write of the open file failed.
pub allocate-Outcome :
    {m : FreeMap} (cnt : ℕ) (short : Option (List ℕ))
    → IsValid m
    → (o : Option ℕ) × (m' : FreeMap) × (free_map_allocate m cnt short ≡ runs (o, m'))
      × Outcome m cnt short o m'
unfolding free_map_allocate
allocate-Outcome {m} cnt short v =
    let (sector, b, run, f) = scan_and_flip-Flipped 0 cnt false v.map v.small (omega arith) in
    rw run (go f)
  where
    go :
        {sector : ℕ} {b : Bitmap}
        → Flipped m.free_map 0 cnt false sector b
        → (o : Option ℕ) × (m' : FreeMap) × (record_sectors m.free_map_file cnt sector b short
            ≡ runs (o, m'))
          × Outcome m cnt short o m'
    go {sector} {b} (flipped f w) = record-Found m cnt sector b short v f w
    go {sector} {b} (unchanged e same none_there) = (
      none,
      record { free_map = b; free_map_file = m.free_map_file },
      unfold record_sectors in ground (arith, e),
      disk_full refl none_there (record {
        valid = rw same v.map;
        size = ap (λ x. x.bit_cnt) same;
        sectors = λ j. ap (λ x. holds x j) same;
      }),
    )

-- A call that returns a sector has allocated the group there.
allocate-Allocated :
    {m m' : FreeMap} (cnt : ℕ) {sector : ℕ} (short : Option (List ℕ))
    → IsValid m
    → free_map_allocate m cnt short ≡ runs (some sector, m')
    → Allocated m cnt sector m'
allocate-Allocated {m} {m'} cnt {sector} short v e =
    let (o, n, run, out) = allocate-Outcome cnt short v in
    let same_result : o ≡ some sector = cc in
    let same_map : n ≡ m' = cc in subst (Allocated m cnt sector) same_map (go same_result out)
  where
    go :
        {o : Option ℕ} {n : FreeMap}
        → o ≡ some sector
        → Outcome m cnt short o n
        → Allocated m cnt sector n
    go {n = n} h (allocated s e' a) =
        let same : s ≡ sector = cc in subst (λ x. Allocated m cnt x n) same a
    go h (disk_full e' _ _) = absurd (cc)
    go h (write_failed e' _ _ _) = absurd (cc)

-- Sectors that `free_map_allocate` returned on a valid map can be released: `free_map_release` does not panic, however
-- the write of the file ends, and then every sector is as free as before the two calls.
pub release-allocate :
    {m m' : FreeMap} (cnt : ℕ) {sector : ℕ} (short short' : Option (List ℕ))
    → IsValid m
    → free_map_allocate m cnt short ≡ runs (some sector, m')
    → (m'' : FreeMap) × (free_map_release m' sector cnt short' ≡ runs m'') × SameSectors m m''
unfolding free_map_release
release-allocate {m} {m'} cnt {sector} short short' v e =
    let a = allocate-Allocated cnt short v e in
    let inside : sector + cnt ≤ m'.free_map.bit_cnt = omega (arith, a.taken.size, a.group.inside) in
    let (all, test, iff) = all_lem {b = m'.free_map} sector cnt a.taken.valid inside in
    let (b, write, w) =
      set_multiple-Wrote {b = m'.free_map} sector cnt false a.taken.valid inside in
    let used : all ≡ true = iff.1 (λ j lo hi. ground (arith, a.taken.bits j)) in
    (
      record { free_map = b; free_map_file = write_map b m'.free_map_file short' },
      ground (arith, test, used, write),
      λ j. ground (arith, w.bits j, a.taken.bits j, a.group.group j),
    )

-- A sector that is taken can be released.
pub release_lem :
    (m : FreeMap) (sector : ℕ) (short : Option (List ℕ))
    → Bits.IsValid m.free_map
    → sector < m.free_map.bit_cnt
    → holds m.free_map sector ≡ true
    → (m' : FreeMap) × (free_map_release m sector 1 short ≡ runs m')
      × ((j : ℕ) → j ≢ sector → holds m'.free_map j ≡ holds m.free_map j)
unfolding free_map_release
release_lem m sector short v inside taken =
    let (all, test, iff) = all_lem {b = m.free_map} sector 1 v (omega (arith, inside)) in
    let (b, write, w) =
      set_multiple-Wrote {b = m.free_map} sector 1 false v (omega (arith, inside)) in
    let only : (j : ℕ) → sector ≤ j → j < sector + 1 → holds m.free_map j ≡ true =
      λ j lo hi. let same : j ≡ sector = omega arith in rw same taken in
    let used : all ≡ true = iff.1 only in
    (
      record { free_map = b; free_map_file = write_map b m.free_map_file short },
      ground (arith, test, used, write),
      λ j other. ground (arith, w.bits j),
    )
