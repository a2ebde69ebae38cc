-- ===== src/Opens/Calls.antt =====
-- The open files, and the calls on them: linuxpintos/src/filesys/file.c.
use tddb68_collab.Base.{
  ℕ, ◌+◌, ◌≤◌, ◌≡◌, refl, Bool, ◌&&◌, Option, none, some, List, [], ◌∷◌, ◌++◌, ◌==◌, arith,
}
use tddb68_collab.Inode.{InodeDisk}
use tddb68_collab.Opens.{
  Access, done, ◌>>=◌, Node, OpenFile, find_sector, open_found, inode_remove, file_open,
  file_reopen, file_close, file_deny_write, file_allow_write,
}
use tddb68_collab.Opens.Counts.{one_if, IsConsistent}
use tddb68_collab.Opens.Opening.{IsFresh}

-- How many of the files are on the inode at an address, and how many of these deny writes.
unfoldable pub opens_of : List OpenFile → (a : ℕ) → ℕ
opens_of [] a = 0
opens_of (f ∷ fs) a = opens_of fs a + one_if (f.inode == a)

unfoldable pub denies_of : List OpenFile → (a : ℕ) → ℕ
denies_of [] a = 0
denies_of (f ∷ fs) a = denies_of fs a + one_if (f.inode == a && f.deny_write)

pub opens_apart :
    (before : List OpenFile) (f : OpenFile) (after : List OpenFile) (a : ℕ)
    → opens_of (before ++ (f ∷ after)) a ≡ opens_of (before ++ after) a + one_if (f.inode == a)
unfolding opens_of
opens_apart [] f after a = refl
opens_apart (g ∷ before) f after a = omega (arith, opens_apart before f after a)

pub denies_apart :
    (before : List OpenFile) (f : OpenFile) (after : List OpenFile) (a : ℕ)
    → denies_of (before ++ (f ∷ after)) a
      ≡ denies_of (before ++ after) a + one_if (f.inode == a && f.deny_write)
unfolding denies_of
denies_apart [] f after a = refl
denies_apart (g ∷ before) f after a = omega (arith, denies_apart before f after a)

pub denies_le : (fs : List OpenFile) (a : ℕ) → denies_of fs a ≤ opens_of fs a
unfolding denies_of opens_of
denies_le [] a = omega arith
denies_le (f ∷ fs) a = ground (arith, denies_le fs a)

-- The open inodes, the files that are not closed yet, and the inodes that calls of `inode_open` have found but not
-- reopened yet.
pub record Files : Type 0 where
  pub nodes : List Node
  pub files : List OpenFile
  pub found : List ℕ

unfoldable pub add : Option OpenFile → List OpenFile → List OpenFile
add none fs = fs
add (some f) fs = f ∷ fs

abbrev pub with_new :
    Access (List Node × Option OpenFile) → (fs : List OpenFile) → (found : List ℕ) → Access Files
with_new r fs found = r >>= λ (ns, f). done (record { nodes = ns; files = add f fs; found = found })

-- The calls, with what they return: opening a file by its sector, and for a file that is open what file.c does. Where
-- `inode_open` finds the inode, it gives up `occ_lock` before `inode_reopen`, so it is two calls.
pub data Calls (s : Files) : Access Files → Type 0 where
  finds :
      (sector a : ℕ)
      → find_sector s.nodes sector ≡ some a
      → Calls s (done (record s { found = a ∷ s.found }))
  opens_found :
      (before : List ℕ) (a : ℕ) (after : List ℕ) (sector : ℕ) (memory : Option ℕ)
      (contents : InodeDisk) (room : Bool)
      → s.found ≡ before ++ (a ∷ after)
      → Calls s (
          open_found s.nodes (some a) sector memory contents >>= λ (ns, i).
          with_new (file_open ns i room) s.files (before ++ after))
  opens_new :
      (sector : ℕ) (memory : Option ℕ) (contents : InodeDisk) (room : Bool)
      → find_sector s.nodes sector ≡ none
      → IsFresh s.nodes memory
      → Calls s (
          open_found s.nodes none sector memory contents >>= λ (ns, i).
          with_new (file_open ns i room) s.files s.found)
  reopens :
      (before : List OpenFile) (f : OpenFile) (after : List OpenFile) (room : Bool)
      → s.files ≡ before ++ (f ∷ after)
      → Calls s (with_new (file_reopen s.nodes f room) s.files s.found)
  closes :
      (before : List OpenFile) (f : OpenFile) (after : List OpenFile)
      → s.files ≡ before ++ (f ∷ after)
      → Calls s (
          file_close s.nodes f >>= λ (ns, _).
          done (record s { nodes = ns; files = before ++ after }))
  denies :
      (before : List OpenFile) (f : OpenFile) (after : List OpenFile)
      → s.files ≡ before ++ (f ∷ after)
      → Calls s (
          file_deny_write s.nodes f >>= λ (ns, g).
          done (record s { nodes = ns; files = before ++ (g ∷ after) }))
  allows :
      (before : List OpenFile) (f : OpenFile) (after : List OpenFile)
      → s.files ≡ before ++ (f ∷ after)
      → Calls s (
          file_allow_write s.nodes f >>= λ (ns, g).
          done (record s { nodes = ns; files = before ++ (g ∷ after) }))
  removes :
      (before : List OpenFile) (f : OpenFile) (after : List OpenFile)
      → s.files ≡ before ++ (f ∷ after)
      → Calls s (inode_remove s.nodes f.inode >>= λ ns. done (record s { nodes = ns }))

pub data Reach : Files → Type 0 where
  start : Reach (record { nodes = []; files = []; found = [] })
  next : {s : Files} {r : Access Files} (s' : Files) → Reach s → Calls s r → r ≡ done s' → Reach s'

abbrev pub IsSound : Files → Type 0
IsSound s = IsConsistent s.nodes (opens_of s.files) (denies_of s.files)
