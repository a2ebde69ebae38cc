-- ===== src/Directory/Removal.antt =====
-- `dir_remove`, and any sequence of calls: linuxpintos/src/filesys/directory.c.
use tddb68_collab.Base.{
  ℕ, zero, suc, ◌<◌, ◌≡◌, ◌≢◌, ◌⊎◌, inl, inr, refl, sym, subst, ap, ◌∙◌, Bool, true, false, ◌&&◌,
  Option, none, some, List, length, set, replicate, get_or, arith, Bool-cases, lt→ltb, length-set,
}
use tddb68_collab.Directory.{
  DirEntry, is_entry, sector_of, find_entry, dir_lookup, write_slot, dir_add, dir_remove, erase,
}
use tddb68_collab.Directory.Names.{Ample, lookup-set_other, lookup-some}
use tddb68_collab.Directory.Changes.{
  unused, HasDistinctNames, entry_unused, entry_named, entry_other, set-HasDistinctNames,
  slot_after, slots_absent, true-false, dir_add-Added, Added-HasDistinctNames,
}

-- How the lookups of a directory go on after a successful call of `dir_remove`.
pub record HasLost (memory : ℕ → Bool) (es : List DirEntry) (name : List ℕ) (inode_sector : ℕ)
    (es' : List DirEntry) : Type 0 where
  pub was_found : dir_lookup es memory name ≡ some inode_sector
  pub is_absent : dir_lookup es' memory name ≡ none
  pub others :
      (other : List ℕ) → other ≢ name → dir_lookup es' memory other ≡ dir_lookup es memory other

module _ (es : List DirEntry) {memory : ℕ → Bool} (ample : Ample memory) (name : List ℕ)
    (v : HasDistinctNames es) where
  -- The slot of an entry that was found, marked as free.
  module _ (e : DirEntry) (k : ℕ) (q : find_entry es memory name ≡ some (e, k)) where
    freed : List DirEntry
    freed = set es k (record e { in_use = false })

    here : (k < length es) × (get_or es k unused ≡ e) × (is_entry name e ≡ true)
    unfolding find_entry
    here =
        let (le, lt, at, is) = lookup-some ample es name 0 k e unused q in
        (omega (arith, lt), subst (λ u. get_or es u unused ≡ e) (omega arith) at, is)

    no_slot : (i : ℕ) → i < length freed → is_entry name (get_or freed i unused) ≡ false
    unfolding freed
    no_slot i h =
        let (lt, at, is) = here in
        let i_in : i < length es =
          omega (arith, h, length-set es k (record e { in_use = false })) in
        elim (slot_after es k (record e { in_use = false }) i i_in) [
          | inl (ik, ie) ↦
              entry_unused name (get_or freed i unused) (ap (λ (t : DirEntry). t.in_use) ie)
          | inr (ik, ie) ↦ (elim (Bool-cases (is_entry name (get_or es i unused))) [
            | inr t ↦ ap (is_entry name) ie ∙ t
            | inl t ↦
                (let (ui, ni) = entry_named name (get_or es i unused) t in
                  let (ue, ne) = entry_named name e is in
                  absurd (
                    ik (
                      v i k i_in lt ui (ap (λ (t : DirEntry). t.in_use) at ∙ ue)
                        (sym ni ∙ ne ∙ ap (λ (t : DirEntry). t.name) (sym at)))))
          ])
        ]

    freed-HasLost : HasLost memory es name e.inode_sector freed
    unfolding dir_lookup find_entry freed
    freed-HasLost =
        let (lt, at, is) = here in
        record {
          was_found = ap sector_of q;
          is_absent = ap sector_of (slots_absent ample freed name 0 no_slot);
          others = λ other ne. ap sector_of (
              lookup-set_other ample es other 0 k (record e { in_use = false }) unused refl
                (ap (is_entry other) at
                  ∙ entry_other name other e (sym (entry_named name e is).1) ne));
        }

    freed-HasDistinctNames : HasDistinctNames freed
    unfolding freed
    freed-HasDistinctNames =
        set-HasDistinctNames es k (record e { in_use = false }) v (λ i ne used same. refl)

  -- What `dir_remove` does with what it found.
  Lost : (opened room : Bool) → Option (DirEntry × ℕ) → Type 0
  Lost opened room o =
      ((sector : ℕ) × ((erase es opened room o).1 ≡ some sector)
        × HasLost memory es name sector (erase es opened room o).0
        × HasDistinctNames (erase es opened room o).0)
      ⊎ ((erase es opened room o ≡ (es, none)) × ((opened && room) ≡ true → o ≡ none))

  erase_lem :
      (opened room : Bool) (o : Option (DirEntry × ℕ))
      → find_entry es memory name ≡ o
      → Lost opened room o
  unfolding Lost erase write_slot freed
  erase_lem opened room none q = inr (refl, λ _. refl)
  erase_lem false room (some (e, k)) q = inr (refl, λ t. cc)
  erase_lem true false (some (e, k)) q = inr (refl, λ t. cc)
  erase_lem true true (some (e, k)) q =
      rw (lt→ltb k (length es) (here e k q).0)
        (inl (e.inode_sector, refl, freed-HasLost e k q, freed-HasDistinctNames e k q))

-- In a directory without two entries of one name, with memory for reading: a successful call of `dir_remove` was for a
-- name of the directory and returns its sector; from then on `dir_lookup` does not find the name, and finds for all others
-- what it found before. A call that fails changes nothing, and fails only if `inode_open` does, there is no memory for
-- the write, or the directory has not the name.
pub dir_remove_lem :
    {memory : ℕ → Bool} (es : List DirEntry) (name : List ℕ) (opened room : Bool)
    → Ample memory
    → HasDistinctNames es
    → ((sector : ℕ) × ((dir_remove es name memory opened room).1 ≡ some sector)
        × HasLost memory es name sector (dir_remove es name memory opened room).0)
      ⊎ ((dir_remove es name memory opened room ≡ (es, none))
          × ((opened && room) ≡ true → dir_lookup es memory name ≡ none))
unfolding dir_remove dir_lookup Lost
dir_remove_lem {memory} es name opened room ample v =
    elim (erase_lem es ample name v opened room (find_entry es memory name) refl) [
      | inl (sector, r, lost, _) ↦ inl (sector, r, lost)
      | inr (r, only) ↦ inr (r, λ t. ap sector_of (only t))
    ]

-- Directories that calls lead to, each with memory for reading, from `dir_create` with room for `n` entries on.
pub data Reach : List DirEntry → Type 0 where
  created : (n : ℕ) → Reach (replicate n unused)
  added :
      {es : List DirEntry} (name : List ℕ) (inode_sector : ℕ) (memory memory' : ℕ → Bool)
      (room : Bool)
      → Ample memory
      → Reach es
      → Reach (dir_add es name inode_sector memory memory' room).0
  removed :
      {es : List DirEntry} (name : List ℕ) (memory : ℕ → Bool) (opened room : Bool)
      → Ample memory
      → Reach es
      → Reach (dir_remove es name memory opened room).0

replicate-unused : (n i : ℕ) → (get_or (replicate n unused) i unused).in_use ≡ false
replicate-unused zero i = refl
replicate-unused (suc n) zero = refl
replicate-unused (suc n) (suc i) = replicate-unused n i

-- However names are added to a new directory and removed from it, with memory for the reads that look for the name, no two
-- entries in use have one name.
pub Reach-HasDistinctNames : {es : List DirEntry} → Reach es → HasDistinctNames es
unfolding dir_remove Lost
Reach-HasDistinctNames (created n) =
    λ i j hi hj ui uj same. absurd (true-false (sym ui ∙ replicate-unused n i))
Reach-HasDistinctNames (added {es} name sector memory memory' room ample r) =
    Added-HasDistinctNames es ample name sector _ (dir_add-Added es name sector memory memory' room)
      (Reach-HasDistinctNames r)
Reach-HasDistinctNames (removed {es} name memory opened room ample r) =
    let v = Reach-HasDistinctNames r in
    elim (erase_lem es ample name v opened room (find_entry es memory name) refl) [
      | inl (sector, q, lost, w) ↦ w
      | inr (q, only) ↦ subst HasDistinctNames (ap (λ p. p.0) (sym q)) v
    ]
