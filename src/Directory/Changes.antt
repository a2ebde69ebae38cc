-- ===== src/Directory/Changes.antt =====
-- Adding and removing names: `dir_add`, `dir_remove` and `dir_lookup` in linuxpintos/src/filesys/directory.c, where there is
-- memory for the bounce buffers of reads.
use tddb68_collab.Base.{
  ℕ, zero, suc, ◌+◌, ◌<◌, ◌≡◌, ◌≢◌, ◌⊎◌, inl, inr, refl, sym, subst, ap, ◌∙◌, Bool, true, false,
  ◌&&◌, ◌||◌, none, some, List, [], ◌∷◌, ◌==◌, ltb, length, set, get_or, arith, Bool-cases,
  Option-cases, length-set, get_or-set_self, get_or-set_ne,
}
use tddb68_collab.Directory.{
  DirEntry, name_max, same_name, is_entry, sector_of, lookup_from, find_entry, dir_lookup,
  free_slot, write_slot, dir_add,
}
use tddb68_collab.Directory.Names.{
  same_name_refl, same_name_sound, Ample, lookup-set_other, lookup-set_self, lookup-none,
  free_slot_lem,
}

-- A slot that is not in use.
abbrev pub unused : DirEntry
unused = record { inode_sector = 0; name = []; in_use = false }

abbrev pub new_entry : (name : List ℕ) → (inode_sector : ℕ) → DirEntry
new_entry name inode_sector = record { inode_sector = inode_sector; name = name; in_use = true }

-- No two slots in use have one name.
abbrev pub HasDistinctNames : List DirEntry → Type 0
HasDistinctNames es =
    (i j : ℕ)
    → i < length es
    → j < length es
    → (get_or es i unused).in_use ≡ true
    → (get_or es j unused).in_use ≡ true
    → (get_or es i unused).name ≡ (get_or es j unused).name
    → i ≡ j

pub entry_unused : (name : List ℕ) (e : DirEntry) → e.in_use ≡ false → is_entry name e ≡ false
entry_unused name e h = ap (λ b. b && same_name name e.name) h

pub entry_named :
    (name : List ℕ) (e : DirEntry) → is_entry name e ≡ true → (e.in_use ≡ true) × (name ≡ e.name)
entry_named name e h = elim (Bool-cases e.in_use) [
  | inl t ↦ (t, same_name_sound name e.name (sym (ap (λ b. b && same_name name e.name) t) ∙ h))
  | inr t ↦ (let off = entry_unused name e t in cc)
]

pub entry_other :
    (name other : List ℕ) (e : DirEntry) → e.name ≡ name → other ≢ name → is_entry other e ≡ false
entry_other name other e h ne = elim (Bool-cases (is_entry other e)) [
  | inl t ↦ absurd (ne ((entry_named other e t).1 ∙ h))
  | inr t ↦ t
]

entry_is : (name : List ℕ) (e : DirEntry) → e.in_use ≡ true → e.name ≡ name → is_entry name e ≡ true
entry_is name e used same =
    ap (λ b. b && same_name name e.name) used ∙ (ap (same_name name) same ∙ same_name_refl name)

pub true-false : true ≡ false → ⊥
true-false e = cc

-- A slot after one was written.
pub slot_after :
    (es : List DirEntry) (k : ℕ) (e : DirEntry) (i : ℕ)
    → i < length es
    → ((i ≡ k) × (get_or (set es k e) i unused ≡ e))
      ⊎ ((i ≢ k) × (get_or (set es k e) i unused ≡ get_or es i unused))
slot_after es k e i h = elim (Bool-cases (i == k)) [
  | inl t ↦
      (let same : i ≡ k = ground (arith, t) in
        inl (
          same,
          subst (λ u. get_or (set es k e) u unused ≡ e) (sym same)
              (get_or-set_self es k e unused (omega (arith, h, same))),
        ))
  | inr t ↦
      inr (λ u. ground (arith, t, u), get_or-set_ne es k i e unused (λ u. ground (arith, t, u)))
]

-- A slot whose name, if it is in use, no other slot in use has.
pub set-HasDistinctNames :
    (es : List DirEntry) (k : ℕ) (e : DirEntry)
    → HasDistinctNames es
    → ((i : ℕ)
        → i ≢ k
        → (get_or es i unused).in_use ≡ true
        → (get_or es i unused).name ≡ e.name
        → e.in_use ≡ false)
    → HasDistinctNames (set es k e)
set-HasDistinctNames es k e v apart i j hi hj ui uj same =
    let i_in : i < length es = omega (arith, hi, length-set es k e) in
    let j_in : j < length es = omega (arith, hj, length-set es k e) in
    elim (slot_after es k e i i_in) [
      | inl (ik, ie) ↦ (elim (slot_after es k e j j_in) [
        | inl (jk, je) ↦ ik ∙ sym jk
        | inr (jk, je) ↦
            (let on = ap (λ (t : DirEntry). t.in_use) (sym ie) ∙ ui in
              let off = apart j jk (ap (λ (t : DirEntry). t.in_use) (sym je) ∙ uj) (
                ap (λ (t : DirEntry). t.name) (sym je)
                ∙ sym same
                ∙ ap (λ (t : DirEntry). t.name) ie) in
              absurd (true-false (sym on ∙ off)))
      ])
      | inr (ik, ie) ↦ (elim (slot_after es k e j j_in) [
        | inl (jk, je) ↦
            (let on = ap (λ (t : DirEntry). t.in_use) (sym je) ∙ uj in
              let off = apart i ik (ap (λ (t : DirEntry). t.in_use) (sym ie) ∙ ui) (
                ap (λ (t : DirEntry). t.name) (sym ie) ∙ same ∙ ap (λ (t : DirEntry). t.name) je) in
              absurd (true-false (sym on ∙ off)))
        | inr (jk, je) ↦
            v i j i_in j_in (ap (λ (t : DirEntry). t.in_use) (sym ie) ∙ ui)
              (ap (λ (t : DirEntry). t.in_use) (sym je) ∙ uj)
              (ap (λ (t : DirEntry). t.name) (sym ie) ∙ same ∙ ap (λ (t : DirEntry). t.name) je)
      ])
    ]

-- What `lookup` says of the slots.
module _ {memory : ℕ → Bool} (ample : Ample memory) where
  absent_slots :
      (es : List DirEntry) (name : List ℕ) (j : ℕ)
      → lookup_from es memory name j ≡ none
      → (i : ℕ) → is_entry name (get_or es i unused) ≡ false
  absent_slots [] name j h i = refl
  absent_slots (x ∷ es) name j h zero = (lookup-none ample x es name j h).0
  absent_slots (x ∷ es) name j h (suc i) =
      absent_slots es name (j + 1) (lookup-none ample x es name j h).1 i

  pub slots_absent :
      (es : List DirEntry) (name : List ℕ) (j : ℕ)
      → ((i : ℕ) → i < length es → is_entry name (get_or es i unused) ≡ false)
      → lookup_from es memory name j ≡ none
  unfolding lookup_from
  slots_absent [] name j h = refl
  slots_absent (x ∷ es) name j h =
      rw (ample j, h 0 (omega arith))
        (slots_absent es name (j + 1) (λ i lt. h (suc i) (omega (arith, lt))))

-- How `dir_add` ends.
pub data Added (es : List DirEntry) (name : List ℕ) (inode_sector : ℕ) (memory memory' : ℕ → Bool)
    : List DirEntry × Bool → Type 0 where
  wrote :
      find_entry es memory name ≡ none
      → free_slot es memory' 0 < length es
      → Added es name inode_sector memory memory'
          (set es (free_slot es memory' 0) (new_entry name inode_sector), true)
  refused : Added es name inode_sector memory memory' (es, false)

pub dir_add-Added :
    (es : List DirEntry) (name : List ℕ) (inode_sector : ℕ) (memory memory' : ℕ → Bool)
    (room : Bool)
    → Added es name inode_sector memory memory' (dir_add es name inode_sector memory memory' room)
unfolding dir_add write_slot
dir_add-Added es name inode_sector memory memory' room =
    elim (Bool-cases (length name == 0 || ltb name_max (length name))) [
      | inl t ↦ rw t refused
      | inr t ↦ (elim (Option-cases (find_entry es memory name)) [
        | inr (x, q) ↦ rw (t, q) refused
        | inl q ↦ (elim (Bool-cases (room && ltb (free_slot es memory' 0) (length es))) [
          | inl w ↦ rw (t, q, w) (wrote q (ground (arith, w)))
          | inr w ↦ rw (t, q, w) refused
        ])
      ])
    ]

-- How the lookups of a directory go on after a successful call of `dir_add`.
pub record HasNew (memory : ℕ → Bool) (es : List DirEntry) (name : List ℕ) (inode_sector : ℕ)
    (es' : List DirEntry) : Type 0 where
  pub was_absent : dir_lookup es memory name ≡ none
  pub is_found : dir_lookup es' memory name ≡ some inode_sector
  pub keeps :
      (other : List ℕ) → other ≢ name → dir_lookup es' memory other ≡ dir_lookup es memory other

module _ (es : List DirEntry) {memory memory' : ℕ → Bool} (ample : Ample memory)
    (ample' : Ample memory') where
  free_unused :
      free_slot es memory' 0 < length es
      → (get_or es (free_slot es memory' 0) unused).in_use ≡ false
  free_unused lt =
      subst (λ u. (get_or es u unused).in_use ≡ false) (omega arith)
        ((free_slot_lem ample' es 0 unused).1 (omega (arith, lt)))

  Added-HasNew :
      (name : List ℕ) (inode_sector : ℕ) (r : List DirEntry × Bool)
      → Added es name inode_sector memory memory' r
      → ((r.1 ≡ true) × HasNew memory es name inode_sector r.0) ⊎ (r ≡ (es, false))
  unfolding dir_lookup find_entry
  Added-HasNew name inode_sector _ refused = inr refl
  Added-HasNew name inode_sector _ (wrote absent lt) =
      let k = free_slot es memory' 0 in
      let e = new_entry name inode_sector in
      inl (
        refl,
        record {
          was_absent = ap sector_of absent;
          is_found =
              ap sector_of (lookup-set_self ample es name 0 k e (same_name_refl name) absent lt);
          keeps = λ other ne. ap sector_of (
              lookup-set_other ample es other 0 k e unused (entry_other name other e refl ne)
                (entry_unused other (get_or es k unused) (free_unused lt)));
        },
      )

module _ (es : List DirEntry) {memory memory' : ℕ → Bool} (ample : Ample memory) where
  pub Added-HasDistinctNames :
      (name : List ℕ) (inode_sector : ℕ) (r : List DirEntry × Bool)
      → Added es name inode_sector memory memory' r
      → HasDistinctNames es
      → HasDistinctNames r.0
  unfolding find_entry
  Added-HasDistinctNames name inode_sector _ refused v = v
  Added-HasDistinctNames name inode_sector _ (wrote absent lt) v =
      set-HasDistinctNames es (free_slot es memory' 0) (new_entry name inode_sector) v
        (λ i out used same.
          let not_named = absent_slots ample es name 0 absent i in
          let named = entry_is name (get_or es i unused) used same in cc)

-- A successful call of `dir_add`, with memory for reading, was for a name that the directory had not; from then on
-- `dir_lookup` finds the sector for it, and for all other names what it found before. A call that fails changes nothing.
pub dir_add_lem :
    {memory memory' : ℕ → Bool} (es : List DirEntry) (name : List ℕ) (inode_sector : ℕ)
    (room : Bool)
    → Ample memory
    → Ample memory'
    → (((dir_add es name inode_sector memory memory' room).1 ≡ true)
        × HasNew memory es name inode_sector (dir_add es name inode_sector memory memory' room).0)
      ⊎ (dir_add es name inode_sector memory memory' room ≡ (es, false))
dir_add_lem {memory} {memory'} es name inode_sector room ample ample' =
    Added-HasNew es ample ample' name inode_sector _
      (dir_add-Added es name inode_sector memory memory' room)
