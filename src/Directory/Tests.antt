-- ===== src/Directory/Tests.antt =====
-- A directory with "a" in its second slot and "b" removed from its first: linuxpintos/src/filesys/directory.c.
use tddb68_collab.Base.{ℕ, ◌≡◌, ◌⊎◌, refl, Bool, true, false, ◌&&◌, none, some, List, [], ◌∷◌}
use tddb68_collab.Directory.{
  DirEntry, same_name, lookup_from, find_entry, dir_lookup, free_slot, write_slot, dir_add, erase,
  dir_remove, dir_readdir,
}
use tddb68_collab.Directory.Changes.{new_entry, HasDistinctNames, HasNew, dir_add_lem}
use tddb68_collab.Directory.Removal.{
  HasLost, dir_remove_lem, Reach, created, added, removed, Reach-HasDistinctNames,
}

abbrev name_a : List ℕ
name_a = 97 ∷ []

abbrev name_b : List ℕ
name_b = 98 ∷ []

abbrev always : ℕ → Bool
always k = true

abbrev listing : List DirEntry
listing = record (new_entry name_b 6) { in_use = false } ∷ new_entry name_a 7 ∷ []

listing-Reach : Reach listing
unfolding dir_add find_entry lookup_from same_name free_slot write_slot dir_remove erase
listing-Reach =
    removed name_b always true true (λ k. refl)
      (added name_a 7 always always true (λ k. refl)
        (added name_b 6 always always true (λ k. refl) (created 2)))

Reach-HasDistinctNames_example : HasDistinctNames listing
Reach-HasDistinctNames_example = Reach-HasDistinctNames listing-Reach

dir_add_lem_example :
    (((dir_add listing name_b 9 always always true).1 ≡ true)
      × HasNew always listing name_b 9 (dir_add listing name_b 9 always always true).0)
    ⊎ (dir_add listing name_b 9 always always true ≡ (listing, false))
dir_add_lem_example = dir_add_lem listing name_b 9 true (λ k. refl) (λ k. refl)

dir_remove_lem_example :
    ((sector : ℕ) × ((dir_remove listing name_a always true true).1 ≡ some sector)
      × HasLost always listing name_a sector (dir_remove listing name_a always true true).0)
    ⊎ ((dir_remove listing name_a always true true ≡ (listing, none))
        × ((true && true) ≡ true → dir_lookup listing always name_a ≡ none))
dir_remove_lem_example =
    dir_remove_lem listing name_a true true (λ k. refl) (Reach-HasDistinctNames listing-Reach)

reads_a : dir_readdir listing always 0 ≡ (2, some name_a)
unfolding dir_readdir
reads_a = refl

-- Without memory for reading a slot in use, `dir_add` takes it for the end of the file and overwrites it.
overwrites :
    dir_add (new_entry name_a 7 ∷ []) name_b 9 always (λ k. false) true
    ≡ (new_entry name_b 9 ∷ [], true)
unfolding dir_add find_entry lookup_from same_name free_slot write_slot
overwrites = refl
