-- ===== src/Pagedir.antt =====
-- Page directories: linuxpintos/src/userprog/pagedir.c, with the page table words of
-- linuxpintos/src/threads/pte.h. `& PTE_ADDR` is the word less its low 12 digits. A directory is taken
-- without the TLB that `invalidate_pagedir` empties, and an entry that is not 0 is taken to be present.
pub mod Words
pub mod Mapping
pub mod Clearing
pub mod Reading
mod Tests
use Prim.Native.Nat.{bit_and, bit_or}
use tddb68_collab.Base.{
  ℕ, ◌+◌, ◌-◌, ◌*◌, ◌/◌, ◌%◌, ◌^◌, Bool, true, false, not, Option, none, some, ◌==◌, ltb,
  if◌then◌else◌,
}
use tddb68_collab.Base.Kernel.{Kernel, runs, panics, ◌>>=◌, ◌>>◌, assert}
use tddb68_collab.Vaddr.{pgsize, phys_base, pg_ofs, is_user_vaddr}

abbrev pub pt_no : ℕ → ℕ
pt_no va = va / 2 ^ 12 % 2 ^ 10

abbrev pub pd_no : ℕ → ℕ
pd_no va = va / 2 ^ 22

abbrev pub pte_p : ℕ
pte_p = 2 ^ 0

abbrev pub pte_w : ℕ
pte_w = 2 ^ 1

abbrev pub pte_u : ℕ
pte_u = 2 ^ 2

abbrev pub pte_a : ℕ
pte_a = 2 ^ 5

abbrev pub pte_d : ℕ
pte_d = 2 ^ 6

-- A word `pte & flag` as a condition.
abbrev pub has : ℕ → (flag : ℕ) → Bool
has pte flag = not (bit_and pte flag == 0)

pub vtop : ℕ → Kernel ℕ
vtop vaddr = do assert (not (is_user_vaddr vaddr)); runs (vaddr - phys_base)

unfoldable pub ptov : ℕ → Kernel ℕ
ptov paddr = do assert (ltb paddr phys_base); runs ((paddr + phys_base) % 2 ^ 32)

pub pte_create_kernel : (page : ℕ) → (writable : Bool) → Kernel ℕ
pte_create_kernel page writable = do
  assert (pg_ofs page == 0)
  frame ← vtop page
  runs (bit_or (bit_or frame pte_p) (if writable then pte_w else 0))

pub pte_create_user : (page : ℕ) → (writable : Bool) → Kernel ℕ
pte_create_user page writable = do pte ← pte_create_kernel page writable; runs (bit_or pte pte_u)

unfoldable pub pte_get_page : ℕ → Kernel ℕ
pte_get_page pte = ptov (pte - pte % 2 ^ 12)

-- The page tables by the index of their entry in the directory, `none` for an entry of 0; and whether
-- the directory is `base_page_dir`.
pub record PageDir : Type 0 where
  pub tables : ℕ → Option (ℕ → ℕ)
  pub is_base : Bool

abbrev pub store {ℓ} : {A : Type ℓ} → (ℕ → A) → (i : ℕ) → A → ℕ → A
store f i a j = if j == i then a else f j

-- The word at the address that `lookup_page` returns, and a write through it.
abbrev pub entry : PageDir → (vaddr : ℕ) → Option ℕ
entry pd vaddr = elim (pd.tables (pd_no vaddr)) [ none ↦ none | some pt ↦ some (pt (pt_no vaddr)) ]

abbrev pub write_entry : PageDir → (vaddr pte : ℕ) → PageDir
write_entry pd vaddr pte = elim (pd.tables (pd_no vaddr)) [
  | none ↦ pd
  | some pt ↦ record pd {
    tables = store pd.tables (pd_no vaddr) (some (store pt (pt_no vaddr) pte));
  }
]

-- The page table entry, if the address has one afterwards, and the directory. `room` tells whether
-- `palloc_get_page` has a page for a new table, which it fills with zeros.
unfoldable pub lookup_page :
    PageDir → (vaddr : ℕ) → (create room : Bool) → Kernel (Option ℕ × PageDir)
lookup_page pd vaddr create room =
    let added : PageDir = record pd { tables = store pd.tables (pd_no vaddr) (some (λ i. 0)) } in
    let missing =
      if create
      then (if room then runs (entry added vaddr, added) else runs (none, pd))
      else runs (none, pd) in
    do
      assert (if create then is_user_vaddr vaddr else true)
      elim (pd.tables (pd_no vaddr)) [ none ↦ missing | some pt ↦ runs (entry pd vaddr, pd) ]

-- The part of `pagedir_set_page` after `lookup_page`.
pub map_entry : PageDir → (upage kpage : ℕ) → (writable : Bool) → Option ℕ → Kernel (Bool × PageDir)
map_entry pd upage kpage writable none = runs (false, pd)
map_entry pd upage kpage writable (some old) = do
  assert (bit_and old pte_p == 0)
  pte ← pte_create_user kpage writable
  runs (true, write_entry pd upage pte)

-- Whether the mapping was made.
pub pagedir_set_page :
    PageDir → (upage kpage : ℕ) → (writable room : Bool) → (ram_pages : ℕ) → Kernel (Bool × PageDir)
pagedir_set_page pd upage kpage writable room ram_pages = do
  assert (pg_ofs upage == 0)
  assert (pg_ofs kpage == 0)
  assert (is_user_vaddr upage)
  frame ← vtop kpage
  assert (ltb (frame / 2 ^ 12) ram_pages)
  assert (not pd.is_base)
  (found, pd') ← lookup_page pd upage true room
  map_entry pd' upage kpage writable found

-- The kernel address, or 0 for a null pointer.
unfoldable pub pagedir_get_page : PageDir → (uaddr : ℕ) → Kernel ℕ
pagedir_get_page pd uaddr = do
  assert (is_user_vaddr uaddr)
  (found, _) ← lookup_page pd uaddr false false
  elim found [
    | none ↦ runs 0
    | some pte ↦
        let mapped = do page ← pte_get_page pte; runs ((page + pg_ofs uaddr) % 2 ^ 32)
        in if has pte pte_p then mapped else runs 0
  ]

pub pagedir_clear_page : PageDir → (upage : ℕ) → Kernel PageDir
pagedir_clear_page pd upage = do
  assert (pg_ofs upage == 0)
  assert (is_user_vaddr upage)
  (found, _) ← lookup_page pd upage false false
  elim found [
    | none ↦ runs pd
    | some pte ↦
        if has pte pte_p
        then runs (write_entry pd upage (bit_and pte (2 ^ 32 - 1 - pte_p)))
        else runs pd
  ]

-- `pagedir_is_dirty` and `pagedir_is_accessed`, by the flag.
pub flag_is_set : PageDir → (vpage flag : ℕ) → Kernel Bool
flag_is_set pd vpage flag = do
  (found, _) ← lookup_page pd vpage false false
  elim found [ none ↦ runs false | some pte ↦ runs (has pte flag) ]

-- `pagedir_set_dirty` and `pagedir_set_accessed`, by the flag.
pub set_flag : PageDir → (vpage flag : ℕ) → (value : Bool) → Kernel PageDir
set_flag pd vpage flag value = do
  (found, _) ← lookup_page pd vpage false false
  elim found [
    | none ↦ runs pd
    | some pte ↦
        runs (
          write_entry pd vpage (if value then bit_or pte flag else bit_and pte (2 ^ 32 - 1 - flag)))
  ]
