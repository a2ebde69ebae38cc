-- ===== src/Pagedir/Tests.antt =====
-- Runs of linuxpintos/src/userprog/pagedir.c on a small directory.
use tddb68_collab.Base.{ℕ, ◌≡◌, refl, true, false, none, some, arith}
use tddb68_collab.Base.Kernel.{runs}
use tddb68_collab.Pagedir.{
  PageDir, store, vtop, lookup_page, map_entry, pte_create_kernel, pte_create_user,
  pagedir_set_page, pagedir_get_page,
}
use tddb68_collab.Pagedir.Mapping.{get-set_page}

abbrev empty : PageDir
empty = record { tables = λ i. none; is_base = false }

-- The page at 0x08048000, mapped to the frame at 0xc0300000.
abbrev upage : ℕ
upage = 0x08048000

abbrev kpage : ℕ
kpage = 0xc0300000

abbrev mapped : PageDir
mapped = record {
  tables = store (store empty.tables 32 (some (λ i. 0))) 32 (some (store (λ i. 0) 72 0x300007));
  is_base = false;
}

set_page-empty : pagedir_set_page empty upage kpage true true 1024 ≡ runs (true, mapped)
unfolding pagedir_set_page vtop lookup_page map_entry pte_create_user pte_create_kernel
set_page-empty = refl

get-set_page_example :
    (pagedir_get_page empty upage ≡ runs 0) × (pagedir_get_page mapped 0x08048abc ≡ runs 0xc0300abc)
get-set_page_example =
    get-set_page empty upage kpage true true 1024 0x08048abc (omega arith) refl set_page-empty
