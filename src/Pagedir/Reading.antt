-- ===== src/Pagedir/Reading.antt =====
-- When `pagedir_get_page` finds a page: linuxpintos/src/userprog/pagedir.c.
use tddb68_collab.Base.{
  ℕ, ◌+◌, ◌-◌, ◌%◌, ◌^◌, ◌<◌, ◌≡◌, refl, ◌∙◌, Bool, true, false, not, ◌==◌, arith, Bool-cases, inl,
  inr,
}
use tddb68_collab.Base.Kernel.{runs, panics}
use tddb68_collab.Vaddr.{phys_base, pg_ofs, is_user_vaddr}
use tddb68_collab.Pagedir.{PageDir, pte_p, has, ptov, pte_get_page, pagedir_get_page}
use tddb68_collab.Pagedir.Mapping.{word, get_page-word}

-- Every page of user memory that is mapped is mapped into the kernel's window of physical memory.
abbrev pub IsValid : PageDir → Type 0
IsValid pd =
    (va : ℕ) → is_user_vaddr va ≡ true → has (word pd va) pte_p ≡ true → word pd va < 2 ^ 30

abbrev pub mapped : PageDir → (va : ℕ) → Bool
mapped pd va = has (word pd va) pte_p

-- On a user address `pagedir_get_page` does not panic, and returns null just if the address is not
-- mapped.
pub get_page-mapped :
    (pd : PageDir) (va : ℕ)
    → IsValid pd
    → is_user_vaddr va ≡ true
    → (page : ℕ) × (pagedir_get_page pd va ≡ runs page) × ((page == 0) ≡ not (mapped pd va))
unfolding pte_get_page ptov
get_page-mapped pd va v user = elim (Bool-cases (mapped pd va)) [
  | inl m ↦
      let small : word pd va < 2 ^ 30 = v va user m in
      let frame : ℕ = word pd va - word pd va % 2 ^ 12 + phys_base in
      (
        frame + pg_ofs va,
        get_page-word pd va user ∙ rw m (ground (arith, small)),
        ground (arith, small),
      )
  | inr m ↦ (0, get_page-word pd va user ∙ rw m refl, rw m refl)
]

pub get_page-kernel :
    (pd : PageDir) (va : ℕ) → is_user_vaddr va ≡ false → pagedir_get_page pd va ≡ panics
unfolding pagedir_get_page
get_page-kernel pd va kernel = ground arith
