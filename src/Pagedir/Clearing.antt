-- ===== src/Pagedir/Clearing.antt =====
-- Unmapping a page: linuxpintos/src/userprog/pagedir.c.
use Prim.Native.Nat.{bit_and}
use tddb68_collab.Base.{
  ℕ, ◌-◌, ◌^◌, ◌<◌, ◌≡◌, refl, sym, ap, ◌∙◌, true, false, ◌==◌, if◌then◌else◌, arith, Option-cases,
  Bool-cases, inl, inr,
}
use tddb68_collab.Base.Kernel.{runs}
use tddb68_collab.Vaddr.{pg_ofs, pg_no, is_user_vaddr}
use tddb68_collab.Pagedir.{
  PageDir, pt_no, pd_no, pte_p, has, write_entry, lookup_page, pagedir_get_page, pagedir_clear_page,
}
use tddb68_collab.Bits.{bit-bit_and, bit-complement}
use tddb68_collab.Pagedir.Words.{has-bit}
use tddb68_collab.Pagedir.Mapping.{word, get_page-word, same_entry, word-write, same_page_word}

-- Clearing the present flag of a page's word unmaps the page.
cleared_word : (pte : ℕ) → pte < 2 ^ 32 → has (bit_and pte (2 ^ 32 - 1 - pte_p)) pte_p ≡ false
cleared_word pte small =
    has-bit (bit_and pte (2 ^ 32 - 1 - pte_p)) 0
    ∙ bit-bit_and pte (2 ^ 32 - 1 - pte_p) 0
    ∙ ground (arith, bit-complement 32 0 0)

clear_page-word :
    (pd : PageDir) (upage : ℕ)
    → pg_ofs upage ≡ 0
    → is_user_vaddr upage ≡ true
    → word pd upage < 2 ^ 32
    → (pd' : PageDir) × (pagedir_clear_page pd upage ≡ runs pd')
      × (has (word pd' upage) pte_p ≡ false)
      × ((va : ℕ) → va < 2 ^ 32 → (pg_no va == pg_no upage) ≡ false → word pd' va ≡ word pd va)
unfolding pagedir_clear_page lookup_page
clear_page-word pd upage aligned user small = elim (Option-cases (pd.tables (pd_no upage))) [
  | inl e ↦ (pd, ground arith, ground arith, λ va lt ne. refl)
  | inr (pt, e) ↦ elim (Bool-cases (has (pt (pt_no upage)) pte_p)) [
    | inl p ↦
        let cleared : ℕ = bit_and (pt (pt_no upage)) (2 ^ 32 - 1 - pte_p) in
        (
          write_entry pd upage cleared,
          ground arith,
          ap (λ w. has w pte_p) (word-write pd upage cleared upage e ∙ ground arith)
              ∙ cleared_word (pt (pt_no upage)) (ground arith),
          λ va lt ne. word-write pd upage cleared va e ∙ ground (arith, same_entry va upage lt),
        )
    | inr p ↦ (pd, ground arith, ground arith, λ va lt ne. refl)
  ]
]

-- `pagedir_clear_page` of a page-aligned user address, with a word of 32 bits, does not panic, unmaps the page, mapped before or not, and keeps
-- how every other user address is mapped.
pub get-clear_page :
    (pd : PageDir) (upage va : ℕ)
    → pg_ofs upage ≡ 0
    → is_user_vaddr upage ≡ true
    → word pd upage < 2 ^ 32
    → is_user_vaddr va ≡ true
    → (pd' : PageDir) × (pagedir_clear_page pd upage ≡ runs pd')
      × (pagedir_get_page pd' va
          ≡ (if pg_no va == pg_no upage then runs 0 else pagedir_get_page pd va))
get-clear_page pd upage va aligned user small user_va =
    let (pd', run, gone, others) = clear_page-word pd upage aligned user small in
    (
      pd',
      run,
      get_page-word pd' va user_va ∙ elim (Bool-cases (pg_no va == pg_no upage)) [
        | inl e ↦ rw (e, same_page_word pd' va upage (ground (arith, e)), gone) refl
        | inr e ↦ rw (e, others va (ground (arith, user_va)) e) (sym (get_page-word pd va user_va))
      ],
    )
