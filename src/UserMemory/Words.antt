-- ===== src/UserMemory/Words.antt =====
-- Loads of aligned words: linuxpintos/src/userprog/syscall.c.
use tddb68_collab.Base.{
  ℕ, ◌+◌, ◌*◌, ◌%◌, ◌^◌, ◌≡◌, ◌⊎◌, refl, ap, ◌∙◌, true, false, not, ◌&&◌, ◌==◌, arith, Bool-cases,
  inl, inr,
}
use tddb68_collab.Base.Kernel.{runs}
use tddb68_collab.Vaddr.{is_user_vaddr}
use tddb68_collab.Pagedir.{PageDir, has, pte_p}
use tddb68_collab.Pagedir.Mapping.{same_page_word}
use tddb68_collab.Pagedir.Reading.{IsValid, mapped}
use tddb68_collab.UserMemory.{at, load_word, check_user_ptr}
use tddb68_collab.UserMemory.Checks.{check_user_ptr_lem}

abbrev pub word32 : (ℕ → ℕ) → ℕ → ℕ
word32 mem a = mem a + 2 ^ 8 * mem (a + 1) + 2 ^ 16 * mem (a + 2) + 2 ^ 24 * mem (a + 3)

-- A word that does not straddle two pages is readable where its first byte is.
pub load_word-aligned :
    (pd : PageDir) (mem : ℕ → ℕ) (a : ℕ)
    → a % 4 ≡ 0
    → is_user_vaddr a ≡ true
    → mapped pd a ≡ true
    → load_word pd mem a ≡ runs (word32 mem a)
unfolding load_word
load_word-aligned pd mem a aligned user m =
    let e1 : at a 1 ≡ a + 1 = ground (arith, user) in
    let e2 : at a 2 ≡ a + 2 = ground (arith, user) in
    let e3 : at a 3 ≡ a + 3 = ground (arith, user) in
    let m1 : mapped pd (a + 1) ≡ true =
      ap (λ w. has w pte_p) (same_page_word pd (a + 1) a (omega arith)) ∙ m in
    let m2 : mapped pd (a + 2) ≡ true =
      ap (λ w. has w pte_p) (same_page_word pd (a + 2) a (omega arith)) ∙ m in
    let m3 : mapped pd (a + 3) ≡ true =
      ap (λ w. has w pte_p) (same_page_word pd (a + 3) a (omega arith)) ∙ m in
    rw (e1, e2, e3) (rw (m, m1) (rw (m2, m3) refl))

-- A check of the address of an aligned word either fails or makes the word readable.
pub check_aligned :
    (pd : PageDir) (mem : ℕ → ℕ) (a : ℕ)
    → IsValid pd
    → a % 4 ≡ 0
    → (check_user_ptr pd a ≡ runs false)
      ⊎ ((check_user_ptr pd a ≡ runs true) × (load_word pd mem a ≡ runs (word32 mem a)))
check_aligned pd mem a v aligned =
    elim (Bool-cases (not (a == 0) && is_user_vaddr a && mapped pd a)) [
      | inl ok ↦ inr (
        check_user_ptr_lem pd a v ∙ ap runs ok,
        load_word-aligned pd mem a aligned (ground (arith, ok)) (ground (arith, ok)),
      )
      | inr bad ↦ inl (check_user_ptr_lem pd a v ∙ ap runs bad)
    ]
