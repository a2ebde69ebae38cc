-- ===== src/UserMemory/Checks.antt =====
-- What the checks of a pointer and of a buffer tell: linuxpintos/src/userprog/syscall.c.
use tddb68_collab.Base.{ℕ, zero, suc, ◌+◌, ◌≡◌, ◌∙◌, not, ◌&&◌, ◌==◌, arith, Bool-cases, inl, inr}
use tddb68_collab.Base.Kernel.{runs}
use tddb68_collab.Vaddr.{is_user_vaddr}
use tddb68_collab.Pagedir.{PageDir}
use tddb68_collab.Pagedir.Reading.{IsValid, mapped, get_page-mapped}
use tddb68_collab.UserMemory.{at, check_user_ptr, check_buf_from, check_user_buf_ptr}

-- With a valid directory `check_user_ptr` accepts just the mapped user addresses but 0, and does not panic.
pub check_user_ptr_lem :
    (pd : PageDir) (ptr : ℕ)
    → IsValid pd
    → check_user_ptr pd ptr ≡ runs (not (ptr == 0) && is_user_vaddr ptr && mapped pd ptr)
unfolding check_user_ptr
check_user_ptr_lem pd ptr v = elim (Bool-cases (is_user_vaddr ptr)) [
  | inl user ↦ let (page, run, null) = get_page-mapped pd ptr v user in ground (arith, run, null)
  | inr kernel ↦ ground arith
]

check_buf_from_lem :
    (pd : PageDir) (ptr left i : ℕ)
    → IsValid pd
    → check_buf_from pd ptr left i ≡ runs (not (left + i == 0))
unfolding check_buf_from
check_buf_from_lem pd ptr zero i v = ground arith
check_buf_from_lem pd ptr (suc left) i v = elim (Bool-cases (is_user_vaddr (at ptr i))) [
  | inl user ↦
      let (page, run, null) = get_page-mapped pd (at ptr i) v user in
      ground (
        arith,
        run,
        null,
        check_user_ptr_lem pd (at ptr i) v,
        check_buf_from_lem pd ptr left (i + 1) v,
      )
  | inr kernel ↦
      ground (arith, check_user_ptr_lem pd (at ptr i) v, check_buf_from_lem pd ptr left (i + 1) v)
]

-- With a valid directory `check_user_buf_ptr` accepts every buffer that is not empty, whatever is mapped.
pub check_user_buf_ptr_lem :
    (pd : PageDir) (ptr size : ℕ)
    → IsValid pd
    → check_user_buf_ptr pd ptr size ≡ runs (not (size == 0))
unfolding check_user_buf_ptr
check_user_buf_ptr_lem pd ptr size v = check_buf_from_lem pd ptr size 0 v ∙ ground arith
