-- ===== src/UserMemory.antt =====
-- Memory that a user process names in a system call: the three checks of
-- linuxpintos/src/userprog/syscall.c. Memory is a function from virtual addresses to bytes; a load from a
-- page that the directory does not map is a page fault in the kernel, which panics (`kill` in
-- linuxpintos/src/userprog/exception.c).
pub mod Checks
pub mod Strings
pub mod Words
mod Tests
use tddb68_collab.Base.{
  ℕ, zero, suc, ◌+◌, ◌-◌, ◌*◌, ◌%◌, ◌^◌, Bool, true, false, not, ◌||◌, ◌==◌, if◌then◌else◌,
}
use tddb68_collab.Base.Kernel.{Kernel, runs, panics, ◌>>=◌}
use tddb68_collab.Vaddr.{phys_base, is_user_vaddr}
use tddb68_collab.Pagedir.{PageDir, pte_p, has, pagedir_get_page}
use tddb68_collab.Pagedir.Mapping.{word}

-- `m && k` on conditions that call the kernel: `k` is not run after a false `m`.
abbrev pub both : Kernel Bool → Kernel Bool → Kernel Bool
both m k = do a ← m; if a then k else runs false

abbrev pub load_byte : PageDir → (ℕ → ℕ) → (va : ℕ) → Kernel ℕ
load_byte pd mem va = if has (word pd va) pte_p then runs (mem va) else panics

-- The address `ptr + i`, which wraps.
abbrev pub at : (ptr i : ℕ) → ℕ
at ptr i = (ptr + i) % 2 ^ 32

-- `*(unsigned *) va`, the lowest byte first. The four bytes may lie in two pages.
unfoldable pub load_word : PageDir → (ℕ → ℕ) → (va : ℕ) → Kernel ℕ
load_word pd mem va = do
  b0 ← load_byte pd mem va
  b1 ← load_byte pd mem (at va 1)
  b2 ← load_byte pd mem (at va 2)
  b3 ← load_byte pd mem (at va 3)
  runs (b0 + 2 ^ 8 * b1 + 2 ^ 16 * b2 + 2 ^ 24 * b3)

unfoldable pub check_user_ptr : PageDir → (ptr : ℕ) → Kernel Bool
check_user_ptr pd ptr =
    let page = do page ← pagedir_get_page pd ptr; runs (not (page == 0))
    in if (ptr == 0) || not (is_user_vaddr ptr) then runs false else page

-- The loop of `check_user_str_ptr` at address `a`, where `left` addresses of user memory are left. At
-- the end of user memory the assertion of `pagedir_get_page` fails.
pub check_str_from : PageDir → (ℕ → ℕ) → (left a : ℕ) → Kernel Bool
check_str_from pd mem zero a = panics
check_str_from pd mem (suc left) a =
    let rest = check_str_from pd mem left (a + 1) in
    let after = do page ← pagedir_get_page pd (a + 1); runs (not (page == 0))
    in let go_on = do c ← load_byte pd mem a; if c == 0 then after else rest
      in do page ← pagedir_get_page pd a; if page == 0 then runs false else go_on

-- The first load comes before any check. The index `i` of the code is the distance from `ptr`; it is
-- taken to stay below 2 ^ 31.
pub check_user_str_ptr : PageDir → (ℕ → ℕ) → (ptr : ℕ) → Kernel Bool
check_user_str_ptr pd mem ptr = do
  c ← load_byte pd mem ptr
  check_str_from pd mem (phys_base - ptr) ptr

-- The loop of `check_user_buf_ptr` with `left` rounds to go.
unfoldable pub check_buf_from : PageDir → (ptr left i : ℕ) → Kernel Bool
check_buf_from pd ptr zero i = runs (not (i == 0))
check_buf_from pd ptr (suc left) i =
    let rest = check_buf_from pd ptr left (i + 1) in
    let unmapped = do page ← pagedir_get_page pd (at ptr i); runs (page == 0)
    in do bad ← both (check_user_ptr pd (at ptr i)) unmapped; if bad then runs false else rest

-- `size` is compared as an unsigned number.
unfoldable pub check_user_buf_ptr : PageDir → (ptr size : ℕ) → Kernel Bool
check_user_buf_ptr pd ptr size = check_buf_from pd ptr size 0
