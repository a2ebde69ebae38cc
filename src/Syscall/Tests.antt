-- ===== src/Syscall/Tests.antt =====
-- System calls from a small stack: linuxpintos/src/userprog/syscall.c.
use tddb68_collab.Base.{ℕ, ◌≡◌, ◌≢◌, refl, true, false, none, some, arith, ◌==◌, if◌then◌else◌}
use tddb68_collab.Base.Kernel.{runs, panics}
use tddb68_collab.Pagedir.{PageDir, pagedir_get_page, lookup_page, pte_get_page, ptov}
use tddb68_collab.Pagedir.Reading.{IsValid}
use tddb68_collab.UserMemory.{at, check_user_ptr, check_user_buf_ptr, load_word, check_buf_from}
use tddb68_collab.Syscall.{call_write, sys_write, handle, write_case, syscall_handler}
use tddb68_collab.Syscall.Handler.{handler-runs}

-- One mapped page, at 0x08048000.
abbrev one_page : PageDir
one_page = record {
  tables = λ i. if i == 32 then some (λ j. if j == 72 then 0x300007 else 0) else none;
  is_base = false;
}

one_page-IsValid : IsValid one_page
one_page-IsValid va user m = ground arith

-- write (1, 0x08048000, 5), with the stack pointer at 0x08048100.
abbrev stack : ℕ → ℕ
stack a =
    if a == 0x08048100
    then 9
    else if a == 0x08048104
    then 1
    else if a == 0x08048109
    then 0x80
    else if a == 0x0804810a
    then 0x04
    else if a == 0x0804810b
    then 0x08
    else if a == 0x0804810c
    then 5
    else 0

handler-runs_example : syscall_handler one_page stack 0x08048100 ≢ panics
handler-runs_example = handler-runs one_page stack one_page-IsValid 0x08048100 refl refl

write_run : handle one_page stack sys_write 0x08048100 ≡ runs (call_write 1 0x08048000 5)
unfolding handle write_case check_user_ptr load_word check_user_buf_ptr check_buf_from
    pagedir_get_page lookup_page pte_get_page ptov
write_run = refl

argument_ok : check_user_ptr one_page (at 0x08048100 4) ≡ runs true
unfolding check_user_ptr pagedir_get_page lookup_page pte_get_page ptov
argument_ok = refl
