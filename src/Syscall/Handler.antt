-- ===== src/Syscall/Handler.antt =====
-- What the handler of system calls is safe from: linuxpintos/src/userprog/syscall.c.
use tddb68_collab.Base.{ℕ, ◌%◌, ◌≡◌, ◌≢◌, sym, ap, ◌∙◌, Bool, true, false, arith}
use tddb68_collab.Base.Kernel.{runs, panics}
use tddb68_collab.Pagedir.{PageDir}
use tddb68_collab.Pagedir.Reading.{IsValid, mapped}
use tddb68_collab.UserMemory.{at, check_user_ptr, check_user_str_ptr}
use tddb68_collab.UserMemory.Checks.{check_user_ptr_lem, check_user_buf_ptr_lem}
use tddb68_collab.UserMemory.Strings.{unmapped-panics}
use tddb68_collab.UserMemory.Words.{word32, check_aligned}
use tddb68_collab.Syscall.{
  Number, number, sys_halt, sys_exit, sys_exec, sys_wait, sys_create, sys_remove, sys_open,
  sys_filesize, sys_read, sys_write, sys_seek, sys_tell, sys_close, unknown, call_write, call_close,
  write_case, handle, syscall_handler,
}

abbrev pub takes_string : Number → Bool
takes_string sys_exec = true
takes_string sys_create = true
takes_string sys_remove = true
takes_string sys_open = true
takes_string _ = false

module _ (pd : PageDir) (mem : ℕ → ℕ) (v : IsValid pd) where
  handle-runs :
      (n : Number) (esp : ℕ) → esp % 4 ≡ 0 → takes_string n ≡ false → handle pd mem n esp ≢ panics
  unfolding handle call_close write_case
  handle-runs sys_halt esp aligned no_string h = cc
  handle-runs sys_exit esp aligned no_string h =
      ground (arith, check_aligned pd mem (at esp 4) v (omega arith))
  handle-runs sys_exec esp aligned no_string h = cc
  handle-runs sys_wait esp aligned no_string h =
      ground (arith, check_aligned pd mem (at esp 4) v (omega arith))
  handle-runs sys_create esp aligned no_string h = cc
  handle-runs sys_remove esp aligned no_string h = cc
  handle-runs sys_open esp aligned no_string h = cc
  handle-runs sys_filesize esp aligned no_string h =
      ground (arith, check_aligned pd mem (at esp 4) v (omega arith))
  handle-runs sys_read esp aligned no_string h = ground (
    arith,
    check_aligned pd mem (at esp 4) v (omega arith),
    check_aligned pd mem (at esp 8) v (omega arith),
    check_aligned pd mem (at esp 12) v (omega arith),
  )
  handle-runs sys_write esp aligned no_string h = ground (
    arith,
    check_aligned pd mem (at esp 4) v (omega arith),
    check_aligned pd mem (at esp 8) v (omega arith),
    check_aligned pd mem (at esp 12) v (omega arith),
    check_user_ptr_lem pd (word32 mem (at esp 8)) v,
    check_user_buf_ptr_lem pd (word32 mem (at esp 8)) (word32 mem (at esp 12)) v,
  )
  handle-runs sys_seek esp aligned no_string h = ground (
    arith,
    check_aligned pd mem (at esp 4) v (omega arith),
    check_aligned pd mem (at esp 8) v (omega arith),
  )
  handle-runs sys_tell esp aligned no_string h =
      ground (arith, check_aligned pd mem (at esp 4) v (omega arith))
  handle-runs sys_close esp aligned no_string h =
      ground (arith, check_aligned pd mem (at esp 4) v (omega arith))
  handle-runs unknown esp aligned no_string h = cc

  -- With a valid directory, on a word-aligned stack the handler does not panic the kernel before it calls a `call_` function or
  -- has decided to call none, whatever the stack and the arguments are, for every system call that does not take a string.
  -- What the `call_` functions do then is not part of the statement.
  pub handler-runs :
      (esp : ℕ)
      → esp % 4 ≡ 0
      → takes_string (number (word32 mem esp)) ≡ false
      → syscall_handler pd mem esp ≢ panics
  unfolding syscall_handler
  handler-runs esp aligned no_string h = ground (
    arith,
    check_aligned pd mem esp v aligned,
    handle-runs (number (word32 mem esp)) esp aligned no_string,
  )

  -- With a valid directory, on a word-aligned stack a `call_write` gets the three words above the system call's number, its
  -- buffer starts at a mapped user address, and its size is not 0.
  pub handle-write :
      (esp : ℕ) {fd buffer size : ℕ}
      → esp % 4 ≡ 0
      → handle pd mem sys_write esp ≡ runs (call_write fd buffer size)
      → (fd ≡ word32 mem (at esp 4))
        × (buffer ≡ word32 mem (at esp 8))
        × (size ≡ word32 mem (at esp 12))
        × (check_user_ptr pd buffer ≡ runs true)
        × (size ≢ 0)
  unfolding handle call_close write_case
  handle-write esp {fd} {buffer} {size} aligned h =
      let written : (check_user_ptr pd (word32 mem (at esp 8)) ≡ runs true)
          × (word32 mem (at esp 12) ≢ 0)
          × (call_write (word32 mem (at esp 4)) (word32 mem (at esp 8)) (word32 mem (at esp 12))
              ≡ call_write fd buffer size) =
        (
          ground (
            arith,
            check_aligned pd mem (at esp 4) v (omega arith),
            check_aligned pd mem (at esp 8) v (omega arith),
            check_aligned pd mem (at esp 12) v (omega arith),
            check_user_ptr_lem pd (word32 mem (at esp 8)) v,
            check_user_buf_ptr_lem pd (word32 mem (at esp 8)) (word32 mem (at esp 12)) v,
          ),
          ground (
            arith,
            check_aligned pd mem (at esp 4) v (omega arith),
            check_aligned pd mem (at esp 8) v (omega arith),
            check_aligned pd mem (at esp 12) v (omega arith),
            check_user_ptr_lem pd (word32 mem (at esp 8)) v,
            check_user_buf_ptr_lem pd (word32 mem (at esp 8)) (word32 mem (at esp 12)) v,
          ),
          ground (
            arith,
            check_aligned pd mem (at esp 4) v (omega arith),
            check_aligned pd mem (at esp 8) v (omega arith),
            check_aligned pd mem (at esp 12) v (omega arith),
            check_user_ptr_lem pd (word32 mem (at esp 8)) v,
            check_user_buf_ptr_lem pd (word32 mem (at esp 8)) (word32 mem (at esp 12)) v,
          ),
        ) in
      let (ok, not_empty, same) = written in
      let same_buffer : word32 mem (at esp 8) ≡ buffer = ground (arith, same) in
      (
        ground (arith, same),
        sym same_buffer,
        ground (arith, same),
        ap (check_user_ptr pd) (sym same_buffer) ∙ ok,
        ground (arith, same, not_empty),
      )

  -- With a valid directory and a word-aligned stack, a string argument that is not mapped, in a call
  -- whose argument word passes the check of its address, panics the kernel.
  pub bad_string-panics :
      (n : Number) (esp : ℕ)
      → takes_string n ≡ true
      → esp % 4 ≡ 0
      → check_user_ptr pd (at esp 4) ≡ runs true
      → mapped pd (word32 mem (at esp 4)) ≡ false
      → handle pd mem n esp ≡ panics
  unfolding handle
  bad_string-panics n esp takes aligned ok unmapped =
      let str : check_user_str_ptr pd mem (word32 mem (at esp 4)) ≡ panics =
        unmapped-panics pd mem (word32 mem (at esp 4)) unmapped in
      ground (arith, check_aligned pd mem (at esp 4) v (omega arith), str)
