-- ===== src/Syscall.antt =====
-- System calls: how `syscall_handler` and `call_close` of linuxpintos/src/userprog/syscall.c check and read
-- the arguments on the user's stack, up to the call of the function that carries the system call out.
pub mod Handler
mod Tests
use tddb68_collab.Base.{
  ℕ, ◌+◌, ◌-◌, ◌%◌, ◌^◌, Bool, true, false, not, ◌&&◌, ◌||◌, ◌==◌, ltb, if◌then◌else◌,
}
use tddb68_collab.Base.Kernel.{Kernel, runs, panics, ◌>>=◌}
use tddb68_collab.Pagedir.{PageDir}
use tddb68_collab.UserMemory.{
  both, at, load_word, check_user_ptr, check_user_str_ptr, check_user_buf_ptr,
}

-- A word that stands for -1.
abbrev pub minus_one : ℕ
minus_one = 2 ^ 32 - 1

-- What the handler goes on to do, all arguments as words: `power_off`, a `call_...` function, or
-- only a result in `eax`.
pub data Call : Type 0 where
  power_off : Call
  call_exit : (status : ℕ) → Call
  call_exec : (cmd_line : ℕ) → Call
  call_wait : (tid : ℕ) → Call
  call_create : (filename : ℕ) → (file_size : ℕ) → Call
  call_remove : (file_name : ℕ) → Call
  call_open : (filename : ℕ) → Call
  call_filesize : (fd : ℕ) → Call
  call_read : (fd : ℕ) → (buffer : ℕ) → (size : ℕ) → Call
  call_write : (fd : ℕ) → (buffer : ℕ) → (size : ℕ) → Call
  call_seek : (fd : ℕ) → (position : ℕ) → Call
  call_tell : (fd : ℕ) → Call
  close_file : (fd : ℕ) → Call
  eax : ℕ → Call

-- The numbers of the system calls, in the order of `syscall-nr.h`.
pub data Number : Type 0 where
  sys_halt sys_exit sys_exec sys_wait sys_create sys_remove sys_open sys_filesize sys_read sys_write
        sys_seek sys_tell sys_close unknown :
      Number

abbrev pub number : ℕ → Number
number n =
    if n == 0
    then sys_halt
    else if n == 1
    then sys_exit
    else if n == 2
    then sys_exec
    else if n == 3
    then sys_wait
    else if n == 4
    then sys_create
    else if n == 5
    then sys_remove
    else if n == 6
    then sys_open
    else if n == 7
    then sys_filesize
    else if n == 8
    then sys_read
    else if n == 9
    then sys_write
    else if n == 10
    then sys_seek
    else if n == 11
    then sys_tell
    else if n == 12
    then sys_close
    else unknown

module _ (pd : PageDir) (mem : ℕ → ℕ) where
  -- `if (check) call; else otherwise;`
  abbrev pub guarded : Kernel Bool → Kernel Call → Call → Kernel Call
  guarded check call otherwise = do ok ← check; if ok then call else runs otherwise

  -- The word `n` bytes above the stack pointer, and the check of its address.
  abbrev pub arg : (esp n : ℕ) → Kernel ℕ
  arg esp n = load_word pd mem (at esp n)

  abbrev pub arg_ok : (esp n : ℕ) → Kernel Bool
  arg_ok esp n = check_user_ptr pd (at esp n)

  -- `check_user_str_ptr (*(char **) (esp + 4))`
  abbrev pub arg_str_ok : (esp : ℕ) → Kernel Bool
  arg_str_ok esp = do ptr ← arg esp 4; check_user_str_ptr pd mem ptr

  call_close : (esp : ℕ) → Kernel Call
  call_close esp =
      let fd_ok = do fd ← arg esp 4; runs (not (fd == 0) && not (fd == 1))
      in let go = do fd ← arg esp 4; runs (close_file fd)
        in guarded (both (arg_ok esp 4) fd_ok) go (call_exit minus_one)

  -- The case of SYS_WRITE after the check of its first and last argument.
  write_case : (esp : ℕ) → Kernel Call
  write_case esp =
      let buffer_ok = do buffer ← arg esp 8; check_user_ptr pd buffer
      in let contents_ok = do
        buffer ← arg esp 8
        size ← arg esp 12
        check_user_buf_ptr pd buffer size
        in let go = do
          fd ← arg esp 4
          buffer ← arg esp 8
          size ← arg esp 12
          runs (call_write fd buffer size)
          in let checked =
              guarded (both (arg_ok esp 8) (both buffer_ok contents_ok)) go (call_exit minus_one) in
            do size ← arg esp 12; if size == 0 then runs (eax 0) else checked

  -- The cases of the `switch`.
  pub handle : Number → (esp : ℕ) → Kernel Call
  unfolding call_close write_case
  handle sys_halt esp = runs power_off
  handle sys_exit esp =
      let go = do status ← arg esp 4; runs (call_exit status)
      in guarded (arg_ok esp 4) go (call_exit minus_one)
  handle sys_exec esp =
      let go = do cmd_line ← arg esp 4; runs (call_exec cmd_line)
      in guarded (both (arg_ok esp 4) (arg_str_ok esp)) go (call_exit minus_one)
  handle sys_wait esp =
      let go = do tid ← arg esp 4; runs (call_wait tid)
      in guarded (arg_ok esp 4) go (call_exit minus_one)
  handle sys_create esp =
      let size_ok = do size ← arg esp 8; runs (ltb size (2 ^ 31))
      in let go = do filename ← arg esp 4; size ← arg esp 8; runs (call_create filename size)
        in guarded (both (arg_str_ok esp) (both (arg_ok esp 8) size_ok)) go (call_exit minus_one)
  handle sys_remove esp =
      let go = do file_name ← arg esp 4; runs (call_remove file_name)
      in guarded (both (arg_ok esp 4) (arg_str_ok esp)) go (eax 0)
  handle sys_open esp =
      let go = do filename ← arg esp 4; runs (call_open filename)
      in guarded (arg_str_ok esp) go (call_exit minus_one)
  handle sys_filesize esp =
      let go = do fd ← arg esp 4; runs (call_filesize fd)
      in guarded (arg_ok esp 4) go (eax minus_one)
  handle sys_read esp =
      let go = do
        fd ← arg esp 4
        buffer ← arg esp 8
        size ← arg esp 12
        runs (call_read fd buffer size)
      in guarded (both (arg_ok esp 4) (both (arg_ok esp 8) (arg_ok esp 12))) go
        (call_exit minus_one)
  handle sys_write esp =
      guarded (both (arg_ok esp 4) (arg_ok esp 12)) (write_case esp) (call_exit minus_one)
  handle sys_seek esp =
      let go = do fd ← arg esp 4; position ← arg esp 8; runs (call_seek fd position)
      in guarded (both (arg_ok esp 4) (arg_ok esp 8)) go (call_exit minus_one)
  handle sys_tell esp =
      let go = do fd ← arg esp 4; runs (call_tell fd)
      in guarded (arg_ok esp 4) go (call_exit minus_one)
  handle sys_close esp = call_close esp
  handle unknown esp = runs (call_exit minus_one)

  pub syscall_handler : (esp : ℕ) → Kernel Call
  unfolding handle
  syscall_handler esp =
      let dispatch = do nr ← load_word pd mem esp; handle (number nr) esp
      in guarded (check_user_ptr pd esp) dispatch (call_exit minus_one)
