-- ===== src/UserMemory/Tests.antt =====
-- Runs of the checks of linuxpintos/src/userprog/syscall.c.
use tddb68_collab.Base.{ℕ, ◌+◌, ◌≡◌, refl, true, false, none, some, arith, ◌==◌, if◌then◌else◌}
use tddb68_collab.Base.Kernel.{runs}
use tddb68_collab.Pagedir.{PageDir}
use tddb68_collab.Pagedir.Reading.{IsValid, mapped}
use tddb68_collab.UserMemory.{check_user_str_ptr}
use tddb68_collab.UserMemory.Strings.{IsString, check_user_str_ptr-IsString}

-- One mapped page, at 0x08048000.
abbrev one_page : PageDir
one_page = record {
  tables = λ i. if i == 32 then some (λ j. if j == 72 then 0x300007 else 0) else none;
  is_base = false;
}

one_page-IsValid : IsValid one_page
one_page-IsValid va user m = ground arith

-- The last two bytes of the page hold the string "A".
abbrev letter : ℕ → ℕ
letter a = if a == 0x08048ffe then 65 else 0

letter-IsString : IsString one_page letter 0x08048ffe 1
letter-IsString = record {
  inside = omega arith;
  readable = λ k le. ground arith;
  characters = λ k lt. λ e. ground arith;
  terminator = refl;
}

-- The byte after the terminator is not mapped.
check_user_str_ptr-IsString_example :
    check_user_str_ptr one_page letter 0x08048ffe ≡ runs (mapped one_page (0x08048ffe + 1 + 1))
check_user_str_ptr-IsString_example =
    check_user_str_ptr-IsString one_page letter 0x08048ffe 1 one_page-IsValid letter-IsString
      (omega arith)

abbrev nothing : ℕ → ℕ
nothing a = 0

empty_string-accepted : check_user_str_ptr one_page nothing 0x08048000 ≡ runs true
empty_string-accepted =
    check_user_str_ptr-IsString one_page nothing 0x08048000 0 one_page-IsValid
      (record {
        inside = omega arith;
        readable = λ k le. ground arith;
        characters = λ k lt. absurd (omega arith);
        terminator = refl;
      })
      (omega arith)
