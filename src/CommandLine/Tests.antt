-- ===== src/CommandLine/Tests.antt =====
-- Command lines on their way through `process_execute`: linuxpintos/src/userprog/process.c.
use tddb68_collab.Base.{ℕ, ◌≡◌, refl, some, List, [], ◌∷◌, arith}
use tddb68_collab.CommandLine.{clean, shift_from, remove_at, squeeze, trim, name_length, file_name}
use tddb68_collab.CommandLine.Squeeze.{NoZero}

-- "ls  -a "
abbrev listing : List ℕ
listing = 108 ∷ 115 ∷ 32 ∷ 32 ∷ 45 ∷ 97 ∷ 32 ∷ []

listing-NoZero : NoZero listing
listing-NoZero = ground arith

-- "ls -a "
clean_run : clean listing ≡ some (108 ∷ 115 ∷ 32 ∷ 45 ∷ 97 ∷ 32 ∷ 0 ∷ 0 ∷ [])
unfolding clean squeeze remove_at shift_from trim
clean_run = refl

-- The name taken for " ls" is " l".
name_run : file_name (32 ∷ 108 ∷ 115 ∷ []) ≡ some (32 ∷ 108 ∷ [])
unfolding file_name clean squeeze remove_at shift_from trim name_length
name_run = refl
