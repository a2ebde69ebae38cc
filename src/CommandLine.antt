-- ===== src/CommandLine.antt =====
-- The command line of a new process, as `process_execute` of linuxpintos/src/userprog/process.c copies and
-- cleans it in place. The copy is a list of characters with the terminating 0 of the string.
-- `cmd_len`, which nothing uses, is left out.
pub mod Shift
pub mod Squeeze
pub mod FileName
mod Tests
use tddb68_collab.Base.{
  ℕ, zero, suc, ◌+◌, ◌-◌, ◌*◌, Bool, true, false, ◌||◌, Option, none, some, List, [], ◌∷◌, ◌++◌,
  length, get_or, set, take, ◌==◌, ltb, if◌then◌else◌,
}

abbrev pub space : ℕ
space = 32

-- `cmd_copy[i]`
abbrev pub char_at : List ℕ → ℕ → ℕ
char_at cmd_copy i = get_or cmd_copy i 0

-- The inner `for`: `left` characters from index `i` on move down by one.
pub shift_from : (left i : ℕ) → List ℕ → List ℕ
shift_from zero i cmd_copy = cmd_copy
shift_from (suc left) i cmd_copy =
    shift_from left (i + 1) (set cmd_copy i (char_at cmd_copy (i + 1)))

-- The whole body of `if (prv_ch_sp)` for a string of length `len`.
pub remove_at : (len i : ℕ) → List ℕ → List ℕ
remove_at len i cmd_copy =
    let shifted = shift_from (len - i) i cmd_copy in
    let stri_cp = i + (len - i) in
    if (char_at shifted stri_cp == 0) || (stri_cp == len)
    then set shifted (stri_cp - 1) 0
    else shifted

-- The outer `for` at index `stri`, for at most `fuel` rounds.
pub squeeze : (fuel len stri : ℕ) → (prv_ch_sp : Bool) → List ℕ → Option (List ℕ)
squeeze zero len stri prv_ch_sp cmd_copy = if ltb stri len then none else some cmd_copy
squeeze (suc fuel) len stri prv_ch_sp cmd_copy =
    let again = squeeze fuel len stri true (remove_at len stri cmd_copy) in
    let after_space = squeeze fuel len (stri + 1) true cmd_copy in
    let after_other = squeeze fuel len (stri + 1) false cmd_copy in
    if ltb stri len
    then (if char_at cmd_copy stri == space
        then (if prv_ch_sp then again else after_space)
        else after_other)
    else some cmd_copy

-- The last `for`, from index `stri` down; `none` where it would leave the array.
pub trim : (stri : ℕ) → List ℕ → Option (List ℕ)
trim zero cmd_copy = if char_at cmd_copy 0 == space then none else some cmd_copy
trim (suc stri) cmd_copy =
    let rest = trim stri (set cmd_copy (suc stri) 0) in
    if char_at cmd_copy (suc stri) == space then rest else some cmd_copy

abbrev and_trim : (len : ℕ) → Option (List ℕ) → Option (List ℕ)
and_trim len none = none
and_trim len (some cmd_copy) = trim len cmd_copy

-- The copy of a command line of characters, cleaned.
pub clean : List ℕ → Option (List ℕ)
clean command_line =
    let len = length command_line in
    and_trim len (squeeze (2 * len) len 0 true (command_line ++ (0 ∷ [])))

-- The length of the file's name: up to the first space or the end.
pub name_length : List ℕ → ℕ
name_length [] = 0
name_length (c ∷ cs) = if (c == space) || (c == 0) then 0 else suc (name_length cs)

-- The name of the file to load: measured in the clean copy, but copied from the command line itself.
abbrev pub name_of : (command_line : List ℕ) → Option (List ℕ) → Option (List ℕ)
name_of command_line none = none
name_of command_line (some cmd_copy) = some (take (name_length cmd_copy) command_line)

pub file_name : List ℕ → Option (List ℕ)
file_name command_line = name_of command_line (clean command_line)
