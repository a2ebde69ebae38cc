-- ===== src/Strings/Tests.antt =====
-- Strings in a memory of bytes: linuxpintos/src/lib/string.c.
use tddb68_collab.Base.{ℕ, ◌+◌, ◌^◌, ◌<◌, ◌≡◌, refl, none, some, ◌||◌, ◌==◌, if◌then◌else◌, arith}
use tddb68_collab.Base.Int.{pos, negsuc}
use tddb68_collab.Base.Kernel.{runs}
use tddb68_collab.Strings.{Memory, store, cmp_blocks, cmp_from, memmove, memcmp, strcmp}
use tddb68_collab.Strings.Blocks.{moved, memmove-moved}
use tddb68_collab.Strings.Search.{IsPlaced}
use tddb68_collab.Strings.Copies.{strtok_r}
use tddb68_collab.Strings.Copies.Tokens.{skipped, token_length, strtok_r_lem}

-- From address 1 on: " ab c" and, from 7 on, " ".
abbrev memory : Memory
memory a =
    if (a == 1) || (a == 4) || (a == 7)
    then 32
    else if a == 2
    then 97
    else if a == 3
    then 98
    else if a == 5
    then 99
    else 0

memory-bytes : (a : ℕ) → memory a < 2 ^ 8
memory-bytes a = ground arith

line : IsPlaced memory 1 5
line = record {
  string = record { chars = λ i h. ground arith; ends = refl };
  not_null = λ e. absurd (omega (arith, e));
  below = omega arith;
}

spaces : IsPlaced memory 7 1
spaces = record {
  string = record { chars = λ i h. ground arith; ends = refl };
  not_null = λ e. absurd (omega (arith, e));
  below = omega arith;
}

word : IsPlaced memory 2 4
word = record {
  string = record { chars = λ i h. ground arith; ends = refl };
  not_null = λ e. absurd (omega (arith, e));
  below = omega arith;
}

-- Up by one, over itself: the result is the start of the destination.
memmove-moved_example : memmove memory 3 2 3 ≡ runs (moved memory 3 2 3, 3)
memmove-moved_example = memmove-moved memory 3 2 3 refl refl

-- Down by one: the result is the end of the destination.
memmove_down : memmove memory 2 3 2 ≡ runs (moved memory 2 3 2, 4)
memmove_down = memmove-moved memory 2 3 2 refl refl

memcmp_run : memcmp memory 1 4 2 ≡ runs (negsuc 0)
unfolding memcmp cmp_blocks
memcmp_run = refl

strcmp_run : strcmp memory 2 1 ≡ runs (pos 1)
unfolding strcmp cmp_from
strcmp_run = refl

-- The first token of the line is "ab".
strtok_r_lem_example :
    strtok_r memory 0 7 1
    ≡ runs (
        let i = skipped memory-bytes spaces 1 5 in
        let token = 1 + i in
        let k = token_length memory-bytes spaces 1 5 in
        if i == 5
        then (memory, 1 + 5, none)
        else if i + k == 5
        then (memory, 1 + 5, some token)
        else (store memory (token + k) 0, token + k + 1, some token))
strtok_r_lem_example = strtok_r_lem memory-bytes spaces 0 1 refl line
