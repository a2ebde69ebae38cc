-- ===== src/Strings/Copies.antt =====
-- Functions that copy strings and split them: linuxpintos/src/lib/string.c.
pub mod Copied
pub mod Tokens
pub mod Substrings
use tddb68_collab.Base.{
  ℕ, zero, suc, ◌+◌, ◌-◌, ◌^◌, ◌<◌, ◌≡◌, Bool, true, false, not, ◌&&◌, Option, none, some, ◌==◌,
  ltb, leb, if◌then◌else◌,
}
use tddb68_collab.Base.Int.{ℤ, pos, negsuc}
use tddb68_collab.Base.Kernel.{Kernel, runs, panics, ◌>>=◌, ◌>>◌, assert}
use tddb68_collab.Strings.{Memory, store, room, is_found, memcpy, memcmp, strlen, strchr}

pub strlcpy : Memory → (dst src size : ℕ) → Kernel (Memory × ℕ)
strlcpy m dst src size = do
  assert (not (dst == 0))
  assert (not (src == 0))
  src_len ← strlen m src
  if ltb 0 size
      then (do
        let dst_len = if ltb src_len (size - 1) then src_len else size - 1
        (copied, _) ← memcpy m dst src dst_len
        runs (store copied (dst + dst_len) 0, src_len))
      else runs (m, src_len)

pub strlcat : Memory → (dst src size : ℕ) → Kernel (Memory × ℕ)
strlcat m dst src size = do
  assert (not (dst == 0))
  assert (not (src == 0))
  src_len ← strlen m src
  dst_len ← strlen m dst
  if ltb 0 size && ltb dst_len size
      then (do
        let copy_cnt = if ltb src_len (size - dst_len - 1) then src_len else size - dst_len - 1
        (copied, _) ← memcpy m (dst + dst_len) src copy_cnt
        runs (store copied (dst + dst_len + copy_cnt) 0, src_len + dst_len))
      else runs (m, src_len + dst_len)

abbrev pub is_zero : ℤ → Bool
is_zero (pos zero) = true
is_zero _ = false

pub str_from : Memory → (left haystack needle needle_len i : ℕ) → Kernel (Option ℕ)
str_from m zero haystack needle needle_len i = runs none
str_from m (suc left) haystack needle needle_len i = do
  let rest = str_from m left haystack needle needle_len (i + 1)
  order ← memcmp m (haystack + i) needle needle_len
  if is_zero order then runs (some (haystack + i)) else rest

pub strstr : Memory → (haystack needle : ℕ) → Kernel (Option ℕ)
strstr m haystack needle = do
  haystack_len ← strlen m haystack
  needle_len ← strlen m needle
  if leb needle_len haystack_len
      then str_from m (haystack_len - needle_len + 1) haystack needle needle_len 0
      else runs none

-- The first loop of `strtok_r`: where it stops, and whether at the terminator.
pub skip_delimiters : Memory → (fuel delimiters s : ℕ) → Kernel (ℕ × Bool)
skip_delimiters m zero delimiters s = panics
skip_delimiters m (suc fuel) delimiters s = do
  let rest = skip_delimiters m fuel delimiters (s + 1)
  found ← strchr m delimiters (m s)
  if is_found found then (if m s == 0 then runs (s, true) else rest) else runs (s, false)

-- The second loop of `strtok_r`.
pub skip_token : Memory → (fuel delimiters s : ℕ) → Kernel ℕ
skip_token m zero delimiters s = panics
skip_token m (suc fuel) delimiters s = do
  let rest = skip_token m fuel delimiters (s + 1)
  found ← strchr m delimiters (m s)
  if is_found found then runs s else rest

-- The end of `strtok_r`, from the token on.
cut : Memory → (delimiters token : ℕ) → Kernel (Memory × ℕ × Option ℕ)
cut m delimiters token = do
  s ← skip_token m (room token) delimiters token
  if not (m s == 0) then runs (store m s 0, s + 1, some token) else runs (m, s, some token)

-- `save` is what `*save_ptr` holds; the result has what it is set to, and the token. `s` is 0 for a null
-- pointer.
pub strtok_r : Memory → (s delimiters save : ℕ) → Kernel (Memory × ℕ × Option ℕ)
strtok_r m s delimiters save = do
  assert (not (delimiters == 0))
  let start = if s == 0 then save else s
  assert (not (start == 0))
  (token, at_end) ← skip_delimiters m (room start) delimiters start
  if at_end then runs (m, token, none) else cut m delimiters token
