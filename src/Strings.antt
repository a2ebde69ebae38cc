-- ===== src/Strings.antt =====
-- Blocks of memory and strings: linuxpintos/src/lib/string.c. A memory gives the byte at each address;
-- blocks and strings lie below 2^32, so that no address wraps around. A loop to the end of a
-- string has a round for every address up to 2^32: without a terminator it leaves the memory, and the kernel
-- panics.
pub mod Blocks
pub mod Search
pub mod Spans
pub mod Order
pub mod Copies
mod Tests
use tddb68_collab.Base.{
  ℕ, zero, suc, ◌+◌, ◌-◌, ◌%◌, ◌^◌, Bool, true, false, not, ◌&&◌, ◌||◌, Option, none, some, ◌==◌,
  ltb, leb, if◌then◌else◌,
}
use tddb68_collab.Base.Int.{ℤ, pos, negsuc}
use tddb68_collab.Base.Kernel.{Kernel, runs, panics, ◌>>=◌, ◌>>◌, assert}

abbrev pub Memory : Type 0
Memory = ℕ → ℕ

abbrev pub store : Memory → (address byte : ℕ) → Memory
store m a v b = if b == a then v else m b

-- `while (size-- > 0) *dst++ = *src++;`
pub copy_up : Memory → (size dst src : ℕ) → Memory
copy_up m zero dst src = m
copy_up m (suc size) dst src = copy_up (store m dst (m src)) size (dst + 1) (src + 1)

-- `while (size-- > 0) *--dst = *--src;`
pub copy_down : Memory → (size dst src : ℕ) → Memory
copy_down m zero dst src = m
copy_down m (suc size) dst src =
    copy_down (store m (dst - 1) (m (src - 1))) size (dst - 1) (src - 1)

-- `while (size-- > 0) *dst++ = value;`
pub fill : Memory → (size dst value : ℕ) → Memory
fill m zero dst value = m
fill m (suc size) dst value = fill (store m dst (value % 2 ^ 8)) size (dst + 1) value

-- `p != NULL || size == 0`
abbrev pub is_block : (p size : ℕ) → Bool
is_block p size = not (p == 0) || (size == 0)

-- The functions that write also return the pointer that the C function returns.
pub memcpy : Memory → (dst src size : ℕ) → Kernel (Memory × ℕ)
memcpy m dst src size = do
  assert (is_block dst size)
  assert (is_block src size)
  runs (copy_up m size dst src, dst)

pub memmove : Memory → (dst src size : ℕ) → Kernel (Memory × ℕ)
memmove m dst src size = do
  assert (is_block dst size)
  assert (is_block src size)
  runs (
      if ltb dst src
      then (copy_up m size dst src, dst + size)
      else (copy_down m size (dst + size) (src + size), dst))

pub memset : Memory → (dst value size : ℕ) → Kernel (Memory × ℕ)
memset m dst value size = do assert (is_block dst size); runs (fill m size dst value, dst)

pub cmp_blocks : Memory → (size a b : ℕ) → ℤ
cmp_blocks m zero a b = pos 0
cmp_blocks m (suc size) a b =
    let rest = cmp_blocks m size (a + 1) (b + 1) in
    if not (m a == m b) then (if ltb (m b) (m a) then pos 1 else negsuc 0) else rest

pub memcmp : Memory → (a b size : ℕ) → Kernel ℤ
memcmp m a b size = do
  assert (is_block a size)
  assert (is_block b size)
  runs (cmp_blocks m size a b)

pub chr_in_block : Memory → (size block ch : ℕ) → Option ℕ
chr_in_block m zero block ch = none
chr_in_block m (suc size) block ch =
    let rest = chr_in_block m size (block + 1) ch in if m block == ch then some block else rest

pub memchr : Memory → (block ch size : ℕ) → Kernel (Option ℕ)
memchr m block ch size = do
  assert (is_block block size)
  runs (chr_in_block m size block (ch % 2 ^ 8))

-- The addresses from `p` on.
abbrev pub room : ℕ → ℕ
room p = 2 ^ 32 - p

pub end_from : Memory → (fuel p : ℕ) → Kernel ℕ
end_from m zero p = panics
end_from m (suc fuel) p = let rest = end_from m fuel (p + 1) in if m p == 0 then runs p else rest

pub strlen : Memory → (string : ℕ) → Kernel ℕ
strlen m string = do
  assert (not (string == 0))
  p ← end_from m (room string) string
  runs (p - string)

pub nlen_from : Memory → (left string length : ℕ) → ℕ
nlen_from m zero string length = length
nlen_from m (suc left) string length =
    let rest = nlen_from m left string (length + 1) in
    if m (string + length) == 0 then length else rest

pub strnlen : Memory → (string maxlen : ℕ) → ℕ
strnlen m string maxlen = nlen_from m maxlen string 0

abbrev pub difference : (a b : ℕ) → ℤ
difference a b = if ltb a b then negsuc 0 else if ltb b a then pos 1 else pos 0

pub cmp_from : Memory → (fuel a b : ℕ) → Kernel ℤ
cmp_from m zero a b = panics
cmp_from m (suc fuel) a b =
    let rest = cmp_from m fuel (a + 1) (b + 1) in
    if not (m a == 0) && (m a == m b) then rest else runs (difference (m a) (m b))

pub strcmp : Memory → (a b : ℕ) → Kernel ℤ
strcmp m a b = do assert (not (a == 0)); assert (not (b == 0)); cmp_from m (room a) a b

pub chr_from : Memory → (fuel string c : ℕ) → Kernel (Option ℕ)
chr_from m zero string c = panics
chr_from m (suc fuel) string c =
    let rest = chr_from m fuel (string + 1) c in
    if m string == c then runs (some string) else if m string == 0 then runs none else rest

pub strchr : Memory → (string c : ℕ) → Kernel (Option ℕ)
strchr m string c = do assert (not (string == 0)); chr_from m (room string) string (c % 2 ^ 8)

-- `found != NULL`
abbrev pub is_found : Option ℕ → Bool
is_found none = false
is_found (some p) = true

pub cspn_from : Memory → (fuel string stop length : ℕ) → Kernel ℕ
cspn_from m zero string stop length = panics
cspn_from m (suc fuel) string stop length =
    let rest = cspn_from m fuel string stop (length + 1) in
    if m (string + length) == 0
    then runs length
    else (strchr m stop (m (string + length)) >>= λ found.
        if is_found found then runs length else rest)

pub strcspn : Memory → (string stop : ℕ) → Kernel ℕ
strcspn m string stop = cspn_from m (room string) string stop 0

pub spn_from : Memory → (fuel string skip length : ℕ) → Kernel ℕ
spn_from m zero string skip length = panics
spn_from m (suc fuel) string skip length =
    let rest = spn_from m fuel string skip (length + 1) in
    if m (string + length) == 0
    then runs length
    else (strchr m skip (m (string + length)) >>= λ found.
        if is_found found then rest else runs length)

pub strspn : Memory → (string skip : ℕ) → Kernel ℕ
strspn m string skip = spn_from m (room string) string skip 0

pub pbrk_from : Memory → (fuel string stop : ℕ) → Kernel (Option ℕ)
pbrk_from m zero string stop = panics
pbrk_from m (suc fuel) string stop =
    let rest = pbrk_from m fuel (string + 1) stop in
    if m string == 0
    then runs none
    else (strchr m stop (m string) >>= λ found. if is_found found then runs (some string) else rest)

pub strpbrk : Memory → (string stop : ℕ) → Kernel (Option ℕ)
strpbrk m string stop = pbrk_from m (room string) string stop

pub rchr_from : Memory → (fuel string c : ℕ) → (p : Option ℕ) → Kernel (Option ℕ)
rchr_from m zero string c p = panics
rchr_from m (suc fuel) string c p =
    let rest = rchr_from m fuel (string + 1) c (if m string == c then some string else p) in
    if m string == 0 then runs p else rest

pub strrchr : Memory → (string c : ℕ) → Kernel (Option ℕ)
strrchr m string c = rchr_from m (room string) string (c % 2 ^ 8) none
