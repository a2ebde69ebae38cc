-- ===== src/Hash/Bytes.antt =====
-- The hash functions for bytes, strings and integers: linuxpintos/src/lib/kernel/hash.c.
use Prim.Native.Nat.{bit_xor}
use tddb68_collab.Base.{
  ℕ, zero, suc, ◌+◌, ◌*◌, ◌/◌, ◌%◌, ◌^◌, ◌<◌, ◌≡◌, refl, false, not, ◌==◌, if◌then◌else◌, arith,
}
use tddb68_collab.Base.Kernel.{Kernel, runs, panics, ◌>>◌, assert}
use tddb68_collab.Strings.{Memory, room}
use tddb68_collab.Strings.Search.{IsString, IsPlaced, IsString-head, IsString-tail, IsString-end}

abbrev fnv_32_prime : ℕ
fnv_32_prime = 16777619

abbrev fnv_32_basis : ℕ
fnv_32_basis = 2166136261

-- `hash = (hash * FNV_32_PRIME) ^ byte`
unfoldable pub mix : (h byte : ℕ) → ℕ
mix h byte = bit_xor (h * fnv_32_prime % 2 ^ 32) byte

unfoldable pub bytes_from : Memory → (size buf h : ℕ) → ℕ
bytes_from m zero buf h = h
bytes_from m (suc size) buf h = bytes_from m size (buf + 1) (mix h (m buf))

unfoldable pub hash_bytes : Memory → (buf size : ℕ) → Kernel ℕ
hash_bytes m buf size = do assert (not (buf == 0)); runs (bytes_from m size buf fnv_32_basis)

-- The loop of `hash_string`; without a terminator it leaves the memory.
unfoldable pub string_from : Memory → (fuel s h : ℕ) → Kernel ℕ
string_from m zero s h = panics
string_from m (suc fuel) s h =
    let rest = string_from m fuel (s + 1) (mix h (m s)) in if m s == 0 then runs h else rest

pub hash_string : Memory → (s : ℕ) → Kernel ℕ
hash_string m s = do assert (not (s == 0)); string_from m (room s) s fnv_32_basis

-- The bytes of an `int` on a little-endian machine, by its 32 bits.
abbrev byte_of : (i k : ℕ) → ℕ
byte_of i k = i / 2 ^ (8 * k) % 2 ^ 8

-- `&i` is not null.
pub hash_int : (i : ℕ) → ℕ
hash_int i = bytes_from (byte_of i) 4 0 fnv_32_basis

string_from_lem :
    {m : Memory} (n fuel s h : ℕ)
    → IsString m s n
    → n < fuel
    → string_from m fuel s h ≡ runs (bytes_from m n s h)
unfolding string_from bytes_from
string_from_lem n zero s h v k = absurd (omega (arith, k))
string_from_lem {m} zero (suc fuel) s h v k = ground (arith, IsString-end v)
string_from_lem {m} (suc n) (suc fuel) s h v k =
    rw (IsString-head n v)
      (string_from_lem n fuel (s + 1) (mix h (m s)) (IsString-tail v) (omega (arith, k)))

-- `hash_string` of a string is `hash_bytes` of its characters.
pub hash_string-hash_bytes :
    {m : Memory} {s n : ℕ} → IsPlaced m s n → hash_string m s ≡ hash_bytes m s n
unfolding hash_string hash_bytes
hash_string-hash_bytes {m} {s} {n} v =
    let start : (s == 0) ≡ false = ground (arith, v.not_null) in
    let run = string_from_lem n (room s) s fnv_32_basis v.string (omega (arith, v.below)) in
    rw (start, run) refl
