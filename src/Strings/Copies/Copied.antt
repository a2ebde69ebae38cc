-- ===== src/Strings/Copies/Copied.antt =====
-- Copies of strings with a bound on their size: `strlcpy` and `strlcat` of linuxpintos/src/lib/string.c.
use tddb68_collab.Base.{
  ℕ, zero, suc, ◌+◌, ◌-◌, ◌≤◌, ◌<◌, ◌≡◌, ◌≢◌, ◌⊎◌, inl, inr, refl, sym, ap, ◌∙◌, true, false, ◌&&◌,
  ◌==◌, ltb, if◌then◌else◌, arith, Bool-cases, min,
}
use tddb68_collab.Base.Kernel.{runs}
use tddb68_collab.Strings.{Memory, store}
use tddb68_collab.Strings.Blocks.{inside, moved, memcpy-moved}
use tddb68_collab.Strings.Search.{IsString, IsPlaced, strlen_lem}
use tddb68_collab.Strings.Copies.{strlcpy, strlcat}

-- `m'` has at `to` a string of length `to_len + k`: the first `to_len` characters of the old one and the first
-- `k` characters from `src`; the bytes outside of the string and its terminator are the old ones.
pub record Joined (m m' : Memory) (to to_len src k : ℕ) : Type 0 where
  pub string : IsString m' to (to_len + k)
  pub copy : (i : ℕ) → i < k → m' (to + to_len + i) ≡ m (src + i)
  pub kept : (a : ℕ) → inside (to + to_len) (suc k) a ≡ false → m' a ≡ m a

-- Writing `k` characters and a terminator at the end of the characters there.
abbrev joined : Memory → (at src k : ℕ) → Memory
joined m at src k = store (moved m at src k) (at + k) 0

joined-copy : (m : Memory) (at src k i : ℕ) → i < k → joined m at src k (at + i) ≡ m (src + i)
joined-copy m at src k i h =
    let there : src + (at + i - at) ≡ src + i = omega arith in ground (arith, ap m there)

joined-Joined :
    {m : Memory} (to to_len src k : ℕ)
    → ((i : ℕ) → i < to_len → m (to + i) ≢ 0)
    → ((i : ℕ) → i < k → m (src + i) ≢ 0)
    → Joined m (joined m (to + to_len) src k) to to_len src k
joined-Joined {m} to to_len src k before chars = record {
  string = record {
    chars = λ i h. elim (Bool-cases (ltb i to_len)) [
      | inl old ↦ λ e. before i (ground arith) (ground arith)
      | inr new ↦
          let there : to + i ≡ to + to_len + (i - to_len) = ground arith in
          λ e. chars (i - to_len) (ground arith) (
            sym (joined-copy m (to + to_len) src k (i - to_len) (ground arith))
            ∙ ap (joined m (to + to_len) src k) (sym there)
            ∙ e)
    ];
    ends = ground arith;
  };
  copy = λ i h. joined-copy m (to + to_len) src k i h;
  kept = λ a out. ground arith;
}

-- `strlcpy` of a string of length `n` returns `n`; with a size of 0 it writes nothing, else it puts a
-- string of the first characters of the source, at most `size - 1`, at the destination and changes no other
-- bytes. Where the blocks overlap, the destination has to be below the source.
pub strlcpy-Joined :
    {m : Memory} {src n : ℕ} (dst size : ℕ)
    → IsPlaced m src n
    → dst ≢ 0
    → (dst ≤ src) ⊎ (src + min n (size - 1) ≤ dst)
    → (m' : Memory) × (strlcpy m dst src size ≡ runs (m', n))
      × (((size ≡ 0) × (m' ≡ m)) ⊎ ((0 < size) × Joined m m' dst 0 src (min n (size - 1))))
unfolding strlcpy
strlcpy-Joined {m} {src} {n} dst zero v nd apart =
    let d : (dst == 0) ≡ false = ground (arith, nd) in
    let s : (src == 0) ≡ false = ground (arith, v.not_null) in
    (m, rw (d, s, strlen_lem v) refl, inl (refl, refl))
strlcpy-Joined {m} {src} {n} dst (suc size) v nd apart =
    let d : (dst == 0) ≡ false = ground (arith, nd) in
    let s : (src == 0) ≡ false = ground (arith, v.not_null) in
    let k = min n (suc size - 1) in
    let count : (if ltb n (suc size - 1) then n else suc size - 1) ≡ k = ground arith in
    let positive : ltb 0 (suc size) ≡ true = ground arith in
    let run = memcpy-moved m dst src k (ground (arith, nd)) (ground (arith, v.not_null)) apart in
    let base : dst ≡ dst + 0 = omega arith in
    (
      joined m (dst + 0) src k,
      rw (d, s, strlen_lem v, positive, count, run) (ap (λ q. runs (joined m q src k, n)) base),
      inr (
        omega arith,
        joined-Joined dst 0 src k (λ i less. absurd (omega (arith, less)))
            (λ i less. v.string.chars i (omega (arith, less))),
      ),
    )

-- `strlcat` of strings of lengths `n` and `dst_len` returns the sum of the lengths; with a size of at most
-- `dst_len` it writes nothing, else it puts the first characters of the source, at most
-- `size - dst_len - 1`, and a terminator at the end of the destination and changes no other bytes. Where the
-- source and the bytes written overlap, these have to be below the source.
pub strlcat-Joined :
    {m : Memory} {src n dst dst_len : ℕ} (size : ℕ)
    → IsPlaced m src n
    → IsPlaced m dst dst_len
    → (dst + dst_len ≤ src) ⊎ (src + min n (size - dst_len - 1) ≤ dst + dst_len)
    → (m' : Memory) × (strlcat m dst src size ≡ runs (m', n + dst_len))
      × (((size ≤ dst_len) × (m' ≡ m))
          ⊎ ((dst_len < size) × Joined m m' dst dst_len src (min n (size - dst_len - 1))))
unfolding strlcat
strlcat-Joined {m} {src} {n} {dst} {dst_len} size v w apart =
    let d : (dst == 0) ≡ false = ground (arith, w.not_null) in
    let s : (src == 0) ≡ false = ground (arith, v.not_null) in
    let k = min n (size - dst_len - 1) in
    let count : (if ltb n (size - dst_len - 1) then n else size - dst_len - 1) ≡ k = ground arith in
    let run =
      memcpy-moved m (dst + dst_len) src k (ground (arith, w.not_null)) (ground (arith, v.not_null))
        apart in
    elim (Bool-cases (ltb 0 size && ltb dst_len size)) [
      | inl fits ↦ (
        joined m (dst + dst_len) src k,
        rw (d, s, strlen_lem v, strlen_lem w, fits, count, run) refl,
        inr (
          ground arith,
          joined-Joined dst dst_len src k w.string.chars
              (λ i less. v.string.chars i (omega (arith, less))),
        ),
      )
      | inr full ↦ (m, rw (d, s, strlen_lem v, strlen_lem w, full) refl, inl (ground arith, refl))
    ]
