-- ===== src/Strings/Search.antt =====
-- What the functions that read strings do: linuxpintos/src/lib/string.c.
use tddb68_collab.Base.{
  ℕ, zero, suc, ◌+◌, ◌-◌, ◌%◌, ◌^◌, ◌≤◌, ◌<◌, ◌≡◌, ◌≢◌, refl, sym, ◌∙◌, subst, Bool, true, false,
  ◌==◌, if◌then◌else◌, arith, min,
}
use tddb68_collab.Base.Kernel.{runs}
use tddb68_collab.Strings.{
  Memory, room, is_block, chr_in_block, memchr, end_from, strlen, nlen_from, chr_from, strchr,
  is_found,
}
use tddb68_collab.Strings.Blocks.{shift, at_zero}

-- `n` bytes that are not 0, and then a 0.
pub record IsString (m : Memory) (s n : ℕ) : Type 0 where
  pub chars : (i : ℕ) → i < n → m (s + i) ≢ 0
  pub ends : m (s + n) ≡ 0

-- A string at an address that is not null, below 2^32.
pub record IsPlaced (m : Memory) (s n : ℕ) : Type 0 where
  pub string : IsString m s n
  pub not_null : s ≢ 0
  pub below : s + n < 2 ^ 32

pub IsString-head : {m : Memory} {s : ℕ} (n : ℕ) → IsString m s (suc n) → (m s == 0) ≡ false
IsString-head {m} {s} n v = ground (arith, v.chars 0, at_zero m s)

pub IsString-tail : {m : Memory} {s n : ℕ} → IsString m s (suc n) → IsString m (s + 1) n
IsString-tail {m} {s} {n} v = record {
  chars = λ i h e. v.chars (suc i) (omega (arith, h)) (sym (shift m s i) ∙ e);
  ends = shift m s n ∙ v.ends;
}

pub IsString-end : {m : Memory} {s : ℕ} → IsString m s 0 → m s ≡ 0
IsString-end {m} {s} v = sym (at_zero m s) ∙ v.ends

-- The number of addresses at the front of `n` addresses from `s` on that pass a test.
unfoldable pub span : (test : ℕ → Bool) → (n s : ℕ) → ℕ
span test zero s = 0
span test (suc n) s = let rest = span test n (s + 1) in if test s then suc rest else 0

pub span_le : (test : ℕ → Bool) (n s : ℕ) → span test n s ≤ n
unfolding span
span_le test zero s = omega arith
span_le test (suc n) s = ground (arith, span_le test n (s + 1))

-- `c` is in the string of length `n` at `s`, or is 0.
abbrev pub is_in : Memory → (s n c : ℕ) → Bool
is_in m s n c = is_found (chr_in_block m (suc n) s c)

end_from_lem :
    {m : Memory} (n fuel s : ℕ) → IsString m s n → n < fuel → end_from m fuel s ≡ runs (s + n)
unfolding end_from
end_from_lem n zero s v h = absurd (omega (arith, h))
end_from_lem zero (suc fuel) s v h = ground (arith, IsString-end v)
end_from_lem (suc n) (suc fuel) s v h =
    ground
      (arith, IsString-head n v, end_from_lem n fuel (s + 1) (IsString-tail v) (omega (arith, h)))

pub strlen_lem : {m : Memory} {s n : ℕ} → IsPlaced m s n → strlen m s ≡ runs n
unfolding strlen
strlen_lem {m} {s} {n} v =
    let run = end_from_lem n (room s) s v.string (omega (arith, v.below)) in
    let start : (s == 0) ≡ false = ground (arith, v.not_null) in
    let size : s + n - s ≡ n = omega arith in rw (start, run, size) refl

nlen_from_lem :
    {m : Memory} (n left s length : ℕ)
    → IsString m (s + length) n
    → nlen_from m left s length ≡ length + min n left
unfolding nlen_from
nlen_from_lem n zero s length v = omega arith
nlen_from_lem zero (suc left) s length v = ground (arith, IsString-end v)
nlen_from_lem {m} (suc n) (suc left) s length v =
    let next : s + length + 1 ≡ s + (length + 1) = omega arith in
    ground (
      arith,
      IsString-head n v,
      nlen_from_lem n left s (length + 1) (subst (λ p. IsString m p n) next (IsString-tail v)),
    )

-- `strchr` on a string finds what `memchr` finds in it and its terminator.
chr_from_lem :
    {m : Memory} (n fuel s c : ℕ)
    → IsString m s n
    → n < fuel
    → chr_from m fuel s c ≡ runs (chr_in_block m (suc n) s c)
unfolding chr_from chr_in_block
chr_from_lem n zero s c v h = absurd (omega (arith, h))
chr_from_lem zero (suc fuel) s c v h = ground (arith, IsString-end v)
chr_from_lem (suc n) (suc fuel) s c v h =
    ground
      (arith, IsString-head n v, chr_from_lem n fuel (s + 1) c (IsString-tail v) (omega (arith, h)))

pub strchr_lem :
    {m : Memory} {s n : ℕ} (c : ℕ)
    → IsPlaced m s n
    → strchr m s c ≡ runs (chr_in_block m (suc n) s (c % 2 ^ 8))
unfolding strchr
strchr_lem {m} {s} {n} c v =
    let run = chr_from_lem n (room s) s (c % 2 ^ 8) v.string (omega (arith, v.below)) in
    let start : (s == 0) ≡ false = ground (arith, v.not_null) in rw (start, run) refl

-- `strchr` returns what `memchr` returns for the characters of the string and its terminator.
pub strchr-memchr :
    {m : Memory} {s n : ℕ} (c : ℕ) → IsPlaced m s n → strchr m s c ≡ memchr m s c (suc n)
unfolding memchr
strchr-memchr {m} {s} {n} c v =
    let start : is_block s (suc n) ≡ true = ground (arith, v.not_null) in
    strchr_lem c v ∙ rw (start) refl
