-- ===== src/Strings/Blocks.antt =====
-- What the functions on blocks do: linuxpintos/src/lib/string.c.
use tddb68_collab.Base.{
  ℕ, zero, suc, ◌+◌, ◌-◌, ◌%◌, ◌^◌, ◌≤◌, ◌<◌, ◌≡◌, ◌≢◌, ◌⊎◌, inl, inr, refl, sym, ap, ◌∙◌, Bool,
  true, false, ◌&&◌, none, some, ◌==◌, ltb, leb, if◌then◌else◌, arith, Bool-cases,
}
use tddb68_collab.Base.Int.{ℤ, pos, negsuc}
use tddb68_collab.Base.Kernel.{runs}
use mathlib.Core.Path.{fun_ext}
use tddb68_collab.Palloc
use tddb68_collab.Strings.{
  Memory, store, copy_up, copy_down, fill, is_block, memcpy, memmove, memset, cmp_blocks, memcmp,
  chr_in_block, memchr,
}

-- `a` is one of the `size` bytes from `dst` on.
abbrev pub inside : (dst size a : ℕ) → Bool
inside dst size a = leb dst a && ltb a (dst + size)

-- The memory after the old bytes of the block at `src` are put at `dst`, all at once.
abbrev pub moved : Memory → (dst src size : ℕ) → Memory
moved m dst src size a = if inside dst size a then m (src + (a - dst)) else m a

pub copy_up-moved :
    (m : Memory) (size dst src : ℕ)
    → (dst ≤ src) ⊎ (src + size ≤ dst)
    → (a : ℕ) → copy_up m size dst src a ≡ moved m dst src size a
unfolding copy_up
copy_up-moved m zero dst src h a = ground arith
copy_up-moved m (suc size) dst src h a =
    let rest = copy_up-moved (store m dst (m src)) size (dst + 1) (src + 1) (ground arith) a in
    rest ∙ elim (Bool-cases (inside (dst + 1) size a)) [
      | inl e ↦
          (let same : src + 1 + (a - (dst + 1)) ≡ src + (a - dst) = ground arith in
            ground (arith, same, ap m same))
      | inr e ↦ (elim (Bool-cases (a == dst)) [
        | inl q ↦ (let same : src ≡ src + (a - dst) = ground arith in ground (arith, ap m same))
        | inr q ↦ ground arith
      ])
    ]

pub copy_down-moved :
    (m : Memory) (size dst src : ℕ)
    → src ≤ dst
    → (a : ℕ) → copy_down m size (dst + size) (src + size) a ≡ moved m dst src size a
unfolding copy_down
copy_down-moved m zero dst src h a = ground arith
copy_down-moved m (suc size) dst src h a =
    let rest = copy_down-moved (store m (dst + size) (m (src + size))) size dst src h a in
    grind (arith, rest)

-- `memmove` puts the old bytes of the source at the destination and changes nothing else, whether the
-- blocks overlap or not; it returns the end of the destination if that is below the source, else its start.
pub memmove-moved :
    (m : Memory) (dst src size : ℕ)
    → is_block dst size ≡ true
    → is_block src size ≡ true
    → memmove m dst src size ≡ runs (moved m dst src size, if ltb dst src then dst + size else dst)
unfolding memmove
memmove-moved m dst src size d s =
    rw (d, s)
      (elim (Bool-cases (ltb dst src)) [
        | inl up ↦
            rw (up) (
              ap (λ x. runs (x, dst + size))
                (fun_ext (copy_up-moved m size dst src (ground arith))))
        | inr down ↦
            rw (down)
              (ap (λ x. runs (x, dst)) (fun_ext (copy_down-moved m size dst src (ground arith))))
      ])

-- The same for `memcpy` of blocks of which the source is not below the destination and overlaps it.
pub memcpy-moved :
    (m : Memory) (dst src size : ℕ)
    → is_block dst size ≡ true
    → is_block src size ≡ true
    → (dst ≤ src) ⊎ (src + size ≤ dst)
    → memcpy m dst src size ≡ runs (moved m dst src size, dst)
unfolding memcpy
memcpy-moved m dst src size d s h =
    rw (d, s) (ap (λ x. runs (x, dst)) (fun_ext (copy_up-moved m size dst src h)))

fill-memset :
    (m : Memory) (size dst value a : ℕ)
    → fill m size dst value a ≡ Palloc.memset m dst (value % 2 ^ 8) size a
unfolding fill
fill-memset m zero dst value a = ground arith
fill-memset m (suc size) dst value a =
    grind (arith, fill-memset (store m dst (value % 2 ^ 8)) size (dst + 1) value a)

-- `memset` sets the bytes of the block to the lowest byte of the value, and no others.
pub memset_lem :
    (m : Memory) (dst value size : ℕ)
    → is_block dst size ≡ true
    → memset m dst value size ≡ runs (Palloc.memset m dst (value % 2 ^ 8) size, dst)
unfolding memset
memset_lem m dst value size d =
    rw (d) (ap (λ x. runs (x, dst)) (fun_ext (fill-memset m size dst value)))

-- The blocks agree on their first `n` bytes.
abbrev pub Agree : Memory → (a b n : ℕ) → Type 0
Agree m a b n = (i : ℕ) → i < n → m (a + i) ≡ m (b + i)

-- `order` is the order of two blocks that differ first at `i`.
abbrev pub Differ : Memory → (a b i : ℕ) → ℤ → Type 0
Differ m a b i order =
    Agree m a b i
    × (((order ≡ pos 1) × (m (b + i) < m (a + i))) ⊎ ((order ≡ negsuc 0) × (m (a + i) < m (b + i))))

pub shift {ℓ} : {A : Type ℓ} (m : ℕ → A) (a i : ℕ) → m (a + 1 + i) ≡ m (a + suc i)
shift m a i = let same : a + 1 + i ≡ a + suc i = omega arith in ap m same

pub at_zero {ℓ} : {A : Type ℓ} (m : ℕ → A) (a : ℕ) → m (a + 0) ≡ m a
at_zero m a = let same : a + 0 ≡ a = omega arith in ap m same

pub Agree-suc :
    (m : Memory) (a b n : ℕ) → m a ≡ m b → Agree m (a + 1) (b + 1) n → Agree m a b (suc n)
Agree-suc m a b n e rest zero h = at_zero m a ∙ e ∙ sym (at_zero m b)
Agree-suc m a b n e rest (suc i) h = sym (shift m a i) ∙ rest i (omega (arith, h)) ∙ shift m b i

cmp_blocks_lem :
    (m : Memory) (size a b : ℕ)
    → ((cmp_blocks m size a b ≡ pos 0) × Agree m a b size)
      ⊎ ((i : ℕ) × (i < size) × Differ m a b i (cmp_blocks m size a b))
unfolding cmp_blocks
cmp_blocks_lem m zero a b = inl (refl, λ i h. absurd (omega arith))
cmp_blocks_lem m (suc size) a b = elim (Bool-cases (m a == m b)) [
  | inl same ↦
      let eq : m a ≡ m b = ground arith in
      rw (same) (elim (cmp_blocks_lem m size (a + 1) (b + 1)) [
        | inl (e, agree) ↦ inl (e, Agree-suc m a b size eq agree)
        | inr (i, h, (agree, order)) ↦ inr (
          suc i,
          omega (arith, h),
          (Agree-suc m a b i eq agree, ground (arith, order, shift m a i, shift m b i)),
        )
      ])
  | inr differ ↦ rw (differ) (
      inr (
        0,
        omega arith,
        (λ j h. absurd (omega (arith, h)), ground (arith, differ, at_zero m a, at_zero m b)),
      ))
]

-- A byte that is not at `p`, and not in the bytes after it.
pub Differs-suc :
    (m : Memory) (p ch : ℕ)
    → (m p == ch) ≡ false
    → (n : ℕ) → ((i : ℕ) → i < n → m (p + 1 + i) ≢ ch)
    → (i : ℕ) → i < suc n
    → m (p + i) ≢ ch
Differs-suc m p ch ne n rest zero h e = absurd (ground (arith, at_zero m p))
Differs-suc m p ch ne n rest (suc i) h e = rest i (omega (arith, h)) (shift m p i ∙ e)

chr_in_block_lem :
    (m : Memory) (size block ch : ℕ)
    → ((chr_in_block m size block ch ≡ none) × ((i : ℕ) → i < size → m (block + i) ≢ ch))
      ⊎ ((i : ℕ) × (i < size)
          × (chr_in_block m size block ch ≡ some (block + i))
          × (m (block + i) ≡ ch)
          × ((j : ℕ) → j < i → m (block + j) ≢ ch))
unfolding chr_in_block
chr_in_block_lem m zero block ch = inl (refl, λ i h. absurd (omega arith))
chr_in_block_lem m (suc size) block ch = elim (Bool-cases (m block == ch)) [
  | inl e ↦
      let here : block ≡ block + 0 = omega arith in
      rw (e) (
        inr (
          0,
          omega arith,
          ap some here,
          at_zero m block ∙ ground (arith, e),
          λ j h. absurd (omega (arith, h)),
        ))
  | inr ne ↦
      let skip : (n : ℕ)
          → ((i : ℕ) → i < n → m (block + 1 + i) ≢ ch)
          → (i : ℕ) → i < suc n
          → m (block + i) ≢ ch =
        Differs-suc m block ch ne in
      rw (ne) (elim (chr_in_block_lem m size (block + 1) ch) [
        | inl (e, none_of) ↦ inl (e, skip size none_of)
        | inr (i, h, e, at, none_of) ↦
            let there : block + 1 + i ≡ block + suc i = omega arith in
            inr (
              suc i,
              omega (arith, h),
              e ∙ ap some there,
              sym (shift m block i) ∙ at,
              skip i none_of,
            )
      ])
]

-- `memcmp` returns 0 if the blocks are equal, and otherwise 1 or -1 by their first bytes that differ.
pub memcmp_lem :
    (m : Memory) (a b size : ℕ)
    → is_block a size ≡ true
    → is_block b size ≡ true
    → (order : ℤ) × (memcmp m a b size ≡ runs order)
      × (((order ≡ pos 0) × Agree m a b size) ⊎ ((i : ℕ) × (i < size) × Differ m a b i order))
unfolding memcmp
memcmp_lem m a b size ha hb = (cmp_blocks m size a b, rw (ha, hb) refl, cmp_blocks_lem m size a b)

-- `memchr` finds the first byte of the block that is the lowest byte of the character, if there is one.
pub memchr_lem :
    (m : Memory) (block ch size : ℕ)
    → is_block block size ≡ true
    → ((memchr m block ch size ≡ runs none) × ((i : ℕ) → i < size → m (block + i) ≢ ch % 2 ^ 8))
      ⊎ ((i : ℕ) × (i < size)
          × (memchr m block ch size ≡ runs (some (block + i)))
          × (m (block + i) ≡ ch % 2 ^ 8)
          × ((j : ℕ) → j < i → m (block + j) ≢ ch % 2 ^ 8))
unfolding memchr
memchr_lem m block ch size h = rw (h) (elim (chr_in_block_lem m size block (ch % 2 ^ 8)) [
  | inl (e, none_of) ↦ inl (ap runs e, none_of)
  | inr (i, less, e, at, none_of) ↦ inr (i, less, ap runs e, at, none_of)
])
