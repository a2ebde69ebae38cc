-- ===== src/Palloc/Get.antt =====
-- Getting pages: `palloc_get_multiple` of linuxpintos/src/threads/palloc.c.
use tddb68_collab.Base.{
  ℕ, ◌+◌, ◌*◌, ◌%◌, ◌^◌, ◌≤◌, ◌<◌, ◌≡◌, ◌≢◌, inl, inr, refl, ap, ◌∙◌, Bool, true, false, not, ◌==◌,
  if◌then◌else◌, arith, Bool-cases, subst,
}
use tddb68_collab.Base.Kernel.{Kernel, runs, panics}
use tddb68_collab.Vaddr.{pgsize}
use tddb68_collab.Bitmap.{Bitmap, bitmap_error, add_size, bitmap_scan_and_flip}
use tddb68_collab.Bitmap.Bits.{holds, Wrote}
use tddb68_collab.Bitmap.Bits
use tddb68_collab.Bitmap.Range.{within, IsGroup}
use tddb68_collab.Bitmap.Scan.{NoGroup, Flipped, flipped, unchanged, scan_and_flip-Flipped}
use tddb68_collab.Palloc.{
  Pool, memset, Pages, Flags, null, pool_of, with_map, deliver, palloc_get_multiple,
}

-- A pool of whole pages that ends inside the address space and does not start at 0.
pub record IsPool (q : Pool) : Type 0 where
  pub map : Bits.IsValid q.used_map
  pub aligned : q.base % pgsize ≡ 0
  pub mapped : 0 < q.base
  pub fits : q.base + pgsize * q.used_map.bit_cnt ≤ 2 ^ 32

-- The two pools are such pools, the kernel's below the user's.
pub record IsValid (p : Pages) : Type 0 where
  pub kernel : IsPool p.kernel_pool
  pub user : IsPool p.user_pool
  pub apart : p.kernel_pool.base + pgsize * p.kernel_pool.used_map.bit_cnt ≤ p.user_pool.base

pub pool_of-IsPool : {p : Pages} (user : Bool) → IsValid p → IsPool (pool_of p user)
pool_of-IsPool true v = v.user
pool_of-IsPool false v = v.kernel

-- The pages that a call gave out: where they are, that they were free and are now in use, that no other
-- page changed hands, and what was done to their contents.
pub record Given (p : Pages) (flags : Flags) (page_cnt pages : ℕ) (p' : Pages) : Type 0 where
  pub index : ℕ
  pub address : pages ≡ (pool_of p flags.pal_user).base + pgsize * index
  pub inside : index + page_cnt ≤ (pool_of p flags.pal_user).used_map.bit_cnt
  pub were_free : IsGroup (pool_of p flags.pal_user).used_map index page_cnt false
  pub taken :
      Wrote
        (pool_of p flags.pal_user).used_map
        (pool_of p' flags.pal_user).used_map
        (within index page_cnt)
        true
  pub same_base : (pool_of p' flags.pal_user).base ≡ (pool_of p flags.pal_user).base
  pub other_pool : pool_of p' (not flags.pal_user) ≡ pool_of p (not flags.pal_user)
  pub contents :
      p'.memory ≡ (if flags.pal_zero then memset p.memory pages 0 (pgsize * page_cnt) else p.memory)

-- The outcomes of a call: pages, or none because no group is free, which panics under PAL_ASSERT.
pub data Got (p : Pages) (flags : Flags) (page_cnt : ℕ) : Kernel (ℕ × Pages) → Type 0 where
  given :
      {pages : ℕ} {p' : Pages} {out : Kernel (ℕ × Pages)}
      → out ≡ runs (pages, p')
      → Given p flags page_cnt pages p'
      → Got p flags page_cnt out
  none_free :
      {out : Kernel (ℕ × Pages)}
      → out ≡ (if flags.pal_assert then panics else runs (null, p))
      → NoGroup (pool_of p flags.pal_user).used_map 0 page_cnt false
      → Got p flags page_cnt out

pub pool_of-with_map :
    (p : Pages) (user : Bool) (m : Bitmap)
    → (pool_of (with_map p user m) user ≡ record { used_map = m; base = (pool_of p user).base })
      × (pool_of (with_map p user m) (not user) ≡ pool_of p (not user))
      × ((with_map p user m).memory ≡ p.memory)
pool_of-with_map p true m = (refl, refl, refl)
pool_of-with_map p false m = (refl, refl, refl)

with_map_same : (p : Pages) (user : Bool) → with_map p user (pool_of p user).used_map ≡ p
with_map_same p true = refl
with_map_same p false = refl

-- The pages with their contents filled, if the flags ask for it.
abbrev filled : Pages → Flags → (page_cnt pages : ℕ) → Pages
filled p flags page_cnt pages =
    if flags.pal_zero then record p { memory = memset p.memory pages 0 (pgsize * page_cnt) } else p

filled_fields :
    (p : Pages) (flags : Flags) (page_cnt pages : ℕ)
    → ((user : Bool) → pool_of (filled p flags page_cnt pages) user ≡ pool_of p user)
      × ((filled p flags page_cnt pages).memory
          ≡ (if flags.pal_zero then memset p.memory pages 0 (pgsize * page_cnt) else p.memory))
filled_fields p flags page_cnt pages = elim (Bool-cases flags.pal_zero) [
  | inl z ↦ rw z (λ user. elim (Bool-cases user) [ inl u ↦ rw u refl | inr u ↦ rw u refl ], refl)
  | inr k ↦ rw k (λ user. refl, refl)
]

get_multiple-deliver :
    (p : Pages) (flags : Flags) (page_cnt r : ℕ) (m : Bitmap)
    → 0 < page_cnt
    → bitmap_scan_and_flip (pool_of p flags.pal_user).used_map 0 page_cnt false ≡ runs (r, m)
    → palloc_get_multiple p flags page_cnt
      ≡ deliver flags page_cnt (pool_of p flags.pal_user).base r (with_map p flags.pal_user m)
unfolding palloc_get_multiple
get_multiple-deliver p flags page_cnt r m pos run = ground (arith, run)

deliver_address :
    (p : Pages) (flags : Flags) (page_cnt base r : ℕ)
    → 0 < base
    → base + pgsize * r < 2 ^ 32
    → deliver flags page_cnt base r p
      ≡ runs (base + pgsize * r, filled p flags page_cnt (base + pgsize * r))
unfolding deliver
deliver_address p flags page_cnt base r pos small =
    let e : add_size base (pgsize * r) ≡ base + pgsize * r = omega arith in
    let ne : (r == bitmap_error) ≡ false = ground arith in
    let nz : (base + pgsize * r == null) ≡ false = ground arith in rw (ne, e) (rw nz refl)

deliver_none :
    (p : Pages) (flags : Flags) (page_cnt base r : ℕ)
    → r ≡ bitmap_error
    → deliver flags page_cnt base r p ≡ (if flags.pal_assert then panics else runs (null, p))
unfolding deliver
deliver_none p flags page_cnt base r e = rw e refl

Flipped-Got :
    (p : Pages) (flags : Flags) (page_cnt : ℕ) {r : ℕ} {m : Bitmap}
    → IsPool (pool_of p flags.pal_user)
    → 0 < page_cnt
    → Flipped (pool_of p flags.pal_user).used_map 0 page_cnt false r m
    → Got p flags page_cnt
        (deliver flags page_cnt (pool_of p flags.pal_user).base r (with_map p flags.pal_user m))
Flipped-Got p flags page_cnt {r} {m} q pos (flipped f w) =
    let user = flags.pal_user in
    let base : ℕ = (pool_of p user).base in
    let p1 = with_map p user m in
    let (mine, others, same) = pool_of-with_map p user m in
    let (pools, contents) = filled_fields p1 flags page_cnt (base + pgsize * r) in
    given (deliver_address p1 flags page_cnt base r q.mapped (omega (arith, q.fits, f.inside)))
      (record {
        index = r;
        address = refl;
        inside = f.inside;
        were_free = f.group;
        taken = rw (pools user, mine) w;
        same_base = rw (pools user, mine) refl;
        other_pool = pools (not user) ∙ others;
        contents =
            contents
            ∙ ap
                (λ mem.
                  if flags.pal_zero
                  then memset mem (base + pgsize * r) 0 (pgsize * page_cnt)
                  else mem)
                same;
      })
Flipped-Got p flags page_cnt {r} {m} q pos (unchanged e same none_there) =
    none_free
      (deliver_none (with_map p flags.pal_user m) flags page_cnt _ r e
        ∙ ap (λ p'. if flags.pal_assert then panics else runs (null, p'))
            (ap (with_map p flags.pal_user) same ∙ with_map_same p flags.pal_user))
      none_there

-- On valid pages, for a count that is not 0, `palloc_get_multiple` gives out a free group of the pool
-- that the flags name, marks just that group as used and zeroes it if the flags ask for it, or finds that
-- there is no such group and returns null, or panics if the flags ask for that.
pub get_multiple-Got :
    {p : Pages} (flags : Flags) (page_cnt : ℕ)
    → IsValid p
    → 0 < page_cnt
    → Got p flags page_cnt (palloc_get_multiple p flags page_cnt)
get_multiple-Got {p} flags page_cnt v pos =
    let q = pool_of-IsPool flags.pal_user v in
    let (r, m, run, f) =
      scan_and_flip-Flipped 0 page_cnt false q.map (omega (arith, q.fits)) (omega arith) in
    rw (get_multiple-deliver p flags page_cnt r m pos run) (Flipped-Got p flags page_cnt q pos f)

-- A result that is not null is a group given out.
pub get_multiple-Given :
    {p p' : Pages} {flags : Flags} {page_cnt pages : ℕ}
    → IsValid p
    → 0 < page_cnt
    → palloc_get_multiple p flags page_cnt ≡ runs (pages, p')
    → pages ≢ null
    → Given p flags page_cnt pages p'
get_multiple-Given {p} {p'} {flags} {page_cnt} {pages} v pos e not_null =
    go (get_multiple-Got flags page_cnt v pos)
  where
    go :
        Got p flags page_cnt (palloc_get_multiple p flags page_cnt)
        → Given p flags page_cnt pages p'
    go (given {pages = r} {p' = t} e' g) =
        let same_pages : r ≡ pages = cc in
        let same_state : t ≡ p' = cc in
        subst (λ x. Given p flags page_cnt x p') same_pages
          (subst (λ x. Given p flags page_cnt r x) same_state g)
    go (none_free e' _) = absurd (not_null (ground arith))
