-- ===== src/Palloc/Free.antt =====
-- Giving pages back: `palloc_free_multiple` of linuxpintos/src/threads/palloc.c.
use tddb68_collab.Base.{
  ℕ, ◌+◌, ◌-◌, ◌*◌, ◌≤◌, ◌<◌, ◌≡◌, ◌≢◌, refl, ap, ◌∙◌, Bool, true, false, not, arith,
}
use tddb68_collab.Base.Kernel.{runs}
use tddb68_collab.Vaddr.{pgsize, pg_no}
use tddb68_collab.Bitmap.Bits.{holds, Wrote}
use tddb68_collab.Bitmap.Range.{within, IsGroup, set_multiple-Wrote, all_lem}
use tddb68_collab.Palloc.{
  Pool, Memory, memset, Pages, Flags, null, pool_of, with_map, page_from_pool, give_back,
  palloc_get_multiple, palloc_free_multiple,
}
use tddb68_collab.Palloc.Keeping.{Given-IsValid}
use tddb68_collab.Palloc.Get.{IsPool, IsValid, pool_of-IsPool, pool_of-with_map, get_multiple-Given}

-- Pages of a pool that are all in use are given back: their bits are cleared and no others.
record Returned (p : Pages) (user : Bool) (index page_cnt : ℕ) (p' : Pages) : Type 0 where
  cleared : Wrote (pool_of p user).used_map (pool_of p' user).used_map (within index page_cnt) false
  other_pool : pool_of p' (not user) ≡ pool_of p (not user)

pool_of-memory :
    (p : Pages) (mem : Memory) (user : Bool)
    → pool_of (record p { memory = mem }) user ≡ pool_of p user
pool_of-memory p mem true = refl
pool_of-memory p mem false = refl

give_back-Returned :
    (p : Pages) (user : Bool) (pages index page_cnt : ℕ)
    → IsPool (pool_of p user)
    → pages ≡ (pool_of p user).base + pgsize * index
    → index + page_cnt ≤ (pool_of p user).used_map.bit_cnt
    → IsGroup (pool_of p user).used_map index page_cnt true
    → (p' : Pages) × (give_back p user pages page_cnt ≡ runs p') × Returned p user index page_cnt p'
unfolding give_back
give_back-Returned p user pages index page_cnt q at inside in_use =
    let map = (pool_of p user).used_map in
    let same_index : pg_no pages - pg_no (pool_of p user).base ≡ index = omega (arith, q.aligned) in
    let (a, run, iff) = all_lem {b = map} index page_cnt q.map inside in
    let (m, write, w) = set_multiple-Wrote {b = map} index page_cnt false q.map inside in
    let cc_pages : Pages = record p { memory = memset p.memory pages 0xcc (pgsize * page_cnt) } in
    let (mine, others, _) = pool_of-with_map cc_pages user m in
    (
      with_map cc_pages user m,
      rw same_index (ground (arith, run, write, iff.1 in_use)),
      record {
        cleared = rw mine w;
        other_pool = others ∙ pool_of-memory p cc_pages.memory (not user);
      },
    )

page_from_pool_inside :
    (q : Pool) (pages i : ℕ)
    → IsPool q
    → pages ≡ q.base + pgsize * i
    → i < q.used_map.bit_cnt
    → page_from_pool q pages ≡ true
unfolding page_from_pool
page_from_pool_inside q pages i v at lt = ground (arith, v.aligned, v.fits)

page_from_pool_above :
    (q : Pool) (pages : ℕ)
    → IsPool q
    → q.base + pgsize * q.used_map.bit_cnt ≤ pages
    → page_from_pool q pages ≡ false
unfolding page_from_pool
page_from_pool_above q pages v above = ground (arith, v.aligned, v.fits)

-- A page of either pool is given back to that pool.
free-give_back :
    (p : Pages) (user : Bool) (pages i page_cnt : ℕ)
    → IsValid p
    → pages ≡ (pool_of p user).base + pgsize * i
    → i < (pool_of p user).used_map.bit_cnt
    → 0 < page_cnt
    → palloc_free_multiple p pages page_cnt ≡ give_back p user pages page_cnt
unfolding palloc_free_multiple
free-give_back p true pages i page_cnt v at lt pos = ground (
  arith,
  v.user.aligned,
  v.user.mapped,
  v.apart,
  page_from_pool_inside p.user_pool pages i v.user at lt,
  page_from_pool_above p.kernel_pool pages v.kernel (omega (arith, v.apart)),
)
free-give_back p false pages i page_cnt v at lt pos = ground (
  arith,
  v.kernel.aligned,
  v.kernel.mapped,
  page_from_pool_inside p.kernel_pool pages i v.kernel at lt,
)

-- Which pages of each pool are in use.
abbrev pub SameUse : Pages → Pages → Type 0
SameUse p q =
    (user : Bool) (j : ℕ) → holds (pool_of p user).used_map j ≡ holds (pool_of q user).used_map j

both : (P : Bool → Type 0) (user : Bool) → P user → P (not user) → (u : Bool) → P u
both P true a b true = a
both P true a b false = b
both P false a b true = b
both P false a b false = a

-- A number of pages, not 0, that `palloc_get_multiple` gave out of valid pools can be given back: `palloc_free_multiple` does not panic,
-- and then the same pages are in use as before the two calls, in both pools.
pub free-get :
    {p p' : Pages} (flags : Flags) (page_cnt : ℕ) {pages : ℕ}
    → IsValid p
    → 0 < page_cnt
    → palloc_get_multiple p flags page_cnt ≡ runs (pages, p')
    → pages ≢ null
    → (p'' : Pages) × (palloc_free_multiple p' pages page_cnt ≡ runs p'') × SameUse p'' p
free-get {p} {p'} flags page_cnt {pages} v pos e not_null =
    let g = get_multiple-Given {flags = flags} {page_cnt = page_cnt} v pos e not_null in
    let user = flags.pal_user in
    let v' = Given-IsValid v g in
    let at : pages ≡ (pool_of p' user).base + pgsize * g.index = rw g.same_base g.address in
    let inside : g.index + page_cnt ≤ (pool_of p' user).used_map.bit_cnt =
      rw g.taken.size g.inside in
    let in_use : IsGroup (pool_of p' user).used_map g.index page_cnt true =
      λ j lo hi. ground (arith, g.taken.bits j) in
    let (p'', run, r) =
      give_back-Returned p' user pages g.index page_cnt (pool_of-IsPool user v') at inside in_use in
    (
      p'',
      free-give_back p' user pages g.index page_cnt v' at (omega arith) pos ∙ run,
      both (λ u. (j : ℕ) → holds (pool_of p'' u).used_map j ≡ holds (pool_of p u).used_map j) user
          (λ j. ground (arith, r.cleared.bits j, g.taken.bits j, g.were_free j))
          (λ j. ap (λ q. holds q.used_map j) (r.other_pool ∙ g.other_pool)),
    )
