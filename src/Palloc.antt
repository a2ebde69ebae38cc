-- ===== src/Palloc.antt =====
-- The page allocator of linuxpintos/src/threads/palloc.c. Each call is one step: the lock of a pool
-- is held from the scan to the flip. Addresses are numbers below 2 ^ 32 and the null pointer is 0.
pub mod Get
pub mod Keeping
pub mod Free
pub mod Disjoint
pub mod Init
mod Tests
use tddb68_collab.Base.{
  ℕ, ◌+◌, ◌-◌, ◌*◌, ◌/◌, ◌%◌, ◌^◌, Bool, true, false, not, ◌&&◌, ◌||◌, List, ltb, leb, ◌==◌,
  if◌then◌else◌,
}
use tddb68_collab.Base.Kernel.{Kernel, runs, panics, ◌>>=◌, ◌>>◌, assert}
use tddb68_collab.Vaddr.{pgsize, pg_ofs, pg_no, div_round_up}
use tddb68_collab.Bitmap.{
  Bitmap, bitmap_error, add_size, bitmap_size, bitmap_buf_size, bitmap_scan_and_flip, bitmap_all,
  bitmap_set_multiple, bitmap_create_in_buf,
}

-- `struct pool`, without its lock
pub record Pool : Type 0 where
  pub used_map : Bitmap
  pub base : ℕ

-- The bytes of memory.
abbrev pub Memory : Type 0
Memory = ℕ → ℕ

abbrev pub memset : Memory → (dst value size : ℕ) → Memory
memset mem dst value size a = if leb dst a && ltb a (dst + size) then value else mem a

pub record Pages : Type 0 where
  pub kernel_pool : Pool
  pub user_pool : Pool
  pub memory : Memory

-- `enum palloc_flags`
pub record Flags : Type 0 where
  pub pal_assert : Bool
  pub pal_zero : Bool
  pub pal_user : Bool

abbrev pub null : ℕ
null = 0

abbrev pub pool_of : Pages → Bool → Pool
pool_of p user = if user then p.user_pool else p.kernel_pool

abbrev pub with_map : Pages → Bool → Bitmap → Pages
with_map p true m = record p { user_pool = record { used_map = m; base = p.user_pool.base } }
with_map p false m = record p { kernel_pool = record { used_map = m; base = p.kernel_pool.base } }

-- What follows the scan: the address, and the contents of the pages.
pub deliver : Flags → (page_cnt base page_idx : ℕ) → Pages → Kernel (ℕ × Pages)
deliver flags page_cnt base page_idx p =
    let pages = if page_idx == bitmap_error then null else add_size base (pgsize * page_idx) in
    if pages == null
    then (if flags.pal_assert then panics else runs (null, p))
    else runs (
      pages,
      if flags.pal_zero
          then record p { memory = memset p.memory pages 0 (pgsize * page_cnt) }
          else p,
    )

-- A null result leaves the pages as they were.
pub palloc_get_multiple : Pages → Flags → (page_cnt : ℕ) → Kernel (ℕ × Pages)
palloc_get_multiple p flags page_cnt =
    let pool = pool_of p flags.pal_user in
    let rest = do
      (page_idx, used_map) ← bitmap_scan_and_flip pool.used_map 0 page_cnt false
      deliver flags page_cnt pool.base page_idx (with_map p flags.pal_user used_map)
    in if page_cnt == 0 then runs (null, p) else rest

pub palloc_get_page : Pages → Flags → Kernel (ℕ × Pages)
palloc_get_page p flags = palloc_get_multiple p flags 1

pub page_from_pool : Pool → (page : ℕ) → Bool
page_from_pool pool page =
    let start_page = pg_no pool.base in
    leb start_page (pg_no page)
    && ltb (pg_no page) (add_size start_page (bitmap_size pool.used_map))

-- The part of `palloc_free_multiple` after the choice of the pool.
pub give_back : Pages → Bool → (pages page_cnt : ℕ) → Kernel Pages
give_back p user pages page_cnt = do
  let pool = pool_of p user
  let page_idx = pg_no pages - pg_no pool.base
  all ← bitmap_all pool.used_map page_idx page_cnt
  assert all
  used_map ← bitmap_set_multiple pool.used_map page_idx page_cnt false
  runs (
      with_map (record p { memory = memset p.memory pages 0xcc (pgsize * page_cnt) }) user used_map)

pub palloc_free_multiple : Pages → (pages page_cnt : ℕ) → Kernel Pages
palloc_free_multiple p pages page_cnt =
    let rest =
      if page_from_pool p.kernel_pool pages
      then give_back p false pages page_cnt
      else if page_from_pool p.user_pool pages
      then give_back p true pages page_cnt
      else panics in
    assert (pg_ofs pages == 0) >> (if pages == null || page_cnt == 0 then runs p else rest)

pub palloc_free_page : Pages → (page : ℕ) → Kernel Pages
palloc_free_page p page = palloc_free_multiple p page 1

-- The words are those that stand at the base, where the map goes.
pub init_pool : (base page_cnt : ℕ) → List ℕ → Kernel Pool
init_pool base page_cnt words = do
  let bm_pages = div_round_up (bitmap_buf_size page_cnt) pgsize
  assert (leb bm_pages page_cnt)
  used_map ← bitmap_create_in_buf (page_cnt - bm_pages) (bm_pages * pgsize) words
  runs (record { used_map = used_map; base = add_size base (bm_pages * pgsize) })
