-- ===== src/Palloc/Init.antt =====
-- A new pool: `init_pool` of linuxpintos/src/threads/palloc.c.
use tddb68_collab.Base.{
  ℕ, ◌+◌, ◌-◌, ◌*◌, ◌%◌, ◌^◌, ◌≤◌, ◌<◌, ◌≡◌, refl, List, length, arith, le→leb,
}
use tddb68_collab.Base.Kernel.{runs}
use tddb68_collab.Vaddr.{pgsize, div_round_up}
use tddb68_collab.Bitmap.{bitmap_buf_size, elem_cnt, add_size}
use tddb68_collab.Bitmap.Create.{IsClear, create_in_buf-IsClear}
use tddb68_collab.Palloc.{Pool, init_pool}
use tddb68_collab.Palloc.Get.{IsPool}

-- The pages that the map takes.
abbrev pub bm_pages : ℕ → ℕ
bm_pages page_cnt = div_round_up (bitmap_buf_size page_cnt) pgsize

-- `init_pool` on whole pages inside the address space gives a valid pool of all pages but those of the
-- map, every one of them free, which together with the map fills just the memory it was given.
pub init_pool-IsPool :
    (base page_cnt : ℕ) (words : List ℕ)
    → 0 < base
    → base % pgsize ≡ 0
    → base + pgsize * page_cnt < 2 ^ 32
    → bm_pages page_cnt ≤ page_cnt
    → length words ≡ elem_cnt (page_cnt - bm_pages page_cnt)
    → (q : Pool) × (init_pool base page_cnt words ≡ runs q)
      × IsPool q
      × IsClear (page_cnt - bm_pages page_cnt) q.used_map
      × (q.base + pgsize * q.used_map.bit_cnt ≡ base + pgsize * page_cnt)
unfolding init_pool
init_pool-IsPool base page_cnt words pos aligned fits room size =
    let (m, run, c) =
      create_in_buf-IsClear (page_cnt - bm_pages page_cnt) (bm_pages page_cnt * pgsize) words
        (omega arith) size (omega arith) in
    let e : add_size base (bm_pages page_cnt * pgsize) ≡ base + bm_pages page_cnt * pgsize =
      omega arith in
    (
      record { used_map = m; base = base + bm_pages page_cnt * pgsize },
      rw (le→leb (bm_pages page_cnt) page_cnt room, run, e) refl,
      record {
        map = c.valid;
        aligned = omega arith;
        mapped = omega arith;
        fits = omega (arith, c.size);
      },
      c,
      omega (arith, c.size),
    )
