-- ===== src/Palloc/Disjoint.antt =====
-- No page is handed out twice: linuxpintos/src/threads/palloc.c.
use tddb68_collab.Base.{
  ℕ, ◌+◌, ◌*◌, ◌≤◌, ◌<◌, ◌≡◌, ◌≢◌, ◌⊎◌, inl, inr, sym, ◌∙◌, Bool, true, false, arith, max,
}
use native.Mathlib.Decide.{dec_le}
use tddb68_collab.Base.Kernel.{runs}
use tddb68_collab.Vaddr.{pgsize}
use tddb68_collab.Bitmap.{Bitmap}
use tddb68_collab.Bitmap.Range.{IsGroup}
use tddb68_collab.Palloc.{Pages, Flags, null, pool_of, palloc_get_multiple}
use tddb68_collab.Palloc.Keeping.{Given-IsValid}
use tddb68_collab.Palloc.Get.{IsValid, get_multiple-Given}

-- The addresses from `a` on, `m` pages, and from `b` on, `n` pages, have none in common.
abbrev pub Apart : (a m b n : ℕ) → Type 0
Apart a m b n = (a + pgsize * m ≤ b) ⊎ (b + pgsize * n ≤ a)

-- Two groups of one pool, the second free where the first is in use.
groups-Apart :
    (map : Bitmap) (base i m j n : ℕ)
    → 0 < m
    → 0 < n
    → IsGroup map i m true
    → IsGroup map j n false
    → Apart (base + pgsize * i) m (base + pgsize * j) n
groups-Apart map base i m j n pos_m pos_n used free = elim (dec_le (i + m) j) [
  | yes below ↦ inl (omega arith)
  | no not_below ↦ elim (dec_le (j + n) i) [
    | yes above ↦ inr (omega arith)
    | no not_above ↦
        let k : ℕ = max i j in
        let clash : true ≡ false =
          sym (used k (omega arith) (omega arith)) ∙ free k (omega arith) (omega arith) in
        cc
  ]
]

pools-Apart :
    (p : Pages) (u w : Bool) (i m j n : ℕ)
    → IsValid p
    → 0 < m
    → 0 < n
    → i + m ≤ (pool_of p u).used_map.bit_cnt
    → j + n ≤ (pool_of p w).used_map.bit_cnt
    → IsGroup (pool_of p u).used_map i m true
    → IsGroup (pool_of p w).used_map j n false
    → Apart ((pool_of p u).base + pgsize * i) m ((pool_of p w).base + pgsize * j) n
pools-Apart p true true i m j n v pm pn hi hj used free =
    groups-Apart p.user_pool.used_map _ i m j n pm pn used free
pools-Apart p true false i m j n v pm pn hi hj used free = inr (omega (arith, v.apart))
pools-Apart p false true i m j n v pm pn hi hj used free = inl (omega (arith, v.apart))
pools-Apart p false false i m j n v pm pn hi hj used free =
    groups-Apart p.kernel_pool.used_map _ i m j n pm pn used free

-- Two calls of `palloc_get_multiple` in a row on valid pools, for counts that are not 0, that both succeed give out pages that do not overlap,
-- whichever pools they take them from.
pub get-get_Apart :
    {p p' p'' : Pages} (f g : Flags) (m n : ℕ) {a b : ℕ}
    → IsValid p
    → 0 < m
    → 0 < n
    → palloc_get_multiple p f m ≡ runs (a, p')
    → a ≢ null
    → palloc_get_multiple p' g n ≡ runs (b, p'')
    → b ≢ null
    → Apart a m b n
get-get_Apart {p} {p'} {p''} f g m n {a} {b} v pm pn e ae h bh =
    let first = get_multiple-Given {flags = f} {page_cnt = m} v pm e ae in
    let v' = Given-IsValid v first in
    let second = get_multiple-Given {flags = g} {page_cnt = n} v' pn h bh in
    rw (first.address, ← first.same_base, second.address)
      (pools-Apart p' f.pal_user g.pal_user first.index m second.index n v' pm pn
        (rw first.taken.size first.inside) second.inside
        (λ j lo hi. ground (arith, first.taken.bits j)) second.were_free)
