-- ===== src/Palloc/Keeping.antt =====
-- Giving out pages keeps the pools of linuxpintos/src/threads/palloc.c valid.
use tddb68_collab.Base.{ℕ, ◌≡◌, Bool, true, false, not}
use tddb68_collab.Bitmap.Bits.{holds, Wrote}
use tddb68_collab.Bitmap.Bits
use tddb68_collab.Palloc.{Pages, Flags, pool_of}
use tddb68_collab.Palloc.Get.{IsValid, Given}

Given-IsPools :
    (p p' : Pages) (user : Bool)
    → IsValid p
    → Bits.IsValid (pool_of p' user).used_map
    → (pool_of p' user).used_map.bit_cnt ≡ (pool_of p user).used_map.bit_cnt
    → (pool_of p' user).base ≡ (pool_of p user).base
    → pool_of p' (not user) ≡ pool_of p (not user)
    → IsValid p'
Given-IsPools p p' true v m size base other = record {
  kernel = rw other v.kernel;
  user = record {
    map = m;
    aligned = rw base v.user.aligned;
    mapped = rw base v.user.mapped;
    fits = rw (size, base) v.user.fits;
  };
  apart = rw (base, other) v.apart;
}
Given-IsPools p p' false v m size base other = record {
  kernel = record {
    map = m;
    aligned = rw base v.kernel.aligned;
    mapped = rw base v.kernel.mapped;
    fits = rw (size, base) v.kernel.fits;
  };
  user = rw other v.user;
  apart = rw (base, size, other) v.apart;
}

-- Giving out pages keeps the pools valid.
pub Given-IsValid :
    {p p' : Pages} {flags : Flags} {page_cnt pages : ℕ}
    → IsValid p
    → Given p flags page_cnt pages p'
    → IsValid p'
Given-IsValid {p} {p'} {flags} v g =
    Given-IsPools p p' flags.pal_user v g.taken.valid g.taken.size g.same_base g.other_pool
