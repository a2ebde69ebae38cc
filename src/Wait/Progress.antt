-- ===== src/Wait/Progress.antt =====
-- A parent that is blocked in `process_wait` does not miss its child: linuxpintos/src/userprog/process.c.
use tddb68_collab.Base.{ℕ, ◌^◌, ◌<◌, ◌≡◌, ◌≢◌, refl, ap, true, Option, some, arith}
use tddb68_collab.Base.Int.{ℤ}
use tddb68_collab.Synch.{sema_down, sema_up}
use tddb68_collab.Wait.{
  Child, unborn, running, entered, raising, done, blocked, woken, passed, returned, after_down,
  unblock, after_check,
}
use tddb68_collab.Wait.System.{
  System, Step, retry, look_again, push, check, raise, first, Runs, here, next,
}
use tddb68_collab.Wait.Invariant.{is_listed, Inv, Step-Inv, Runs-Inv}

-- The wait for `t` can end, with the child's status.
abbrev pub CanReturn : (self : ℕ) (status : ℕ → ℤ) → System → ℕ → Type 0
CanReturn self status s t =
    (s' : System) × Runs self status s s' × (s'.parent ≡ returned t (some (status t)))

module _ {self : ℕ} {status : ℕ → ℤ} {t : ℕ} where
  before_first :
      {s s' : System}
      → Step self status s s'
      → CanReturn self status s' t
      → CanReturn self status s t
  before_first step (u, runs, at) = (u, prepend step runs, at)
    where
      prepend :
          {s s' u : System} → Step self status s s' → Runs self status s' u → Runs self status s u
      prepend step here = next here step
      prepend step (next r later) = next (prepend step r) later

module _ {self : ℕ} {status : ℕ → ℤ} {t : ℕ} {v : Option ℤ} where
  from_passed :
      (s : System)
      → Inv self status s
      → s.parent ≡ passed t v
      → is_listed (s.child t) ≡ true
      → CanReturn self status s t
  from_passed s w at listed =
      (_, next here (look_again t v at), ap (λ r. returned t r.1) (w.found t v listed))

  from_woken :
      (s : System)
      → Inv self status s
      → s.parent ≡ woken t v
      → is_listed (s.child t) ≡ true
      → 0 < s.rel.p_sema.value
      → CanReturn self status s t
  unfolding sema_down after_down
  from_woken s w at listed positive =
      let step = retry t v _ _ at refl in
      before_first step (from_passed _ (Step-Inv step w) (ground arith) listed)

  from_raising :
      (s : System)
      → Inv self status s
      → s.parent ≡ blocked t v
      → s.child t ≡ raising
      → CanReturn self status s t
  unfolding sema_up unblock
  from_raising s w at c =
      let step = raise t _ _ c refl in
      before_first step (
        from_woken _ (Step-Inv step w) (ground (arith, w.queue)) (ground arith)
          (ground (arith, w.queue, w.closed)))

  from_entered :
      (s : System)
      → Inv self status s
      → s.parent ≡ blocked t v
      → s.child t ≡ entered
      → CanReturn self status s t
  unfolding after_check
  from_entered s w at c =
      let step = check t c in
      before_first step (from_raising _ (Step-Inv step w) at (ground (arith, w.awaited t)))

  from_running :
      (s : System)
      → Inv self status s
      → s.parent ≡ blocked t v
      → s.child t ≡ running
      → CanReturn self status s t
  from_running s w at c =
      let step = push t c in before_first step (from_entered _ (Step-Inv step w) at (ground arith))

  from_blocked :
      (s : System) (c : Child)
      → s.child t ≡ c
      → Inv self status s
      → s.ups < 2 ^ 32
      → s.parent ≡ blocked t v
      → CanReturn self status s t
  from_blocked s unborn c w small at = absurd (ground (arith, w.awaited t))
  from_blocked s running c w small at = from_running s w at c
  from_blocked s entered c w small at = from_entered s w at c
  from_blocked s raising c w small at = from_raising s w at c
  from_blocked s done c w small at = absurd (ground (arith, w.raised t small, w.closed))

-- However parent and children ran, with fewer than 2^32 calls of `sema_up`: while the parent is
-- blocked in `process_wait` for a child, this child has not passed its `sema_up`, and there is a way to go on
-- in which `process_wait` returns the child's exit status.
pub no_lost_child :
    {self : ℕ} {status : ℕ → ℤ} (junk : ℕ) {s : System} {t : ℕ} {v : Option ℤ}
    → Runs self status (first junk) s
    → s.ups < 2 ^ 32
    → s.parent ≡ blocked t v
    → (s.child t ≢ done) × CanReturn self status s t
no_lost_child junk {s} {t} runs small at =
    let w = Runs-Inv junk runs in
    (
      λ c. absurd (ground (arith, w.raised t small, w.closed)),
      from_blocked s (s.child t) refl w small at,
    )
