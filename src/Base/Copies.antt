-- ===== src/Base/Copies.antt =====
-- How often a number is in a list.
use Prim.Native.Nat.{ℕ, suc, ◌+◌, ◌<◌}
use mathlib.Core.Path.{◌≡◌, ap}
use mathlib.Core.Logic.{inl, inr}
use mathlib.Core.Bool.{false}
use mathlib.Core.List.{List, [], ◌∷◌, ◌++◌}
use native.Mathlib.Omega.{arith}
use tddb68_collab.Base.Tests.{◌==◌, if◌then◌else◌, Bool-cases}

unfoldable pub copies : List ℕ → ℕ → ℕ
copies [] t = 0
copies (c ∷ cs) t = let n = copies cs t in if c == t then suc n else n

pub copies-++ : (cs ds : List ℕ) (t : ℕ) → copies (cs ++ ds) t ≡ copies cs t + copies ds t
unfolding copies
copies-++ [] ds t = omega arith
copies-++ (c ∷ cs) ds t = ground (arith, copies-++ cs ds t)

pub copies-append :
    (cs : List ℕ) (c t : ℕ) → copies (cs ++ (c ∷ [])) t ≡ copies cs t + (if c == t then 1 else 0)
unfolding copies
copies-append [] c t = ground arith
copies-append (x ∷ cs) c t = ground (arith, copies-append cs c t)

-- An address in a list is none that is not in it.
pub copies-ne : (es : List ℕ) (x y : ℕ) → copies es y ≡ 0 → 0 < copies es x → (x == y) ≡ false
copies-ne es x y none i = elim (Bool-cases (x == y)) [
  | inl e ↦ (let same : x ≡ y = ground (arith, e) in absurd (ground (arith, ap (copies es) same)))
  | inr ne ↦ ne
]
