-- ===== src/Hash/Counting.antt =====
-- Searching and unlinking in a bucket: linuxpintos/src/lib/kernel/hash.c.
use tddb68_collab.Base.{
  ℕ, suc, ◌+◌, ◌<◌, ◌≡◌, inl, inr, sym, subst, Bool, true, false, none, some, List, [], ◌∷◌, ◌==◌,
  if◌then◌else◌, arith, Bool-cases, length,
}
use tddb68_collab.Base.Copies.{copies}
use tddb68_collab.Hash.{first_in, unlink}

pub copies-unlink :
    (b : List ℕ) (e x : ℕ)
    → 0 < copies b e
    → copies (unlink b e) x + (if e == x then 1 else 0) ≡ copies b x
unfolding copies unlink
copies-unlink [] e x h = absurd (omega arith)
copies-unlink (c ∷ b) e x h = ground (arith, copies-unlink b e x)

pub length-unlink : (b : List ℕ) (e : ℕ) → 0 < copies b e → suc (length (unlink b e)) ≡ length b
unfolding copies unlink
length-unlink [] e h = absurd (omega arith)
length-unlink (c ∷ b) e h = ground (arith, length-unlink b e)

pub first_in-some :
    (b : List ℕ) (test : ℕ → Bool) (x : ℕ)
    → first_in b test ≡ some x
    → (0 < copies b x) × (test x ≡ true)
unfolding copies first_in
first_in-some [] test x h = cc
first_in-some (c ∷ b) test x h = elim (Bool-cases (test c)) [
  | inl t ↦
      (let same : c ≡ x = ground (arith, t, h) in
        (ground (arith, same), subst (λ u. test u ≡ true) same t))
  | inr t ↦
      (let found : first_in b test ≡ some x = ground (arith, t, h) in
        let (here, passed) = first_in-some b test x found in (ground (arith, here), passed))
]

pub first_in-none :
    (b : List ℕ) (test : ℕ → Bool)
    → first_in b test ≡ none
    → (y : ℕ) → 0 < copies b y
    → test y ≡ false
unfolding copies first_in
first_in-none [] test h y here = absurd (omega arith)
first_in-none (c ∷ b) test h y here = elim (Bool-cases (test c)) [
  | inl t ↦ ground (arith, t, h)
  | inr t ↦
      (let rest : first_in b test ≡ none = ground (arith, t, h) in
        elim (Bool-cases (c == y)) [
          | inl q ↦ (let same : c ≡ y = ground (arith, q) in rw (sym same) t)
          | inr q ↦ first_in-none b test rest y (ground (arith, here, q))
        ])
]
