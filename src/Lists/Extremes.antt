-- ===== src/Lists/Extremes.antt =====
-- The greatest and the least element of a list: linuxpintos/src/lib/kernel/list.c.
use tddb68_collab.Base.{
  ℕ, zero, suc, ◌^◌, ◌<◌, ◌≡◌, ◌⊎◌, refl, ap, subst, Bool, true, false, List, [], ◌∷◌, length, ◌==◌,
  if◌then◌else◌, arith, Bool-cases, inl, inr,
}
use mathlib.Core.Path.{fun_ext}
use tddb68_collab.Base.Copies.{copies}
use tddb68_collab.Base.Kernel.{runs, ◌>>=◌}
use tddb68_collab.Lists.{
  Heap, Ends, list_begin, list_end, list_next, rounds, max_from, list_max, min_from, list_min,
}
use tddb68_collab.Lists.Chain.{IsList}
use tddb68_collab.Lists.Remove.{list_empty_lem}
use tddb68_collab.Lists.Loops.{Walk, IsList-Walk, begin-first_or, greatest, max_from_lem}

-- A strict order.
pub record Strict (less : ℕ → ℕ → Bool) : Type 0 where
  pub asym : (a b : ℕ) → less a b ≡ true → less b a ≡ false
  pub trans : (a b c : ℕ) → less a b ≡ true → less b c ≡ true → less a c ≡ true

-- `m` is in the list, and less than no element of it.
pub record IsGreatest (less : ℕ → ℕ → Bool) (es : List ℕ) (m : ℕ) : Type 0 where
  pub is_in : 0 < copies es m
  pub none_above : (x : ℕ) → 0 < copies es x → less m x ≡ false

-- `g` is `max`, or above it.
abbrev Reaches : (ℕ → ℕ → Bool) → (max g : ℕ) → Type 0
Reaches less max g = (max ≡ g) ⊎ (less max g ≡ true)

irreflexive : (less : ℕ → ℕ → Bool) → Strict less → (a : ℕ) → less a a ≡ false
irreflexive less o a = elim (Bool-cases (less a a)) [ inl e ↦ o.asym a a e | inr e ↦ e ]

not_above_start :
    (less : ℕ → ℕ → Bool) → Strict less → (max g : ℕ) → Reaches less max g → less g max ≡ false
not_above_start less o max g (inl e) = subst (λ z. less z max ≡ false) e (irreflexive less o max)
not_above_start less o max g (inr up) = o.asym max g up

not_above_other :
    (less : ℕ → ℕ → Bool)
    → Strict less
    → (max g y : ℕ) → Reaches less max g
    → less max y ≡ false
    → less g y ≡ false
not_above_other less o max g y (inl e) stay = subst (λ z. less z y ≡ false) e stay
not_above_other less o max g y (inr up) stay = elim (Bool-cases (less g y)) [
  | inl e ↦ absurd (ground (arith, stay, o.trans max g y up e))
  | inr e ↦ e
]

further_up :
    (less : ℕ → ℕ → Bool)
    → Strict less
    → (max y g : ℕ) → less max y ≡ true
    → Reaches less y g
    → Reaches less max g
further_up less o max y g up (inl e) = inr (subst (λ z. less max z ≡ true) e up)
further_up less o max y g up (inr further) = inr (o.trans max y g up further)

greatest_lem :
    (less : ℕ → ℕ → Bool) (max : ℕ) (ys : List ℕ)
    → Strict less
    → IsGreatest less (max ∷ ys) (greatest less max ys) × Reaches less max (greatest less max ys)
unfolding copies
greatest_lem less max [] o =
    (record { is_in = ground arith; none_above = λ x i. one x (ground (arith, i)) }, inl refl)
  where
    one : (x : ℕ) → max ≡ x → less max x ≡ false
    one x e = subst (λ z. less max z ≡ false) e (irreflexive less o max)
greatest_lem less max (y ∷ ys) o = elim (Bool-cases (less max y)) [
  | inl up ↦
      let (v, r) = greatest_lem less y ys o in
      let g = greatest less y ys in
      let r' = further_up less o max y g up r in
      let start = not_above_start less o max g r' in
      rw (up) (
        record {
          is_in = ground (arith, v.is_in);
          none_above = λ x i. elim (Bool-cases (max == x)) [
            | inl e ↦
                (let same : max ≡ x = ground (arith, e) in subst (λ z. less g z ≡ false) same start)
            | inr ne ↦ v.none_above x (ground (arith, i, ne))
          ];
        },
        r',
      )
  | inr stay ↦
      let (v, r) = greatest_lem less max ys o in
      let g = greatest less max ys in
      let other = not_above_other less o max g y r stay in
      rw (stay) (
        record {
          is_in = ground (arith, v.is_in);
          none_above = λ x i. elim (Bool-cases (y == x)) [
            | inl e ↦
                (let same : y ≡ x = ground (arith, e) in subst (λ z. less g z ≡ false) same other)
            | inr ne ↦ v.none_above x (ground (arith, i, ne))
          ];
        },
        r,
      )
]

-- `list_max` of a list that is not empty returns an element that is less than no element.
pub list_max-IsGreatest :
    (less : ℕ → ℕ → Bool) (h : Heap) (l : Ends) (e : ℕ) (es : List ℕ)
    → Strict less
    → IsList h l (e ∷ es)
    → length (e ∷ es) < 2 ^ 32
    → (m : ℕ) × (list_max less h l ≡ runs m) × IsGreatest less (e ∷ es) m
unfolding list_max Walk
list_max-IsGreatest less h l e es o v few =
    let begin = begin-first_or h l (e ∷ es) v in
    let some_left = list_empty_lem h l (e ∷ es) v in
    let (next, ne, w) = IsList-Walk h l [] (e ∷ es) v in
    (
      greatest less e es,
      rw (some_left, begin, next) (max_from_lem less h l es rounds e (omega (arith, few)) w),
      (greatest_lem less e es o).0,
    )

min_from-max_from :
    (less : ℕ → ℕ → Bool) (h : Heap) (tail fuel m e : ℕ)
    → min_from less h tail fuel m e ≡ max_from (λ a b. less b a) h tail fuel m e
unfolding min_from max_from
min_from-max_from less h tail zero m e = refl
min_from-max_from less h tail (suc fuel) m e =
    ap (λ rest. if e == tail then runs m else (list_next h e >>= rest))
      (fun_ext (λ e'. min_from-max_from less h tail fuel (if less e m then e else m) e'))

-- `list_min` is `list_max` in the opposite order.
pub list_min-list_max :
    (less : ℕ → ℕ → Bool) (h : Heap) (l : Ends) → list_min less h l ≡ list_max (λ a b. less b a) h l
unfolding list_min list_max
list_min-list_max less h l =
    ap
      (λ loop.
        if list_begin h l == list_end l
        then runs (list_begin h l)
        else (list_next h (list_begin h l) >>= loop))
      (fun_ext (min_from-max_from less h (list_end l) rounds (list_begin h l)))
