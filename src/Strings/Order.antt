-- ===== src/Strings/Order.antt =====
-- The order of strings, and the last occurrence of a character: linuxpintos/src/lib/string.c.
use tddb68_collab.Base.{
  ℕ, zero, suc, ◌+◌, ◌%◌, ◌^◌, ◌≤◌, ◌<◌, ◌≡◌, ◌≢◌, ◌⊎◌, inl, inr, refl, sym, ap, ◌∙◌, false, Option,
  none, some, ◌==◌, if◌then◌else◌, arith, Bool-cases,
}
use tddb68_collab.Base.Int.{ℤ, pos}
use tddb68_collab.Base.Kernel.{runs}
use tddb68_collab.Strings.{Memory, room, difference, cmp_from, strcmp, rchr_from, strrchr}
use tddb68_collab.Strings.Blocks.{Agree, Differ, Agree-suc, shift, at_zero, Differs-suc}
use tddb68_collab.Strings.Search.{IsString, IsPlaced, IsString-head, IsString-tail, IsString-end}

-- `order` is the order of the strings of lengths `na` and `nb` at `a` and `b`.
abbrev pub Order : Memory → (a na b nb : ℕ) → ℤ → Type 0
Order m a na b nb order =
    ((order ≡ pos 0) × (na ≡ nb) × Agree m a b na)
    ⊎ ((i : ℕ) × (i ≤ na) × (i ≤ nb) × Differ m a b i order)

Differ-here :
    (m : Memory) (a b : ℕ) → (m a == m b) ≡ false → Differ m a b 0 (difference (m a) (m b))
Differ-here m a b ne = (λ i h. absurd (omega (arith, h)), ground (arith, at_zero m a, at_zero m b))

Order-suc :
    (m : Memory) {a b na nb : ℕ} {order : ℤ}
    → m a ≡ m b
    → Order m (a + 1) na (b + 1) nb order
    → Order m a (suc na) b (suc nb) order
Order-suc m {a} {b} {na} {nb} e (inl (zero_order, same, agree)) =
    inl (zero_order, ap suc same, Agree-suc m a b na e agree)
Order-suc m {a} {b} {na} {nb} e (inr (i, ha, hb, (agree, order))) = inr (
  suc i,
  omega (arith, ha),
  omega (arith, hb),
  (Agree-suc m a b i e agree, ground (arith, order, shift m a i, shift m b i)),
)

-- `cmp_from` on two strings.
abbrev Compares : Memory → (fuel a na b nb : ℕ) → Type 0
Compares m fuel a na b nb =
    (order : ℤ) × (cmp_from m fuel a b ≡ runs order) × Order m a na b nb order

stops_here :
    (m : Memory) (fuel a na b nb : ℕ) → (m a == m b) ≡ false → Compares m (suc fuel) a na b nb
unfolding cmp_from
stops_here m fuel a na b nb ne = (
  difference (m a) (m b),
  ground (arith, ne),
  inr (0, omega arith, omega arith, Differ-here m a b ne),
)

cmp_from_lem :
    {m : Memory} (na nb fuel a b : ℕ)
    → IsString m a na
    → IsString m b nb
    → na < fuel
    → Compares m fuel a na b nb
unfolding cmp_from
cmp_from_lem na nb zero a b v w h = absurd (omega (arith, h))
cmp_from_lem zero zero (suc fuel) a b v w h = (
  pos 0,
  ground (arith, IsString-end v, IsString-end w),
  inl (refl, refl, λ i less. absurd (omega (arith, less))),
)
cmp_from_lem {m} zero (suc nb) (suc fuel) a b v w h =
    stops_here m fuel a 0 b (suc nb) (ground (arith, IsString-end v, IsString-head nb w))
cmp_from_lem {m} (suc na) zero (suc fuel) a b v w h =
    stops_here m fuel a (suc na) b 0 (ground (arith, IsString-end w, IsString-head na v))
cmp_from_lem {m} (suc na) (suc nb) (suc fuel) a b v w h = elim (Bool-cases (m a == m b)) [
  | inl e ↦
      let (order, run, ordered) =
        cmp_from_lem na nb fuel (a + 1) (b + 1) (IsString-tail v) (IsString-tail w)
          (omega (arith, h)) in
      let same : m a ≡ m b = ground (arith, e) in
      (order, ground (arith, e, IsString-head na v, run), Order-suc m same ordered)
  | inr ne ↦ stops_here m fuel a (suc na) b (suc nb) ne
]

-- `strcmp` returns 0 if the strings are equal, and otherwise 1 or -1 by their first bytes that differ.
pub strcmp_lem :
    {m : Memory} {a na b nb : ℕ}
    → IsPlaced m a na
    → IsPlaced m b nb
    → (order : ℤ) × (strcmp m a b ≡ runs order) × Order m a na b nb order
unfolding strcmp
strcmp_lem {m} {a} {na} {b} {nb} v w =
    let start_a : (a == 0) ≡ false = ground (arith, v.not_null) in
    let start_b : (b == 0) ≡ false = ground (arith, w.not_null) in
    rw (start_a, start_b)
      (cmp_from_lem na nb (room a) a b v.string w.string (omega (arith, v.below)))

-- `found` is the last of the `n` addresses from `s` on with byte `c`, or `p` if there is none.
abbrev pub Last : Memory → (n s c : ℕ) → (p found : Option ℕ) → Type 0
Last m n s c p found =
    ((found ≡ p) × ((i : ℕ) → i < n → m (s + i) ≢ c))
    ⊎ ((i : ℕ) × (i < n)
        × (found ≡ some (s + i))
        × (m (s + i) ≡ c)
        × ((j : ℕ) → i < j → j < n → m (s + j) ≢ c))

later_none :
    (m : Memory) (n s c i : ℕ)
    → ((j : ℕ) → i < suc j → j < n → m (s + 1 + j) ≢ c)
    → (j : ℕ) → i < j
    → j < suc n
    → m (s + j) ≢ c
later_none m n s c i none_of zero after below e = absurd (omega (arith, after))
later_none m n s c i none_of (suc j) after below e =
    none_of j after (omega (arith, below)) (shift m s j ∙ e)

Last-suc :
    (m : Memory) (n s c : ℕ) (p found : Option ℕ)
    → Last m n (s + 1) c (if m s == c then some s else p) found
    → Last m (suc n) s c p found
Last-suc m n s c p found (inr (i, less, e, at, none_of)) =
    let there : s + 1 + i ≡ s + suc i = omega arith in
    inr (
      suc i,
      omega (arith, less),
      e ∙ ap some there,
      sym (shift m s i) ∙ at,
      later_none m n s c (suc i) (λ j after. none_of j (omega (arith, after))),
    )
Last-suc m n s c p found (inl (e, none_of)) = elim (Bool-cases (m s == c)) [
  | inl here ↦
      let start : s ≡ s + 0 = omega arith in
      let at : m s ≡ c = ground (arith, here) in
      inr (
        0,
        omega arith,
        e ∙ ground (arith, here, ap some start),
        at_zero m s ∙ at,
        later_none m n s c 0 (λ j after. none_of j),
      )
  | inr ne ↦ inl (e ∙ ground (arith, ne), Differs-suc m s c ne n none_of)
]

rchr_from_lem :
    {m : Memory} (n fuel s c : ℕ) (p : Option ℕ)
    → IsString m s n
    → n < fuel
    → (found : Option ℕ) × (rchr_from m fuel s c p ≡ runs found) × Last m n s c p found
unfolding rchr_from
rchr_from_lem n zero s c p v h = absurd (omega (arith, h))
rchr_from_lem zero (suc fuel) s c p v h =
    (p, ground (arith, IsString-end v), inl (refl, λ i less. absurd (omega (arith, less))))
rchr_from_lem {m} (suc n) (suc fuel) s c p v h =
    let (found, run, last) =
      rchr_from_lem n fuel (s + 1) c (if m s == c then some s else p) (IsString-tail v)
        (omega (arith, h)) in
    (found, ground (arith, IsString-head n v, run), Last-suc m n s c p found last)

-- `strrchr` finds the last character of the string that is the lowest byte of `c`, if there is one; the
-- terminator is not among the characters.
pub strrchr_lem :
    {m : Memory} {s n : ℕ} (c : ℕ)
    → IsPlaced m s n
    → (found : Option ℕ) × (strrchr m s c ≡ runs found) × Last m n s (c % 2 ^ 8) none found
unfolding strrchr
strrchr_lem {m} {s} {n} c v =
    rchr_from_lem n (room s) s (c % 2 ^ 8) none v.string (omega (arith, v.below))
