-- ===== src/BinarySearch/Found.antt =====
-- What `binary_search` finds: linuxpintos/src/lib/stdlib.c.
use tddb68_collab.Base.{
  ℕ, zero, suc, ◌+◌, ◌-◌, ◌/◌, ◌≤◌, ◌<◌, ◌≡◌, ◌≢◌, ◌⊎◌, inl, inr, refl, true, false, Option, none,
  some, ltb, arith, Bool-cases,
}
use tddb68_collab.Base.Int.{ℤ, pos, ltb_ℤ}
use tddb68_collab.BinarySearch.{search_between, binary_search}

-- The key is not below elements that come before one that it is not below, and not above elements that come
-- after one that it is not above.
pub record IsOrdered (compare : ℕ → ℤ) (cnt : ℕ) : Type 0 where
  pub after_less :
      (i j : ℕ)
      → i ≤ j
      → j < cnt
      → ltb_ℤ (compare i) (pos 0) ≡ true
      → ltb_ℤ (compare j) (pos 0) ≡ true
  pub before_greater :
      (i j : ℕ)
      → i ≤ j
      → j < cnt
      → ltb_ℤ (pos 0) (compare j) ≡ true
      → ltb_ℤ (pos 0) (compare i) ≡ true

-- An element in the range that is equal to the key, or none in it.
abbrev pub Found : (compare : ℕ → ℤ) → (first last : ℕ) → Option ℕ → Type 0
Found compare first last found =
    ((i : ℕ) × (found ≡ some i) × (first ≤ i) × (i < last) × (compare i ≡ pos 0))
    ⊎ ((found ≡ none) × ((i : ℕ) → first ≤ i → i < last → compare i ≢ pos 0))

less_ne : (c : ℤ) → ltb_ℤ c (pos 0) ≡ true → c ≢ pos 0
less_ne c h e = absurd (ground arith)

greater_ne : (c : ℤ) → ltb_ℤ (pos 0) c ≡ true → c ≢ pos 0
greater_ne c h e = absurd (ground arith)

neither_zero : (c : ℤ) → ltb_ℤ c (pos 0) ≡ false → ltb_ℤ (pos 0) c ≡ false → c ≡ pos 0
neither_zero c h k = ground arith

-- A range that has all elements equal to the key may stand for a larger one.
widen :
    (compare : ℕ → ℤ) (first last first' last' : ℕ) (found : Option ℕ)
    → first ≤ first'
    → last' ≤ last
    → ((i : ℕ) → first ≤ i → i < first' → compare i ≢ pos 0)
    → ((i : ℕ) → last' ≤ i → i < last → compare i ≢ pos 0)
    → Found compare first' last' found
    → Found compare first last found
widen compare first last first' last' found lo hi left right (inl (i, e, a, b, zero_at)) =
    inl (i, e, omega (arith, lo, a), omega (arith, hi, b), zero_at)
widen compare first last first' last' found lo hi left right (inr (e, none_of)) = inr (
  e,
  λ i a b. elim (Bool-cases (ltb i first')) [
    | inl before ↦ left i a (ground (arith, before))
    | inr not_before ↦ elim (Bool-cases (ltb i last')) [
      | inl within ↦ none_of i (ground (arith, not_before)) (ground (arith, within))
      | inr after ↦ right i (ground (arith, after)) b
    ]
  ],
)

search_between_lem :
    (compare : ℕ → ℤ) (cnt fuel first last : ℕ)
    → IsOrdered compare cnt
    → last ≤ cnt
    → last - first ≤ fuel
    → (found : Option ℕ) × (search_between compare fuel first last ≡ some found)
      × Found compare first last found
unfolding search_between
search_between_lem compare cnt zero first last o le few =
    (none, ground arith, inr (refl, λ i a b. absurd (omega (arith, few, a, b))))
search_between_lem compare cnt (suc fuel) first last o le few = elim (Bool-cases (ltb first last)) [
  | inr done ↦ (none, rw (done) refl, inr (refl, λ i a b. absurd (ground arith)))
  | inl more ↦
      let middle = first + (last - first) / 2 in
      let inside : (first ≤ middle) × (middle < last) = (omega arith, ground arith) in
      elim (Bool-cases (ltb_ℤ (compare middle) (pos 0))) [
        | inl less ↦
            let (found, run, there) =
              search_between_lem compare cnt fuel first middle o (omega (arith, le, inside.1))
                (omega (arith, few, inside.0, inside.1)) in
            (
              found,
              rw (more, less) run,
              widen compare first last first middle found (omega arith) (omega (arith, inside.1))
                  (λ i a b. absurd (omega (arith, a, b)))
                  (λ i a b.
                    less_ne (compare i) (o.after_less middle i a (omega (arith, b, le)) less))
                  there,
            )
        | inr not_less ↦ elim (Bool-cases (ltb_ℤ (pos 0) (compare middle))) [
          | inl greater ↦
              let (found, run, there) =
                search_between_lem compare cnt fuel (middle + 1) last o le
                  (omega (arith, few, inside.0, inside.1)) in
              (
                found,
                rw (more, not_less, greater) run,
                widen compare first last (middle + 1) last found (omega (arith, inside.0))
                    (omega arith)
                    (λ i a b. greater_ne (compare i) (
                      o.before_greater i middle (omega (arith, b)) (omega (arith, inside.1, le))
                        greater))
                    (λ i a b. absurd (omega (arith, a, b))) there,
              )
          | inr equal ↦ (
            some middle,
            rw (more, not_less, equal) refl,
            inl (middle, refl, inside.0, inside.1, neither_zero (compare middle) not_less equal),
          )
        ]
      ]
]

-- In an array that is in order `binary_search` ends, and returns an element that is equal to the key if there is
-- one, and null if not.
pub binary_search-Found :
    (compare : ℕ → ℤ) (cnt : ℕ)
    → IsOrdered compare cnt
    → (found : Option ℕ) × (binary_search compare cnt ≡ some found) × Found compare 0 cnt found
unfolding binary_search
binary_search-Found compare cnt o =
    search_between_lem compare cnt cnt 0 cnt o (omega arith) (omega arith)
