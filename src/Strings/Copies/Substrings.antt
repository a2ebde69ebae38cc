-- ===== src/Strings/Copies/Substrings.antt =====
-- The search for a string in a string: `strstr` of linuxpintos/src/lib/string.c.
use tddb68_collab.Base.{
  ℕ, zero, suc, ◌+◌, ◌-◌, ◌≤◌, ◌<◌, ◌≡◌, ◌≢◌, ◌⊎◌, inl, inr, refl, ap, true, false, Option, none,
  some, ◌==◌, subst, leb, arith, Bool-cases,
}
use tddb68_collab.Base.Int.{ℤ}
use tddb68_collab.Base.Kernel.{runs}
use tddb68_collab.Strings.{Memory, memcmp}
use tddb68_collab.Strings.Blocks.{Agree, memcmp_lem}
use tddb68_collab.Strings.Search.{IsPlaced, strlen_lem}
use tddb68_collab.Strings.Copies.{is_zero, str_from, strstr}

-- `found` is the first address of `left` addresses from `haystack + i` on where the needle's bytes are.
abbrev FirstFrom : Memory → (left haystack needle needle_len i : ℕ) → Option ℕ → Type 0
FirstFrom m left haystack needle needle_len i found =
    ((found ≡ none) × ((j : ℕ) → i ≤ j → j < i + left → ¬ Agree m (haystack + j) needle needle_len))
    ⊎ ((k : ℕ) × (i ≤ k)
        × (k < i + left)
        × (found ≡ some (haystack + k))
        × Agree m (haystack + k) needle needle_len
        × ((j : ℕ) → i ≤ j → j < k → ¬ Agree m (haystack + j) needle needle_len))

module _ (m : Memory) (haystack needle needle_len : ℕ) (h : haystack ≢ 0) (nn : needle ≢ 0) where
  compare_at :
      (i : ℕ)
      → (order : ℤ) × (memcmp m (haystack + i) needle needle_len ≡ runs order)
        × (((is_zero order ≡ true) × Agree m (haystack + i) needle needle_len)
            ⊎ ((is_zero order ≡ false) × (¬ Agree m (haystack + i) needle needle_len)))
  compare_at i =
      let (order, run, cases) =
        memcmp_lem m (haystack + i) needle needle_len (ground (arith, h)) (ground (arith, nn)) in
      (
        order,
        run,
        elim cases [
          | inl (e, agree) ↦ inl (ap is_zero e, agree)
          | inr (j, less, (agree, inl (e, bigger))) ↦
              inr (ap is_zero e, λ a. absurd (omega (arith, a j less, bigger)))
          | inr (j, less, (agree, inr (e, smaller))) ↦
              inr (ap is_zero e, λ a. absurd (omega (arith, a j less, smaller)))
        ],
      )

  unless_here :
      {i n : ℕ}
      → ¬ Agree m (haystack + i) needle needle_len
      → ((j : ℕ) → i + 1 ≤ j → j < n → ¬ Agree m (haystack + j) needle needle_len)
      → (j : ℕ) → i ≤ j
      → j < n
      → ¬ Agree m (haystack + j) needle needle_len
  unless_here {i} {n} here later j le less a = elim (Bool-cases (i == j)) [
    | inl e ↦
        (let same : j ≡ i = ground (arith, e) in
          here (subst (λ q. Agree m (haystack + q) needle needle_len) same a))
    | inr ne ↦ later j (ground (arith, ne)) less a
  ]

  earlier :
      (left i : ℕ) (found : Option ℕ)
      → ¬ Agree m (haystack + i) needle needle_len
      → FirstFrom m left haystack needle needle_len (i + 1) found
      → FirstFrom m (suc left) haystack needle needle_len i found
  earlier left i found here (inl (e, none_of)) =
      inl (e, unless_here here (λ j le less. none_of j le (omega (arith, less))))
  earlier left i found here (inr (k, le, less, e, agree, none_of)) =
      inr (k, omega (arith, le), omega (arith, less), e, agree, unless_here here none_of)

  str_from_lem :
      (left i : ℕ)
      → (found : Option ℕ) × (str_from m left haystack needle needle_len i ≡ runs found)
        × FirstFrom m left haystack needle needle_len i found
  unfolding str_from
  str_from_lem zero i = (none, refl, inl (refl, λ j le less. absurd (omega (arith, le, less))))
  str_from_lem (suc left) i =
      let (order, run, cases) = compare_at i in
      let (found, rest, first) = str_from_lem left (i + 1) in
      elim cases [
        | inl (e, agree) ↦ (
          some (haystack + i),
          rw (run, e) refl,
          inr (
            i,
            omega arith,
            omega arith,
            refl,
            agree,
            λ j le less. absurd (omega (arith, le, less)),
          ),
        )
        | inr (e, disagree) ↦ (found, rw (run, e) rest, earlier left i found disagree first)
      ]

-- `strstr` finds the first place in the haystack where all characters of the needle follow, if there is one.
pub strstr_lem :
    {m : Memory} {haystack haystack_len needle needle_len : ℕ}
    → IsPlaced m haystack haystack_len
    → IsPlaced m needle needle_len
    → ((strstr m haystack needle ≡ runs none)
        × ((j : ℕ) → j + needle_len ≤ haystack_len → ¬ Agree m (haystack + j) needle needle_len))
      ⊎ ((k : ℕ) × (k + needle_len ≤ haystack_len)
          × (strstr m haystack needle ≡ runs (some (haystack + k)))
          × Agree m (haystack + k) needle needle_len
          × ((j : ℕ) → j < k → ¬ Agree m (haystack + j) needle needle_len))
unfolding strstr
strstr_lem {m} {haystack} {haystack_len} {needle} {needle_len} v w =
    elim (Bool-cases (leb needle_len haystack_len)) [
      | inl fits ↦
          let (found, run, first) =
            str_from_lem m haystack needle needle_len v.not_null w.not_null
              (haystack_len - needle_len + 1) 0 in
          rw (strlen_lem v, strlen_lem w, fits, run)
            (elim first [
              | inl (e, none_of) ↦
                  inl (ap runs e, λ j le. none_of j (omega arith) (ground (arith, le)))
              | inr (k, le, less, e, agree, none_of) ↦
                  inr
                    (k, ground arith, ap runs e, agree, λ j before. none_of j (omega arith) before)
            ])
      | inr longer ↦
          rw (strlen_lem v, strlen_lem w, longer) (inl (refl, λ j le. absurd (ground arith)))
    ]
