-- ===== src/Lists/Loops.antt =====
-- Loops over a list: linuxpintos/src/lib/kernel/list.c.
use tddb68_collab.Base.{
  ℕ, zero, suc, ◌+◌, ◌^◌, ◌<◌, ◌≡◌, ◌≢◌, refl, sym, ap, ◌∙◌, subst, Bool, true, false, ◌||◌, List,
  [], ◌∷◌, ◌++◌, length, ◌==◌, if◌then◌else◌, arith, Bool-cases, inl, inr,
}
use mathlib.Core.List.{append_assoc, append-nil}
use tddb68_collab.Base.Kernel.{runs}
use tddb68_collab.Lists.{
  Heap, Ends, is_head, is_interior, list_begin, list_next, list_insert, list_push_back, rounds,
  count_from, list_size, place_from, list_insert_ordered, max_from,
}
use tddb68_collab.Lists.Chain.{places, IsList, Linked-split, copies-middle, interior}
use tddb68_collab.Lists.Insert.{insert-IsList, push_back-IsList}
use tddb68_collab.Lists.Remove.{first_or, next-first_or}

-- `list_next` goes along the elements `ys` to the tail.
unfoldable pub Walk : Heap → Ends → List ℕ → Type 0
Walk h l [] = Unit {0}
Walk h l (y ∷ ys) =
    (list_next h y ≡ runs (first_or ys l.tail)) × ((y == l.tail) ≡ false) × Walk h l ys

pub IsList-Walk : (h : Heap) (l : Ends) (xs ys : List ℕ) → IsList h l (xs ++ ys) → Walk h l ys
unfolding Walk list_next
IsList-Walk h l xs [] v = tt
IsList-Walk h l xs (y ∷ ys) v =
    let (_, back) = Linked-split h l.head xs y ys l.tail v.linked in
    let ok : (is_head h y || is_interior h y) ≡ true = ground (arith, interior h l xs y ys v) in
    (
      rw (ok) (ap runs (next-first_or h y ys l.tail back)),
      ground (arith, v.distinct y, copies-middle xs y ys y),
      IsList-Walk h l (xs ++ (y ∷ [])) ys
          (subst (IsList h l) (sym (append_assoc xs (y ∷ []) ys)) v),
    )

pub begin-first_or :
    (h : Heap) (l : Ends) (es : List ℕ) → IsList h l es → list_begin h l ≡ first_or es l.tail
begin-first_or h l es v = next-first_or h l.head es l.tail v.linked

count_from_lem :
    (h : Heap) (l : Ends) (ys : List ℕ) (fuel cnt : ℕ)
    → length ys < fuel
    → Walk h l ys
    → count_from h l.tail fuel (first_or ys l.tail) cnt ≡ runs (cnt + length ys)
unfolding count_from Walk
count_from_lem h l ys zero cnt less w = absurd (omega (arith, less))
count_from_lem h l [] (suc fuel) cnt less w = ground arith
count_from_lem h l (y ∷ ys) (suc fuel) cnt less (next, ne, w) =
    rw (next, ne) (ground (arith, count_from_lem h l ys fuel (cnt + 1) (omega (arith, less)) w))

-- `list_size` returns the number of elements.
pub list_size_lem :
    (h : Heap) (l : Ends) (es : List ℕ)
    → IsList h l es
    → length es < 2 ^ 32
    → list_size h l ≡ runs (length es)
unfolding list_size
list_size_lem h l es v less =
    ap (λ e. count_from h l.tail rounds e 0) (begin-first_or h l es v)
    ∙ count_from_lem h l es rounds 0 less (IsList-Walk h l [] es v)
    ∙ (let same : 0 + length es ≡ length es = omega arith in ap runs same)

module _ (less : ℕ → ℕ → Bool) where
  -- A new element before the first element that it is less than.
  unfoldable pub ordered_insert : (elem : ℕ) → List ℕ → List ℕ
  ordered_insert elem [] = elem ∷ []
  ordered_insert elem (y ∷ ys) =
      let rest = ordered_insert elem ys in if less elem y then elem ∷ (y ∷ ys) else y ∷ rest

  -- No element is less than the one before it.
  unfoldable pub IsSorted : List ℕ → Type 0
  IsSorted [] = Unit {0}
  IsSorted (x ∷ []) = Unit {0}
  IsSorted (x ∷ y ∷ ys) = (less y x ≡ false) × IsSorted (y ∷ ys)

  -- Where the loop stops splits the list.
  place_from_lem :
      (h : Heap) (l : Ends) (elem : ℕ) (ys : List ℕ) (fuel : ℕ)
      → length ys < fuel
      → Walk h l ys
      → (pre post : List ℕ) × (place_from less h l.tail elem fuel (first_or ys l.tail)
          ≡ runs (first_or post l.tail))
        × (ys ≡ pre ++ post)
        × (ordered_insert elem ys ≡ pre ++ (elem ∷ post))
  unfolding place_from Walk ordered_insert
  place_from_lem h l elem ys zero few w = absurd (omega (arith, few))
  place_from_lem h l elem [] (suc fuel) few w = ([], [], ground arith, refl, refl)
  place_from_lem h l elem (y ∷ ys) (suc fuel) few (next, ne, w) = elim (Bool-cases (less elem y)) [
    | inl stop ↦ ([], y ∷ ys, rw (next, ne, stop) refl, refl, rw (stop) refl)
    | inr on ↦
        let (pre, post, run, split, result) =
          place_from_lem h l elem ys fuel (omega (arith, few)) w in
        (
          y ∷ pre,
          post,
          rw (next, ne, on) run,
          ap (λ r. y ∷ r) split,
          rw (on) (ap (λ r. y ∷ r) result),
        )
  ]

  ordered_insert-after :
      (elem x : ℕ) (ys : List ℕ)
      → ((a b : ℕ) → less a b ≡ true → less b a ≡ false)
      → less elem x ≡ false
      → IsSorted (x ∷ ys)
      → IsSorted (x ∷ ordered_insert elem ys)
  unfolding ordered_insert IsSorted
  ordered_insert-after elem x [] asym after sorted = (after, tt)
  ordered_insert-after elem x (y ∷ ys) asym after (order, sorted) =
      elim (Bool-cases (less elem y)) [
        | inl stop ↦ rw (stop) (after, (asym elem y stop, sorted))
        | inr on ↦ rw (on) (order, ordered_insert-after elem y ys asym on sorted)
      ]

  pub ordered_insert-IsSorted :
      (elem : ℕ) (es : List ℕ)
      → ((a b : ℕ) → less a b ≡ true → less b a ≡ false)
      → IsSorted es
      → IsSorted (ordered_insert elem es)
  unfolding ordered_insert IsSorted
  ordered_insert-IsSorted elem [] asym sorted = tt
  ordered_insert-IsSorted elem (y ∷ ys) asym sorted = elim (Bool-cases (less elem y)) [
    | inl stop ↦ rw (stop) (asym elem y stop, sorted)
    | inr on ↦ rw (on) (ordered_insert-after elem y ys asym on sorted)
  ]

  insert_at :
      (h : Heap) (l : Ends) (pre post : List ℕ) (elem : ℕ)
      → IsList h l (pre ++ post)
      → elem ≢ 0
      → places l (pre ++ post) elem ≡ 0
      → (h' : Heap) × (list_insert h (first_or post l.tail) elem ≡ runs h')
        × IsList h' l (pre ++ (elem ∷ post))
  unfolding list_push_back
  insert_at h l pre [] elem v nn fresh =
      push_back-IsList h l pre elem (subst (IsList h l) (append-nil pre) v) nn
        (subst (λ es. places l es elem ≡ 0) (append-nil pre) fresh)
  insert_at h l pre (y ∷ post) elem v nn fresh =
      let (h', run, w) = insert-IsList h l pre y post elem v nn fresh in
      (h', run, subst (IsList h' l) (append_assoc pre (elem ∷ []) (y ∷ post)) w)

  -- `list_insert_ordered` puts a new element before the first one that it is less than, or at the end; if
  -- `less` is asymmetric and the list was in order, it stays so.
  pub insert_ordered-IsList :
      (h : Heap) (l : Ends) (es : List ℕ) (elem : ℕ)
      → ((a b : ℕ) → less a b ≡ true → less b a ≡ false)
      → IsList h l es
      → IsSorted es
      → length es < 2 ^ 32
      → elem ≢ 0
      → places l es elem ≡ 0
      → (h' : Heap) × (list_insert_ordered less h l elem ≡ runs h')
        × IsList h' l (ordered_insert elem es)
        × IsSorted (ordered_insert elem es)
  unfolding list_insert_ordered
  insert_ordered-IsList h l es elem asym v sorted few nn fresh =
      let (pre, post, run, split, result) =
        place_from_lem h l elem es rounds few (IsList-Walk h l [] es v) in
      let (h', insert, w) =
        insert_at h l pre post elem (subst (IsList h l) split v) nn
          (subst (λ r. places l r elem ≡ 0) split fresh) in
      let not_null : (elem == 0) ≡ false = ground (arith, nn) in
      (
        h',
        rw (not_null, begin-first_or h l es v, run) insert,
        subst (IsList h' l) (sym result) w,
        ordered_insert-IsSorted elem es asym sorted,
      )

  -- The last of the elements that are met when going on to a greater one each time.
  abbrev pub greatest : ℕ → List ℕ → ℕ
  greatest max [] = max
  greatest max (y ∷ ys) = greatest (if less max y then y else max) ys

  pub max_from_lem :
      (h : Heap) (l : Ends) (ys : List ℕ) (fuel max : ℕ)
      → length ys < fuel
      → Walk h l ys
      → max_from less h l.tail fuel max (first_or ys l.tail) ≡ runs (greatest max ys)
  unfolding max_from Walk
  max_from_lem h l ys zero max few w = absurd (omega (arith, few))
  max_from_lem h l [] (suc fuel) max few w = ground arith
  max_from_lem h l (y ∷ ys) (suc fuel) max few (next, ne, w) =
      rw (next, ne)
        (max_from_lem h l ys fuel (if less max y then y else max) (omega (arith, few)) w)
