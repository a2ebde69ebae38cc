-- ===== src/Lists/Remove.antt =====
-- Removal from a list: linuxpintos/src/lib/kernel/list.c.
use tddb68_collab.Base.{
  ℕ, ◌+◌, ◌≤◌, ◌≡◌, refl, ap, ◌∙◌, subst, Bool, true, false, List, [], ◌∷◌, ◌++◌, ◌==◌,
  if◌then◌else◌, arith,
}
use mathlib.Core.List.{append-nil}
use tddb68_collab.Base.Copies.{copies, copies-++}
use tddb68_collab.Base.Kernel.{runs}
use tddb68_collab.Lists.{
  Heap, Ends, put, is_interior, list_empty, list_remove, list_front, list_back, list_pop_front,
  list_pop_back,
}
use tddb68_collab.Lists.Chain.{
  Linked, IsList, Linked-frame, Linked-split, prev-in, next-in, copies-middle, interior,
}

-- The heap after `list_remove`.
abbrev pub unlinked : Heap → (elem : ℕ) → Heap
unlinked h elem = record {
  prev = put h.prev (h.next elem) (h.prev elem);
  next = put h.next (h.prev elem) (h.next elem);
}

-- Taking out the element right after `a`.
remove-first :
    (h : Heap) (a e : ℕ) (ys : List ℕ) (b : ℕ)
    → ((x : ℕ)
        → (if a == x then 1 else 0) + (if e == x then 1 else 0) + copies (ys ++ (b ∷ [])) x ≤ 1)
    → h.prev e ≡ a
    → Linked h e ys b
    → Linked (unlinked h e) a ys b
unfolding Linked copies
remove-first h a e [] b distinct before (next, prev) =
    (ground (arith, before, next), ground (arith, before, next))
remove-first h a e (y ∷ ys) b distinct before (next, prev, rest) = (
  ground (arith, before, next),
  ground (arith, before, next),
  Linked-frame h (unlinked h e) y ys b
      (λ x i. ground (arith, before, distinct x, copies-++ ys (b ∷ []) x))
      (λ x i. ground (arith, next, distinct x)) rest,
)

-- Taking out the element between two stretches.
remove-Linked :
    (h : Heap) (a : ℕ) (xs : List ℕ) (e : ℕ) (ys : List ℕ) (b : ℕ)
    → ((x : ℕ) → copies (a ∷ xs) x + (if e == x then 1 else 0) + copies (ys ++ (b ∷ [])) x ≤ 1)
    → Linked h a xs e
    → Linked h e ys b
    → Linked (unlinked h e) a (xs ++ ys) b
unfolding Linked copies
remove-Linked h a [] e ys b distinct (_, before) back =
    remove-first h a e ys b (λ x. ground (arith, distinct x)) before back
remove-Linked h a (x ∷ xs) e ys b distinct (next, prev, front) back =
    let p = prev-in h x xs e front in
    let n = next-in h e ys b back in
    (
      ground (arith, next, p, distinct a, distinct (h.prev e)),
      ground (arith, prev, n, distinct x, distinct (h.next e)),
      remove-Linked h x xs e ys b (λ y. ground (arith, distinct y)) front back,
    )

-- The first element of a list, or what comes after the list.
abbrev pub first_or : List ℕ → ℕ → ℕ
first_or [] b = b
first_or (e ∷ es) b = e

pub next-first_or :
    (h : Heap) (a : ℕ) (es : List ℕ) (b : ℕ) → Linked h a es b → h.next a ≡ first_or es b
unfolding Linked
next-first_or h a [] b (next, _) = next
next-first_or h a (e ∷ es) b (next, _, _) = next

remove-runs :
    (h : Heap) (elem : ℕ)
    → is_interior h elem ≡ true
    → (elem == h.prev elem) ≡ false
    → list_remove h elem ≡ runs (unlinked h elem, h.next elem)
unfolding list_remove
remove-runs h elem ok other = rw (ok, other) refl

-- `list_remove` takes the element out of the list, wherever it is, leaves the others in their order, and
-- returns the element that followed, or the tail.
pub remove-IsList :
    (h : Heap) (l : Ends) (xs : List ℕ) (elem : ℕ) (ys : List ℕ)
    → IsList h l (xs ++ (elem ∷ ys))
    → (h' : Heap) × (list_remove h elem ≡ runs (h', first_or ys l.tail)) × IsList h' l (xs ++ ys)
unfolding copies
remove-IsList h l xs elem ys v =
    let (front, back) = Linked-split h l.head xs elem ys l.tail v.linked in
    let nodes = copies-middle xs elem ys in
    let p = prev-in h l.head xs elem front in
    let n = next-in h elem ys l.tail back in
    let ends : (x : ℕ) → copies (ys ++ (l.tail ∷ [])) x ≡ copies ys x + copies (l.tail ∷ []) x =
      copies-++ ys (l.tail ∷ []) in
    let apart : (elem == h.prev elem) ≡ false =
      ground (arith, p, v.distinct (h.prev elem), nodes (h.prev elem)) in
    (
      unlinked h elem,
      remove-runs h elem (interior h l xs elem ys v) apart
          ∙ ap (λ f. runs (unlinked h elem, f)) (next-first_or h elem ys l.tail back),
      record {
        linked =
            remove-Linked h l.head xs elem ys l.tail
              (λ x. ground (arith, v.distinct x, nodes x, ends x)) front back;
        head_end = ground (
          arith,
          v.head_end,
          n,
          v.distinct (h.next elem),
          nodes (h.next elem),
          ends (h.next elem),
        );
        tail_end = ground (arith, v.tail_end, p, v.distinct (h.prev elem), nodes (h.prev elem));
        distinct = λ x. ground (arith, v.distinct x, nodes x, copies-++ xs ys x);
        not_null = ground (arith, v.not_null, nodes 0, copies-++ xs ys 0);
      },
    )

abbrev is_empty : List ℕ → Bool
is_empty [] = true
is_empty (e ∷ es) = false

-- The list is empty just if it has no elements.
pub list_empty_lem :
    (h : Heap) (l : Ends) (es : List ℕ) → IsList h l es → list_empty h l ≡ is_empty es
unfolding Linked copies
list_empty_lem h l [] v = let (next, _) = v.linked in ground (arith, next)
list_empty_lem h l (e ∷ es) v = let (next, _, _) = v.linked in ground (arith, next, v.distinct e)

-- `list_pop_front` takes out the first element and returns it.
pub pop_front-IsList :
    (h : Heap) (l : Ends) (e : ℕ) (es : List ℕ)
    → IsList h l (e ∷ es)
    → (h' : Heap) × (list_pop_front h l ≡ runs (h', e)) × IsList h' l es
unfolding list_pop_front list_front Linked
pop_front-IsList h l e es v =
    let (next, _, _) = v.linked in
    let some_left = list_empty_lem h l (e ∷ es) v in
    let (h', run, w) = remove-IsList h l [] e es v in (h', rw (some_left, next, run) refl, w)

append-nonempty : (es : List ℕ) (e : ℕ) → is_empty (es ++ (e ∷ [])) ≡ false
append-nonempty [] e = refl
append-nonempty (x ∷ es) e = refl

-- `list_pop_back` takes out the last element and returns it.
pub pop_back-IsList :
    (h : Heap) (l : Ends) (es : List ℕ) (e : ℕ)
    → IsList h l (es ++ (e ∷ []))
    → (h' : Heap) × (list_pop_back h l ≡ runs (h', e)) × IsList h' l es
unfolding list_pop_back list_back Linked
pop_back-IsList h l es e v =
    let (front, (_, last)) = Linked-split h l.head es e [] l.tail v.linked in
    let some_left = list_empty_lem h l (es ++ (e ∷ [])) v ∙ append-nonempty es e in
    let (h', run, w) = remove-IsList h l es e [] v in
    (h', rw (some_left, last, run) refl, subst (IsList h' l) (append-nil es) w)
