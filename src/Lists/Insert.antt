-- ===== src/Lists/Insert.antt =====
-- Insertion into a list: linuxpintos/src/lib/kernel/list.c.
use tddb68_collab.Base.{
  ℕ, ◌+◌, ◌≤◌, ◌≡◌, ◌≢◌, refl, ap, true, false, ◌||◌, List, [], ◌∷◌, ◌++◌, ◌==◌, if◌then◌else◌,
  arith, Bool-cases, inl, inr,
}
use tddb68_collab.Base.Copies.{copies, copies-++, copies-ne}
use tddb68_collab.Base.Kernel.{runs}
use tddb68_collab.Lists.{
  Heap, Ends, put, is_interior, is_tail, list_insert, list_push_front, list_push_back,
}
use tddb68_collab.Lists.Chain.{
  Linked, places, IsList, Linked-frame, Linked-split, Linked-join, prev-in, copies-middle, interior,
  tail-is_tail,
}

-- The heap after `list_insert`.
abbrev pub linked_in : Heap → (before elem : ℕ) → Heap
linked_in h before elem = record {
  prev = put (put h.prev elem (h.prev before)) before elem;
  next = put (put h.next elem before) (h.prev before) elem;
}

-- A new element at the end of what is linked between `a` and `b`.
insert-Linked :
    (h : Heap) (a : ℕ) (xs : List ℕ) (b elem : ℕ)
    → ((x : ℕ) → copies (a ∷ xs) x + (if b == x then 1 else 0) ≤ 1)
    → copies (a ∷ xs) elem ≡ 0
    → elem ≢ b
    → Linked h a xs b
    → Linked (linked_in h b elem) a (xs ++ (elem ∷ [])) b
unfolding Linked copies
insert-Linked h a [] b elem distinct fresh ne (next, prev) =
    (ground (arith, prev), ground (arith, prev, ne), (ground (arith, prev, fresh), ground arith))
insert-Linked h a (e ∷ es) b elem distinct fresh ne (next, prev, rest) =
    let later = prev-in h e es b rest in
    (
      ground (arith, next, later, distinct a, fresh, distinct (h.prev b)),
      ground (arith, prev, fresh, distinct e),
      insert-Linked h e es b elem (λ x. ground (arith, distinct x)) (ground (arith, fresh)) ne rest,
    )

-- Insertion changes no other links.
insert-frame :
    (h : Heap) (b elem : ℕ) (ys : List ℕ) (t : ℕ)
    → copies (b ∷ ys) (h.prev b) ≡ 0
    → copies (b ∷ ys) elem ≡ 0
    → (t == elem) ≡ false
    → copies (ys ++ (t ∷ [])) b ≡ 0
    → Linked h b ys t
    → Linked (linked_in h b elem) b ys t
unfolding copies
insert-frame h b elem ys t apart fresh other once linked =
    Linked-frame h (linked_in h b elem) b ys t
      (λ x i.
        ground (arith, copies-ne (b ∷ ys) x elem fresh i, copies-ne (b ∷ ys) x (h.prev b) apart i))
      (λ x i. ground (
        arith,
        copies-ne (ys ++ (t ∷ [])) x b once i,
        copies-ne (ys ++ (t ∷ [])) x elem (ground (arith, fresh, other, copies-++ ys (t ∷ []) elem))
            i,
      ))
      linked

-- `list_insert` runs its writes.
insert-runs :
    (h : Heap) (before elem : ℕ)
    → (is_interior h before || is_tail h before) ≡ true
    → elem ≢ 0
    → elem ≢ before
    → list_insert h before elem ≡ runs (linked_in h before elem)
unfolding list_insert
insert-runs h before elem ok nn ne =
    let not_null : (elem == 0) ≡ false = ground (arith, nn) in
    let other : (before == elem) ≡ false = ground (arith, ne) in rw (ok, not_null, other) refl

-- One address more, which was not there, leaves all there once.
still_distinct :
    (l : Ends) (es es' : List ℕ) (elem : ℕ)
    → ((x : ℕ) → copies es' x ≡ copies es x + (if elem == x then 1 else 0))
    → ((x : ℕ) → places l es x ≤ 1)
    → places l es elem ≡ 0
    → (x : ℕ) → places l es' x ≤ 1
still_distinct l es es' elem more distinct fresh x = elim (Bool-cases (elem == x)) [
  | inl e ↦
      let same : elem ≡ x = ground (arith, e) in
      ground (arith, e, more x, fresh, ap (places l es) same)
  | inr ne ↦ ground (arith, ne, more x, distinct x)
]

-- Before an element of the list.
pub insert-IsList :
    (h : Heap) (l : Ends) (xs : List ℕ) (before : ℕ) (ys : List ℕ) (elem : ℕ)
    → IsList h l (xs ++ (before ∷ ys))
    → elem ≢ 0
    → places l (xs ++ (before ∷ ys)) elem ≡ 0
    → (h' : Heap) × (list_insert h before elem ≡ runs h')
      × IsList h' l ((xs ++ (elem ∷ [])) ++ (before ∷ ys))
unfolding copies
insert-IsList h l xs before ys elem v nn fresh =
    let (front, back) = Linked-split h l.head xs before ys l.tail v.linked in
    let nodes = copies-middle xs before ys in
    let p = prev-in h l.head xs before front in
    let ne : elem ≢ before = λ e. absurd (ground (arith, fresh, nodes elem)) in
    let ok : (is_interior h before || is_tail h before) ≡ true =
      ground (arith, interior h l xs before ys v) in
    let more : (x : ℕ)
        → copies ((xs ++ (elem ∷ [])) ++ (before ∷ ys)) x
          ≡ copies (xs ++ (before ∷ ys)) x + (if elem == x then 1 else 0) =
      λ x. ground (
        arith,
        nodes x,
        copies-middle (xs ++ (elem ∷ [])) before ys x,
        copies-++ xs (elem ∷ []) x,
      ) in
    (
      linked_in h before elem,
      insert-runs h before elem ok nn ne,
      record {
        linked =
            Linked-join (linked_in h before elem) l.head (xs ++ (elem ∷ [])) before ys l.tail
              (insert-Linked h l.head xs before elem (λ x. ground (arith, v.distinct x, nodes x))
                (ground (arith, fresh, nodes elem)) ne front)
              (insert-frame h before elem ys l.tail
                (ground (arith, p, v.distinct (h.prev before), nodes (h.prev before)))
                (ground (arith, fresh, nodes elem)) (ground (arith, fresh))
                (ground (arith, v.distinct before, nodes before, copies-++ ys (l.tail ∷ []) before))
                back);
        head_end = ground (arith, v.head_end, v.distinct l.head, nodes l.head, fresh);
        tail_end = ground (
          arith,
          v.tail_end,
          p,
          v.distinct l.tail,
          nodes l.tail,
          v.distinct (h.prev before),
          nodes (h.prev before),
          fresh,
        );
        distinct = still_distinct l (xs ++ (before ∷ ys)) _ elem more v.distinct fresh;
        not_null = ground (arith, v.not_null, more 0, nn);
      },
    )

-- `list_push_back` adds a new element at the end of the list, and no other element's place changes.
pub push_back-IsList :
    (h : Heap) (l : Ends) (es : List ℕ) (elem : ℕ)
    → IsList h l es
    → elem ≢ 0
    → places l es elem ≡ 0
    → (h' : Heap) × (list_push_back h l elem ≡ runs h') × IsList h' l (es ++ (elem ∷ []))
unfolding list_push_back copies
push_back-IsList h l es elem v nn fresh =
    let p = prev-in h l.head es l.tail v.linked in
    let ne : elem ≢ l.tail = λ e. absurd (ground (arith, fresh)) in
    let ok : (is_interior h l.tail || is_tail h l.tail) ≡ true =
      ground (arith, tail-is_tail h l es v) in
    let more = copies-++ es (elem ∷ []) in
    (
      linked_in h l.tail elem,
      insert-runs h l.tail elem ok nn ne,
      record {
        linked =
            insert-Linked h l.head es l.tail elem (λ x. ground (arith, v.distinct x))
              (ground (arith, fresh)) ne v.linked;
        head_end = ground (arith, v.head_end, v.distinct l.head, fresh);
        tail_end = ground (arith, v.tail_end, p, v.distinct (h.prev l.tail), fresh);
        distinct =
            still_distinct l es (es ++ (elem ∷ [])) elem (λ x. ground (arith, more x)) v.distinct
              fresh;
        not_null = ground (arith, v.not_null, more 0, nn);
      },
    )

-- `list_push_front` adds a new element at the front.
pub push_front-IsList :
    (h : Heap) (l : Ends) (es : List ℕ) (elem : ℕ)
    → IsList h l es
    → elem ≢ 0
    → places l es elem ≡ 0
    → (h' : Heap) × (list_push_front h l elem ≡ runs h') × IsList h' l (elem ∷ es)
unfolding list_push_front list_push_back Linked
push_front-IsList h l [] elem v nn fresh =
    let (next, _) = v.linked in rw (next) (push_back-IsList h l [] elem v nn fresh)
push_front-IsList h l (e ∷ es) elem v nn fresh =
    let (next, _, _) = v.linked in rw (next) (insert-IsList h l [] e es elem v nn fresh)
