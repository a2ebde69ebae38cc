-- ===== src/Lists/Chain.antt =====
-- Linked elements in the heap against lists of addresses: linuxpintos/src/lib/kernel/list.c.
use tddb68_collab.Base.{
  ℕ, ◌+◌, ◌≤◌, ◌<◌, ◌≡◌, ◌∙◌, true, List, [], ◌∷◌, ◌++◌, ◌==◌, if◌then◌else◌, arith,
}
use tddb68_collab.Base.Copies.{copies, copies-++, copies-ne}
use tddb68_collab.Lists.{Heap, Ends, is_head, is_interior, is_tail}

-- The elements `es` are linked, in this order, between `a` and `b`.
unfoldable pub Linked : (h : Heap) → (a : ℕ) → (es : List ℕ) → (b : ℕ) → Type 0
Linked h a [] b = (h.next a ≡ b) × (h.prev b ≡ a)
Linked h a (e ∷ es) b = (h.next a ≡ e) × (h.prev e ≡ a) × Linked h e es b

-- How often an address is among the elements and the two ends.
abbrev pub places : Ends → List ℕ → ℕ → ℕ
places l es x = (if l.head == x then 1 else 0) + copies es x + (if l.tail == x then 1 else 0)

-- A list with its elements, each once and none of them null.
pub record IsList (h : Heap) (l : Ends) (es : List ℕ) : Type 0 where
  pub linked : Linked h l.head es l.tail
  pub head_end : h.prev l.head ≡ 0
  pub tail_end : h.next l.tail ≡ 0
  pub distinct : (x : ℕ) → places l es x ≤ 1
  pub not_null : places l es 0 ≡ 0

-- Only `next` of `a` and the elements, and `prev` of the elements and `b` matter.
pub Linked-frame :
    (h h' : Heap) (a : ℕ) (es : List ℕ) (b : ℕ)
    → ((x : ℕ) → 0 < copies (a ∷ es) x → h'.next x ≡ h.next x)
    → ((x : ℕ) → 0 < copies (es ++ (b ∷ [])) x → h'.prev x ≡ h.prev x)
    → Linked h a es b
    → Linked h' a es b
unfolding Linked copies
Linked-frame h h' a [] b n p (next, prev) = (n a (ground arith) ∙ next, p b (ground arith) ∙ prev)
Linked-frame h h' a (e ∷ es) b n p (next, prev, rest) = (
  n a (ground arith) ∙ next,
  p e (ground arith) ∙ prev,
  Linked-frame h h' e es b (λ x i. n x (ground (arith, i))) (λ x i. p x (ground (arith, i))) rest,
)

pub Linked-split :
    (h : Heap) (a : ℕ) (xs : List ℕ) (x : ℕ) (ys : List ℕ) (b : ℕ)
    → Linked h a (xs ++ (x ∷ ys)) b
    → Linked h a xs x × Linked h x ys b
unfolding Linked
Linked-split h a [] x ys b (next, prev, rest) = ((next, prev), rest)
Linked-split h a (e ∷ es) x ys b (next, prev, rest) =
    let (front, back) = Linked-split h e es x ys b rest in ((next, prev, front), back)

pub Linked-join :
    (h : Heap) (a : ℕ) (xs : List ℕ) (x : ℕ) (ys : List ℕ) (b : ℕ)
    → Linked h a xs x
    → Linked h x ys b
    → Linked h a (xs ++ (x ∷ ys)) b
unfolding Linked
Linked-join h a [] x ys b (next, prev) back = (next, prev, back)
Linked-join h a (e ∷ es) x ys b (next, prev, front) back =
    (next, prev, Linked-join h e es x ys b front back)

-- What is before `b`, and what is after `a`.
pub prev-in :
    (h : Heap) (a : ℕ) (es : List ℕ) (b : ℕ) → Linked h a es b → 0 < copies (a ∷ es) (h.prev b)
unfolding Linked copies
prev-in h a [] b (next, prev) = ground (arith, prev)
prev-in h a (e ∷ es) b (next, prev, rest) = ground (arith, prev-in h e es b rest)

pub next-in :
    (h : Heap) (a : ℕ) (es : List ℕ) (b : ℕ)
    → Linked h a es b
    → 0 < copies (es ++ (b ∷ [])) (h.next a)
unfolding Linked copies
next-in h a [] b (next, prev) = ground (arith, next)
next-in h a (e ∷ es) b (next, prev, rest) = ground (arith, next)

pub copies-∷ :
    (e : ℕ) (es : List ℕ) (x : ℕ) → copies (e ∷ es) x ≡ (if e == x then 1 else 0) + copies es x
unfolding copies
copies-∷ e es x = ground arith

pub copies-middle :
    (xs : List ℕ) (e : ℕ) (ys : List ℕ) (x : ℕ)
    → copies (xs ++ (e ∷ ys)) x ≡ copies xs x + (if e == x then 1 else 0) + copies ys x
unfolding copies
copies-middle xs e ys x = ground (arith, copies-++ xs (e ∷ ys) x)

pub interior :
    (h : Heap) (l : Ends) (xs : List ℕ) (e : ℕ) (ys : List ℕ)
    → IsList h l (xs ++ (e ∷ ys))
    → is_interior h e ≡ true
unfolding is_interior copies
interior h l xs e ys v =
    let (front, back) = Linked-split h l.head xs e ys l.tail v.linked in
    let nodes = copies-middle xs e ys 0 in
    let p =
      copies-ne (l.head ∷ xs) (h.prev e) 0 (ground (arith, v.not_null, nodes))
        (prev-in h l.head xs e front) in
    let n =
      copies-ne (ys ++ (l.tail ∷ [])) (h.next e) 0
        (ground (arith, v.not_null, nodes, copies-++ ys (l.tail ∷ []) 0))
        (next-in h e ys l.tail back) in
    ground (arith, p, n, v.not_null, nodes)

pub tail-is_tail : (h : Heap) (l : Ends) (es : List ℕ) → IsList h l es → is_tail h l.tail ≡ true
unfolding is_tail copies
tail-is_tail h l es v =
    let p =
      copies-ne (l.head ∷ es) (h.prev l.tail) 0 (ground (arith, v.not_null))
        (prev-in h l.head es l.tail v.linked) in
    ground (arith, p, v.tail_end, v.not_null)

pub head-is_head : (h : Heap) (l : Ends) (es : List ℕ) → IsList h l es → is_head h l.head ≡ true
unfolding is_head copies
head-is_head h l es v =
    let n =
      copies-ne (es ++ (l.tail ∷ [])) (h.next l.head) 0
        (ground (arith, v.not_null, copies-++ es (l.tail ∷ []) 0))
        (next-in h l.head es l.tail v.linked) in
    ground (arith, n, v.head_end, v.not_null)
