-- ===== src/Opens/Nodes.antt =====
-- The list of open inodes: linuxpintos/src/filesys/inode.c.
use tddb68_collab.Base.{
  ℕ, ◌≡◌, ◌⊎◌, inl, inr, refl, sym, subst, ap, ◌∙◌, Bool, true, false, Option, none, some, List, [],
  ◌∷◌, ◌==◌, if◌then◌else◌, arith, Bool-cases,
}
use tddb68_collab.Opens.{Node, node_at, put_node, unlist, find_sector}

pub some_inj {ℓ} : {A : Type ℓ} {x y : A} → some x ≡ some y → x ≡ y
some_inj e = cc

module _ {ℓ} {A : Type ℓ} where
  pub if_some :
      (b : Bool) (x y : A) (o : Option A)
      → (if b then some x else o) ≡ some y
      → ((b ≡ true) × (x ≡ y)) ⊎ ((b ≡ false) × (o ≡ some y))
  if_some true x y o h = inl (refl, some_inj h)
  if_some false x y o h = inr (refl, h)

  if_none :
      (b : Bool) (x : A) (o : Option A)
      → (if b then some x else o) ≡ none
      → (b ≡ false) × (o ≡ none)
  if_none true x o h = cc
  if_none false x o h = (refl, h)

pub node_at-address : (ns : List Node) (a : ℕ) (n : Node) → node_at ns a ≡ some n → n.address ≡ a
unfolding node_at
node_at-address [] a n h = cc
node_at-address (m ∷ ns) a n h = elim (Bool-cases (m.address == a)) [
  | inl e ↦
      (let same : m ≡ n = some_inj (ap (λ b. if b then some m else node_at ns a) (sym e) ∙ h) in
        ap (λ (t : Node). t.address) (sym same) ∙ ground (arith, e))
  | inr e ↦ node_at-address ns a n (ap (λ b. if b then some m else node_at ns a) (sym e) ∙ h)
]

pub put_node_ne :
    (ns : List Node) (m : Node) (b : ℕ)
    → (m.address == b) ≡ false
    → node_at (put_node ns m) b ≡ node_at ns b
unfolding node_at put_node
put_node_ne [] m b h = refl
put_node_ne (n ∷ ns) m b h = elim (Bool-cases (n.address == m.address)) [
  | inl e ↦
      (let out : (n.address == b) ≡ false = ground (arith, e, h) in
        rw (e, h, out) (put_node_ne ns m b h))
  | inr e ↦ rw (e, put_node_ne ns m b h) refl
]

pub put_node_self :
    (ns : List Node) (m n : Node)
    → node_at ns m.address ≡ some n
    → node_at (put_node ns m) m.address ≡ some m
unfolding node_at put_node
put_node_self [] m n h = cc
put_node_self (k ∷ ns) m n h = elim (Bool-cases (k.address == m.address)) [
  | inl e ↦ (let own : (m.address == m.address) ≡ true = ground arith in rw (e, own) refl)
  | inr e ↦
      rw (e, e)
        (put_node_self ns m n (ap (λ b. if b then some k else node_at ns m.address) (sym e) ∙ h))
]

pub put_node-none :
    (ns : List Node) (m : Node) (b : ℕ) → node_at ns b ≡ none → node_at (put_node ns m) b ≡ none
unfolding node_at put_node
put_node-none [] m b h = refl
put_node-none (k ∷ ns) m b h =
    (let (out, rest) = if_none (k.address == b) k (node_at ns b) h in
      elim (Bool-cases (k.address == m.address)) [
        | inl e ↦
            (let gone : (m.address == b) ≡ false = ground (arith, e, out) in
              rw (e, gone) (put_node-none ns m b rest))
        | inr e ↦ rw (e, out) (put_node-none ns m b rest)
      ])

pub unlist_self : (ns : List Node) (a : ℕ) → node_at (unlist ns a) a ≡ none
unfolding node_at unlist
unlist_self [] a = refl
unlist_self (n ∷ ns) a = elim (Bool-cases (n.address == a)) [
  | inl e ↦ rw e (unlist_self ns a)
  | inr e ↦ rw (e, e) (unlist_self ns a)
]

pub unlist_ne :
    (ns : List Node) (a b : ℕ) → (a == b) ≡ false → node_at (unlist ns a) b ≡ node_at ns b
unfolding node_at unlist
unlist_ne [] a b h = refl
unlist_ne (n ∷ ns) a b h = elim (Bool-cases (n.address == a)) [
  | inl e ↦
      (let out : (n.address == b) ≡ false = ground (arith, e, h) in
        rw (e, out) (unlist_ne ns a b h))
  | inr e ↦ rw (e, unlist_ne ns a b h) refl
]

pub find_sector-none :
    (ns : List Node) (sector a : ℕ) (n : Node)
    → find_sector ns sector ≡ none
    → node_at ns a ≡ some n
    → (n.sector == sector) ≡ false
unfolding find_sector node_at
find_sector-none [] sector a n h e = cc
find_sector-none (k ∷ ns) sector a n h e =
    (let (other, rest) = if_none (k.sector == sector) k.address (find_sector ns sector) h in
      elim (if_some (k.address == a) k n (node_at ns a) e) [
        | inl (here, same) ↦ subst (λ (t : Node). (t.sector == sector) ≡ false) same other
        | inr (out, there) ↦ find_sector-none ns sector a n rest there
      ])

-- Every address is that of one node.
abbrev pub IsUnique : List Node → Type 0
IsUnique [] = Unit
IsUnique (n ∷ ns) = (node_at ns n.address ≡ none) × IsUnique ns

pub find_sector-some :
    (ns : List Node) (sector a : ℕ)
    → IsUnique ns
    → find_sector ns sector ≡ some a
    → (n : Node) × (node_at ns a ≡ some n) × (n.sector ≡ sector)
unfolding find_sector node_at
find_sector-some [] sector a u h = cc
find_sector-some (k ∷ ns) sector a u h =
    elim (if_some (k.sector == sector) k.address a (find_sector ns sector) h) [
      | inl (e, same) ↦
          (let own : (k.address == a) ≡ true = ground (arith, same) in
            (k, rw own refl, ground (arith, e)))
      | inr (e, there) ↦
          (let (n, q, r) = find_sector-some ns sector a u.1 there in
            elim (Bool-cases (k.address == a)) [
              | inl same ↦
                  (let here : k.address ≡ a = ground (arith, same) in
                    let gone : node_at ns a ≡ none = subst (λ t. node_at ns t ≡ none) here u.0 in
                    cc)
              | inr out ↦ (n, rw out q, r)
            ])
    ]

pub put_node-IsUnique : (ns : List Node) (m : Node) → IsUnique ns → IsUnique (put_node ns m)
unfolding put_node
put_node-IsUnique [] m u = tt
put_node-IsUnique (k ∷ ns) m u = elim (Bool-cases (k.address == m.address)) [
  | inl e ↦
      (let same : k.address ≡ m.address = ground (arith, e) in
        rw e (
          put_node-none ns m m.address (subst (λ t. node_at ns t ≡ none) same u.0),
          put_node-IsUnique ns m u.1,
        ))
  | inr e ↦ rw e (put_node-none ns m k.address u.0, put_node-IsUnique ns m u.1)
]

unlist-none : (ns : List Node) (a b : ℕ) → node_at ns b ≡ none → node_at (unlist ns a) b ≡ none
unfolding node_at unlist
unlist-none [] a b h = refl
unlist-none (k ∷ ns) a b h =
    let (out, rest) = if_none (k.address == b) k (node_at ns b) h in
    elim (Bool-cases (k.address == a)) [
      | inl e ↦ rw e (unlist-none ns a b rest)
      | inr e ↦ rw (e, out) (unlist-none ns a b rest)
    ]

pub unlist-IsUnique : (ns : List Node) (a : ℕ) → IsUnique ns → IsUnique (unlist ns a)
unfolding unlist
unlist-IsUnique [] a u = tt
unlist-IsUnique (k ∷ ns) a u = elim (Bool-cases (k.address == a)) [
  | inl e ↦ rw e (unlist-IsUnique ns a u.1)
  | inr e ↦ rw e (unlist-none ns a k.address u.0, unlist-IsUnique ns a u.1)
]
