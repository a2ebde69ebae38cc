-- ===== src/Opens/Counts.antt =====
-- What the calls of linuxpintos/src/filesys/inode.c do to the counters of an open inode.
use tddb68_collab.Base.{
  ℕ, ◌+◌, ◌-◌, ◌≤◌, ◌<◌, ◌≡◌, inl, inr, refl, sym, subst, ap, ◌∙◌, Bool, true, false, ◌&&◌, Option,
  none, some, List, [], ◌==◌, if◌then◌else◌, ltb, leb, arith, Bool-cases, Option-cases,
}
use tddb68_collab.Opens.{
  Access, done, dangling, with_node, Node, node_at, put_node, unlist, inode_reopen, inode_close,
  inode_remove, inode_deny_write, inode_allow_write, freed_sectors,
}
use tddb68_collab.Opens.Nodes.{
  some_inj, node_at-address, put_node_ne, put_node_self, unlist_self, unlist_ne, IsUnique,
  put_node-IsUnique, unlist-IsUnique,
}

abbrev pub one_if : Bool → ℕ
one_if b = if b then 1 else 0

-- The counters of the inode at an address, of which so many files are open and so many deny writes.
abbrev pub Counted : Option Node → (opens denies : ℕ) → Type 0
Counted none opens denies = opens ≡ 0
Counted (some n) opens denies = (n.open_cnt ≡ opens) × (n.deny_write_cnt ≡ denies) × (0 < opens)

-- The list of open inodes, with the files by address.
pub record IsConsistent (ns : List Node) (opens denies : ℕ → ℕ) : Type 0 where
  pub unique : IsUnique ns
  pub counted : (a : ℕ) → Counted (node_at ns a) (opens a) (denies a)
  pub apart :
      (a b : ℕ) (n m : Node)
      → node_at ns a ≡ some n
      → node_at ns b ≡ some m
      → n.sector ≡ m.sector
      → a ≡ b

-- A call on an inode that is open.
pub with_node-none {ℓ} :
    {A : Type ℓ} (ns : List Node) (a : ℕ) (f : Node → Access A)
    → node_at ns a ≡ none
    → with_node ns a f ≡ dangling
with_node-none ns a f e = ap (λ o. elim o [ none ↦ dangling | some k ↦ f k ]) e

with_node_lem {ℓ} :
    {A : Type ℓ} (ns : List Node) (a : ℕ) (f : Node → Access A) (n : Node)
    → node_at ns a ≡ some n
    → with_node ns a f ≡ f n
with_node_lem ns a f n e = ap (λ o. elim o [ none ↦ dangling | some k ↦ f k ]) e

pub Counted-at :
    (o : Option Node) (n : Node) (opens denies : ℕ)
    → o ≡ some n
    → Counted o opens denies
    → Counted (some n) opens denies
Counted-at o n opens denies e c = subst (λ t. Counted t opens denies) e c

-- A file is open on an inode that is open.
pub open-node :
    {ns : List Node} {opens denies : ℕ → ℕ} (a : ℕ)
    → IsConsistent ns opens denies
    → 0 < opens a
    → (n : Node) × (node_at ns a ≡ some n) × Counted (some n) (opens a) (denies a)
open-node {ns} {opens} {denies} a v h = elim (Option-cases (node_at ns a)) [
  | inl e ↦
      (let none_open : opens a ≡ 0 = subst (λ t. Counted t (opens a) (denies a)) e (v.counted a) in
        absurd (omega (arith, h)))
  | inr (n, e) ↦ (n, e, Counted-at (node_at ns a) n (opens a) (denies a) e (v.counted a))
]

module _ {ns : List Node} {opens denies : ℕ → ℕ} (a : ℕ) (opens' denies' : ℕ → ℕ)
    (v : IsConsistent ns opens denies)
    (others : (b : ℕ) → (a == b) ≡ false → (opens' b ≡ opens b) × (denies' b ≡ denies b)) where
  -- The node at the address after a call, which keeps its sector.
  put_node-sector :
      (n m : Node)
      → node_at ns a ≡ some n
      → m.address ≡ a
      → m.sector ≡ n.sector
      → (b : ℕ) (k : Node) → node_at (put_node ns m) b ≡ some k
      → (k' : Node) × (node_at ns b ≡ some k') × (k'.sector ≡ k.sector)
  put_node-sector n m e own same b k q = elim (Bool-cases (a == b)) [
    | inl t ↦
        (let here : a ≡ b = ground (arith, t) in
          let self = put_node_self ns m n (subst (λ u. node_at ns u ≡ some n) (sym own) e) in
          let at_b = subst (λ u. node_at (put_node ns m) u ≡ some m) (own ∙ here) self in
          let is : m ≡ k = some_inj (sym at_b ∙ q) in
          (n, subst (λ u. node_at ns u ≡ some n) here e, sym same ∙ ap (λ (t : Node). t.sector) is))
    | inr t ↦
        (let out : (m.address == b) ≡ false = ground (arith, t, own) in
          (k, sym (put_node_ne ns m b out) ∙ q, refl))
  ]

  put_node-IsConsistent :
      (n m : Node)
      → node_at ns a ≡ some n
      → m.address ≡ a
      → m.sector ≡ n.sector
      → Counted (some m) (opens' a) (denies' a)
      → IsConsistent (put_node ns m) opens' denies'
  put_node-IsConsistent n m e own same c = record {
    unique = put_node-IsUnique ns m v.unique;
    counted = λ b. (elim (Bool-cases (a == b)) [
      | inl t ↦
          (let here : a ≡ b = ground (arith, t) in
            let self = put_node_self ns m n (subst (λ u. node_at ns u ≡ some n) (sym own) e) in
            subst (λ u. Counted (node_at (put_node ns m) u) (opens' u) (denies' u)) here
              (subst (λ t. Counted t (opens' a) (denies' a))
                (sym (subst (λ u. node_at (put_node ns m) u ≡ some m) own self)) c))
      | inr t ↦
          (let out : (m.address == b) ≡ false = ground (arith, t, own) in
            let (o, d) = others b t in rw (put_node_ne ns m b out, o, d) (v.counted b))
    ]);
    apart = λ b c k l p q s.
        (let (k', p', s') = put_node-sector n m e own same b k p in
          let (l', q', t') = put_node-sector n m e own same c l q in
          v.apart b c k' l' p' q' (s' ∙ s ∙ sym t'));
  }

  unlist-old : (b : ℕ) (k : Node) → node_at (unlist ns a) b ≡ some k → node_at ns b ≡ some k
  unlist-old b k q = elim (Bool-cases (a == b)) [
    | inl t ↦
        (let here : a ≡ b = ground (arith, t) in
          let gone = subst (λ u. node_at (unlist ns a) u ≡ none) here (unlist_self ns a) in cc)
    | inr t ↦ sym (unlist_ne ns a b t) ∙ q
  ]

  unlist-IsConsistent : opens' a ≡ 0 → IsConsistent (unlist ns a) opens' denies'
  unlist-IsConsistent z = record {
    unique = unlist-IsUnique ns a v.unique;
    counted = λ b. (elim (Bool-cases (a == b)) [
      | inl t ↦
          (let here : a ≡ b = ground (arith, t) in
            subst (λ u. Counted (node_at (unlist ns a) u) (opens' u) (denies' u)) here
              (subst (λ t. Counted t (opens' a) (denies' a)) (sym (unlist_self ns a)) z))
      | inr t ↦ (let (o, d) = others b t in rw (unlist_ne ns a b t, o, d) (v.counted b))
    ]);
    apart = λ b c k l p q s. v.apart b c k l (unlist-old b k p) (unlist-old c l q) s;
  }

  -- The calls on an inode on which a file is open.
  module _ (held : 0 < opens a) where
    pub inode_reopen_lem :
        opens' a ≡ opens a + 1
        → denies' a ≡ denies a
        → (ns' : List Node) × (inode_reopen ns a ≡ done ns')
          × IsConsistent ns' opens' denies'
          × ((k : Node)
              → node_at ns a ≡ some k
              → (m : Node) × (node_at ns' a ≡ some m) × (m.sector ≡ k.sector))
    unfolding inode_reopen
    inode_reopen_lem o d =
        let (n, e, c) = open-node a v held in
        let used : (n.open_cnt == 0) ≡ false = ground (arith, c.0, c.2) in
        let m = record n { open_cnt = n.open_cnt + 1 } in
        let own = node_at-address ns a n e in
        (
          put_node ns m,
          with_node_lem ns a _ n e ∙ (rw used refl),
          put_node-IsConsistent n m e own refl
              (omega (arith, c.0, o), c.1 ∙ sym d, omega (arith, o)),
          λ k q. (
            m,
            subst (λ u. node_at (put_node ns m) u ≡ some m) own
                (put_node_self ns m n (subst (λ u. node_at ns u ≡ some n) (sym own) e)),
            ap (λ (t : Node). t.sector) (some_inj (sym e ∙ q)),
          ),
        )

    pub inode_remove_lem :
        opens' a ≡ opens a
        → denies' a ≡ denies a
        → (ns' : List Node) × (inode_remove ns a ≡ done ns') × IsConsistent ns' opens' denies'
    unfolding inode_remove
    inode_remove_lem o d =
        let (n, e, c) = open-node a v held in
        (
          put_node ns (record n { removed = true }),
          with_node_lem ns a _ n e,
          put_node-IsConsistent n (record n { removed = true }) e (node_at-address ns a n e) refl
              (c.0 ∙ sym o, c.1 ∙ sym d, omega (arith, o, held)),
        )

    pub inode_deny_write_lem :
        opens' a ≡ opens a
        → denies' a ≡ denies a + 1
        → denies a < opens a
        → (ns' : List Node) × (inode_deny_write ns a ≡ done ns') × IsConsistent ns' opens' denies'
    unfolding inode_deny_write
    inode_deny_write_lem o d fits =
        let (n, e, c) = open-node a v held in
        let allowed : leb (n.deny_write_cnt + 1) n.open_cnt ≡ true =
          ground (arith, c.0, c.1, fits) in
        (
          put_node ns (record n { deny_write_cnt = n.deny_write_cnt + 1 }),
          with_node_lem ns a _ n e ∙ (rw allowed refl),
          put_node-IsConsistent n (record n { deny_write_cnt = n.deny_write_cnt + 1 }) e
              (node_at-address ns a n e) refl
              (c.0 ∙ sym o, omega (arith, c.1, d), omega (arith, o, held)),
        )

    pub inode_allow_write_lem :
        opens' a ≡ opens a
        → denies' a + 1 ≡ denies a
        → denies a ≤ opens a
        → (ns' : List Node) × (inode_allow_write ns a ≡ done ns') × IsConsistent ns' opens' denies'
    unfolding inode_allow_write
    inode_allow_write_lem o d fits =
        let (n, e, c) = open-node a v held in
        let allowed : (ltb 0 n.deny_write_cnt && leb n.deny_write_cnt n.open_cnt) ≡ true =
          ground (arith, c.0, c.1, d, fits) in
        (
          put_node ns (record n { deny_write_cnt = n.deny_write_cnt - 1 }),
          with_node_lem ns a _ n e ∙ (rw allowed refl),
          put_node-IsConsistent n (record n { deny_write_cnt = n.deny_write_cnt - 1 }) e
              (node_at-address ns a n e) refl
              (c.0 ∙ sym o, omega (arith, c.1, d), omega (arith, o, held)),
        )

    pub inode_close_lem :
        opens' a + 1 ≡ opens a
        → denies' a ≡ denies a
        → (ns' : List Node) × (r : List (ℕ × ℕ)) × (inode_close ns a ≡ done (ns', r))
          × IsConsistent ns' opens' denies'
    unfolding inode_close
    inode_close_lem o d =
        let (n, e, c) = open-node a v held in
        elim (Bool-cases (n.open_cnt == 1)) [
          | inl q ↦ (
            unlist ns a,
            freed_sectors n,
            with_node_lem ns a _ n e ∙ (rw q refl),
            unlist-IsConsistent (ground (arith, q, c.0, o)),
          )
          | inr q ↦ (
            put_node ns (record n { open_cnt = n.open_cnt - 1 }),
            [],
            with_node_lem ns a _ n e ∙ (rw q refl),
            put_node-IsConsistent n (record n { open_cnt = n.open_cnt - 1 }) e
                (node_at-address ns a n e) refl
                (omega (arith, c.0, o), c.1 ∙ sym d, ground (arith, q, c.0, o)),
          )
        ]
