-- ===== src/Opens/Opening.antt =====
-- Opening an inode: linuxpintos/src/filesys/inode.c.
use tddb68_collab.Base.{
  ℕ, ◌+◌, ◌≡◌, ◌⊎◌, inl, inr, refl, sym, subst, ap, ◌∙◌, true, false, Option, none, some, List, ◌∷◌,
  ◌==◌, arith, Bool-cases, Option-cases,
}
use tddb68_collab.Inode.{InodeDisk}
use tddb68_collab.Opens.{done, ◌>>=◌, Node, node_at, find_sector, open_found, inode_open}
use tddb68_collab.Opens.Nodes.{if_some, find_sector-none, find_sector-some}
use tddb68_collab.Opens.Counts.{one_if, Counted, Counted-at, IsConsistent, inode_reopen_lem}

-- `malloc` returned memory that no open inode is in.
abbrev pub IsFresh : List Node → Option ℕ → Type 0
IsFresh ns none = Unit
IsFresh ns (some a) = node_at ns a ≡ none

-- An inode that is put at the front of the list.
module _ {ns : List Node} {opens denies : ℕ → ℕ} (v : IsConsistent ns opens denies) (m : Node)
    (fresh : node_at ns m.address ≡ none)
    (other : (b : ℕ) (n : Node) → node_at ns b ≡ some n → (n.sector == m.sector) ≡ false) where
  cons-apart :
      (a b : ℕ) (n k : Node)
      → node_at (m ∷ ns) a ≡ some n
      → node_at (m ∷ ns) b ≡ some k
      → n.sector ≡ k.sector
      → a ≡ b
  unfolding node_at
  cons-apart a b n k p q s = elim (if_some (m.address == a) m n (node_at ns a) p) [
    | inl (ea, na) ↦ (elim (if_some (m.address == b) m k (node_at ns b) q) [
      | inl (eb, nb) ↦ ground (arith, ea, eb)
      | inr (eb, kb) ↦
          (let no = other b k kb in
            let same = ap (λ (t : Node). t.sector) na ∙ s in absurd (ground (arith, no, same)))
    ])
    | inr (ea, na) ↦ (elim (if_some (m.address == b) m k (node_at ns b) q) [
      | inl (eb, nb) ↦
          (let no = other a n na in
            let same = ap (λ (t : Node). t.sector) nb ∙ sym s in absurd (ground (arith, no, same)))
      | inr (eb, kb) ↦ v.apart a b n k na kb s
    ])
  ]

  cons-IsConsistent :
      (opens' denies' : ℕ → ℕ)
      → ((b : ℕ) → (m.address == b) ≡ false → (opens' b ≡ opens b) × (denies' b ≡ denies b))
      → Counted (some m) (opens' m.address) (denies' m.address)
      → IsConsistent (m ∷ ns) opens' denies'
  unfolding node_at
  cons-IsConsistent opens' denies' others c = record {
    unique = (fresh, v.unique);
    counted = λ b. (elim (Bool-cases (m.address == b)) [
      | inl t ↦
          (let here : m.address ≡ b = ground (arith, t) in
            rw t (subst (λ u. Counted (some m) (opens' u) (denies' u)) here c))
      | inr t ↦ (let (o, d) = others b t in rw (t, o, d) (v.counted b))
    ]);
    apart = cons-apart;
  }

-- How `inode_open` ends: without memory, or with one more opener of the inode of that sector.
abbrev pub Opened :
    List Node → (opens denies : ℕ → ℕ) → (sector : ℕ) → (memory : Option ℕ) → InodeDisk → Type 0
Opened ns opens denies sector memory contents =
    (inode_open ns sector memory contents ≡ done (ns, none))
    ⊎ ((ns' : List Node) × (a : ℕ) × (inode_open ns sector memory contents ≡ done (ns', some a))
        × IsConsistent ns' (λ b. opens b + one_if (a == b)) denies
        × (n : Node) × (node_at ns' a ≡ some n)
        × (n.sector ≡ sector))

-- `inode_open` of a sector that is not open.
pub inode_open-fresh :
    {ns : List Node} {opens denies : ℕ → ℕ} (sector : ℕ) (memory : Option ℕ) (contents : InodeDisk)
    → IsConsistent ns opens denies
    → ((a : ℕ) → opens a ≡ 0 → denies a ≡ 0)
    → IsFresh ns memory
    → find_sector ns sector ≡ none
    → Opened ns opens denies sector memory contents
unfolding inode_open node_at
inode_open-fresh {ns} {opens} {denies} sector none contents v quiet fresh q =
    inl (ap (λ o. open_found ns o sector none contents) q)
inode_open-fresh {ns} {opens} {denies} sector (some a) contents v quiet fresh q =
    let m : Node = record {
      address = a;
      sector = sector;
      open_cnt = 1;
      removed = false;
      contents = contents;
      deny_write_cnt = 0;
    } in
    let unopened : opens a ≡ 0 = subst (λ t. Counted t (opens a) (denies a)) fresh (v.counted a) in
    let own : (a == a) ≡ true = ground arith in
    inr (
      m ∷ ns,
      a,
      ap (λ o. open_found ns o sector (some a) contents) q,
      cons-IsConsistent v m fresh (λ b n e. find_sector-none ns sector b n q e)
          (λ b. opens b + one_if (a == b)) denies (λ b t. (rw t (omega arith), refl))
          (ground (arith, unopened), sym (quiet a unopened), ground arith),
      m,
      rw own refl,
      refl,
    )

pub inode_open_lem :
    {ns : List Node} {opens denies : ℕ → ℕ} (sector : ℕ) (memory : Option ℕ) (contents : InodeDisk)
    → IsConsistent ns opens denies
    → ((a : ℕ) → opens a ≡ 0 → denies a ≡ 0)
    → IsFresh ns memory
    → (inode_open ns sector memory contents ≡ done (ns, none))
      ⊎ ((ns' : List Node) × (a : ℕ) × (inode_open ns sector memory contents ≡ done (ns', some a))
          × IsConsistent ns' (λ b. opens b + one_if (a == b)) denies
          × (n : Node) × (node_at ns' a ≡ some n)
          × (n.sector ≡ sector))
unfolding inode_open
inode_open_lem {ns} {opens} {denies} sector memory contents v quiet fresh =
    elim (Option-cases (find_sector ns sector)) [
      | inr (a, q) ↦
          (let (n, e, s) = find_sector-some ns sector a v.unique q in
            let c = Counted-at (node_at ns a) n (opens a) (denies a) e (v.counted a) in
            let (ns', r, w, same) =
              inode_reopen_lem a (λ b. opens b + one_if (a == b)) denies v
                (λ b t. (rw t (omega arith), refl)) c.2 (ground arith) refl in
            let (m, at, t) = same n e in
            inr (
              ns',
              a,
              ap (λ o. open_found ns o sector memory contents) q
                  ∙ ap (λ t. t >>= λ u. done (u, some a)) r,
              w,
              m,
              at,
              t ∙ s,
            ))
      | inl q ↦ inode_open-fresh sector memory contents v quiet fresh q
    ]
