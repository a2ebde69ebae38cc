-- ===== src/Opens/Sound.antt =====
-- What the calls of linuxpintos/src/filesys/file.c keep.
use tddb68_collab.Base.{
  ℕ, ◌+◌, ◌<◌, ◌≡◌, ◌⊎◌, Option, none, Option-cases, inl, inr, refl, sym, subst, ap, ◌∙◌, Bool,
  true, false, ◌&&◌, some, List, ◌∷◌, ◌++◌, ◌==◌, if◌then◌else◌, arith, Bool-cases,
}
use tddb68_collab.Base.Copies.{copies, copies-++}
use tddb68_collab.Inode.{InodeDisk}
use tddb68_collab.Opens.{
  Access, done, dangling, ◌>>=◌, Node, node_at, find_sector, open_found, inode_open, inode_reopen,
  OpenFile, inode_remove, file_open, file_reopen, file_close, file_deny_write, file_allow_write,
  inode_deny_write, inode_allow_write,
}
use tddb68_collab.Opens.Counts.{
  one_if, with_node-none, Counted-at, IsConsistent, inode_reopen_lem, inode_remove_lem,
  inode_deny_write_lem, inode_allow_write_lem, inode_close_lem,
}
use tddb68_collab.Opens.Opening.{IsFresh, inode_open-fresh}
use tddb68_collab.Opens.Calls.{
  opens_of, denies_of, opens_apart, denies_apart, denies_le, Files, add, with_new, Calls, finds,
  opens_found, opens_new, reopens, closes, denies, allows, removes, Reach, start, next, IsSound,
}

-- The call ends, and in a sound state.
abbrev Ends : Access Files → Type 0
Ends r = (s' : Files) × (r ≡ done s') × IsSound s'

IsConsistent-eq :
    {ns : List Node} {o d o' d' : ℕ → ℕ}
    → ((a : ℕ) → o' a ≡ o a)
    → ((a : ℕ) → d' a ≡ d a)
    → IsConsistent ns o d
    → IsConsistent ns o' d'
IsConsistent-eq eo ed v = record {
  unique = v.unique;
  counted = λ a. rw (eo a, ed a) (v.counted a);
  apart = v.apart;
}

module _ (ns : List Node) where
  allow-on :
      (ns' : List Node) (f : OpenFile)
      → f.deny_write ≡ true
      → inode_allow_write ns f.inode ≡ done ns'
      → file_allow_write ns f ≡ done (ns', record f { deny_write = false })
  unfolding file_allow_write
  allow-on ns' f q r =
      ap
        (λ b.
          if b
          then (inode_allow_write ns f.inode >>= λ ns''.
              done (ns'', record f { deny_write = false }))
          else done (ns, f))
        q
      ∙ ap (λ t. t >>= λ ns''. done (ns'', record f { deny_write = false })) r

  allow-off :
      (f : OpenFile)
      → f.deny_write ≡ false
      → file_allow_write ns f ≡ done (ns, record f { deny_write = false })
  unfolding file_allow_write
  allow-off f q =
      ap
        (λ b.
          if b
          then (inode_allow_write ns f.inode >>= λ ns''.
              done (ns'', record f { deny_write = false }))
          else done (ns, f))
        q
      ∙ (λ i. done (ns, record f { deny_write = q i }))

  deny-on :
      (f : OpenFile)
      → f.deny_write ≡ true
      → file_deny_write ns f ≡ done (ns, record f { deny_write = true })
  unfolding file_deny_write
  deny-on f q =
      ap
        (λ b.
          if b
          then done (ns, f)
          else (inode_deny_write ns f.inode >>= λ ns''.
              done (ns'', record f { deny_write = true })))
        q
      ∙ (λ i. done (ns, record f { deny_write = q i }))

  deny-off :
      (ns' : List Node) (f : OpenFile)
      → f.deny_write ≡ false
      → inode_deny_write ns f.inode ≡ done ns'
      → file_deny_write ns f ≡ done (ns', record f { deny_write = true })
  unfolding file_deny_write
  deny-off ns' f q r =
      ap
        (λ b.
          if b
          then done (ns, f)
          else (inode_deny_write ns f.inode >>= λ ns''.
              done (ns'', record f { deny_write = true })))
        q
      ∙ ap (λ t. t >>= λ ns''. done (ns'', record f { deny_write = true })) r

-- `file_open` on an inode that was opened once more for it.
file_open-Ends :
    (ns : List Node) (a : ℕ) (room : Bool) (fs : List OpenFile) (found : List ℕ)
    → IsConsistent ns (λ b. opens_of fs b + one_if (a == b)) (denies_of fs)
    → Ends (with_new (file_open ns (some a) room) fs found)
unfolding file_open add opens_of denies_of
file_open-Ends ns a true fs found v = (
  record {
    nodes = ns;
    files = record { inode = a; pos = 0; deny_write = false } ∷ fs;
    found = found;
  },
  refl,
  IsConsistent-eq (λ b. refl) (λ b. ground arith) v,
)
file_open-Ends ns a false fs found v =
    let (ns', r, e, w) =
      inode_close_lem a (opens_of fs) (denies_of fs) v (λ b t. (rw t (omega arith), refl))
        (ground arith) (ground arith) refl in
    (record { nodes = ns'; files = fs; found = found }, rw e refl, w)

module _ (s : Files) (before : List OpenFile) (f : OpenFile) (after : List OpenFile)
    (e : s.files ≡ before ++ (f ∷ after)) (v : IsSound s) where
  opens_now : (b : ℕ) → opens_of s.files b ≡ opens_of (before ++ after) b + one_if (f.inode == b)
  opens_now b = ap (λ l. opens_of l b) e ∙ opens_apart before f after b

  denies_now :
      (b : ℕ)
      → denies_of s.files b ≡ denies_of (before ++ after) b + one_if (f.inode == b && f.deny_write)
  denies_now b = ap (λ l. denies_of l b) e ∙ denies_apart before f after b

  held : 0 < opens_of s.files f.inode
  held = ground (arith, opens_now f.inode)

  removes-Ends : Ends (inode_remove s.nodes f.inode >>= λ ns. done (record s { nodes = ns }))
  removes-Ends =
      let (ns', r, w) =
        inode_remove_lem f.inode (opens_of s.files) (denies_of s.files) v (λ b t. (refl, refl)) held
          refl refl in
      (record s { nodes = ns' }, rw r refl, w)

  reopens-Ends : (room : Bool) → Ends (with_new (file_reopen s.nodes f room) s.files s.found)
  unfolding file_reopen
  reopens-Ends room =
      let (ns', r, w, _) =
        inode_reopen_lem f.inode (λ b. opens_of s.files b + one_if (f.inode == b))
          (denies_of s.files) v (λ b t. (rw t (omega arith), refl)) held (ground arith) refl in
      rw r (file_open-Ends ns' f.inode room s.files s.found w)

  -- The file after `file_deny_write` and `file_allow_write`.
  abbrev denying : Bool → OpenFile
  denying b = record f { deny_write = b }

  opens_flag : (b : Bool) (a : ℕ) → opens_of (before ++ (denying b ∷ after)) a ≡ opens_of s.files a
  opens_flag b a = opens_apart before (denying b) after a ∙ sym (opens_now a)

  denies_flag :
      (b : Bool) (a : ℕ)
      → denies_of (before ++ (denying b ∷ after)) a
        ≡ denies_of (before ++ after) a + one_if (f.inode == a && b)
  denies_flag b a = denies_apart before (denying b) after a

  unchanged :
      (b : Bool)
      → f.deny_write ≡ b
      → IsConsistent s.nodes
          (opens_of (before ++ (denying b ∷ after)))
          (denies_of (before ++ (denying b ∷ after)))
  unchanged b q =
      IsConsistent-eq (opens_flag b)
        (λ a.
          denies_flag b a
          ∙ ap (λ t. denies_of (before ++ after) a + one_if (f.inode == a && t)) (sym q)
          ∙ sym (denies_now a))
        v

  others_flag :
      (b : Bool) (a : ℕ)
      → (f.inode == a) ≡ false
      → (opens_of (before ++ (denying b ∷ after)) a ≡ opens_of s.files a)
        × (denies_of (before ++ (denying b ∷ after)) a ≡ denies_of s.files a)
  others_flag b a t =
      (opens_flag b a, (let x = denies_flag b a in let y = denies_now a in ground (arith, x, y, t)))

  allow_lem :
      (ns' : List Node) × (file_allow_write s.nodes f ≡ done (ns', denying false))
      × IsConsistent ns'
          (opens_of (before ++ (denying false ∷ after)))
          (denies_of (before ++ (denying false ∷ after)))
  unfolding file_allow_write
  allow_lem = elim (Bool-cases f.deny_write) [
    | inr q ↦ (s.nodes, allow-off s.nodes f q, unchanged false q)
    | inl q ↦
        (let now = denies_now f.inode in
          let flag = denies_flag false f.inode in
          let (ns', r, w) =
            inode_allow_write_lem f.inode (opens_of (before ++ (denying false ∷ after)))
              (denies_of (before ++ (denying false ∷ after))) v (others_flag false) held
              (opens_flag false f.inode) (ground (arith, now, flag, q))
              (denies_le s.files f.inode) in
          (ns', allow-on s.nodes ns' f q r, w))
  ]

  deny_lem :
      (ns' : List Node) × (file_deny_write s.nodes f ≡ done (ns', denying true))
      × IsConsistent ns'
          (opens_of (before ++ (denying true ∷ after)))
          (denies_of (before ++ (denying true ∷ after)))
  deny_lem = elim (Bool-cases f.deny_write) [
    | inl q ↦ (s.nodes, deny-on s.nodes f q, unchanged true q)
    | inr q ↦
        (let now = denies_now f.inode in
          let flag = denies_flag true f.inode in
          let few = denies_le (before ++ after) f.inode in
          let opened = opens_now f.inode in
          let (ns', r, w) =
            inode_deny_write_lem f.inode (opens_of (before ++ (denying true ∷ after)))
              (denies_of (before ++ (denying true ∷ after))) v (others_flag true) held
              (opens_flag true f.inode) (ground (arith, now, flag, q))
              (ground (arith, now, few, opened, q)) in
          (ns', deny-off s.nodes ns' f q r, w))
  ]

  close-Ends :
      Ends (
        file_close s.nodes f >>= λ (ns, _). done (record s { nodes = ns; files = before ++ after }))
  unfolding file_close
  close-Ends =
      let (ns', r, w) = allow_lem in
      let rest = before ++ after in
      let apart = λ (b : ℕ). opens_apart before (denying false) after b in
      let flags = λ (b : ℕ). denies_flag false b in
      let flag = flags f.inode in
      let own = apart f.inode in
      let (ns'', freed, r', w') =
        inode_close_lem f.inode (opens_of rest) (denies_of rest) w
          (λ b t.
            (let x = apart b in let y = flags b in (ground (arith, x, t), ground (arith, y, t))))
          (ground (arith, own)) (ground (arith, own)) (ground (arith, flag)) in
      (record s { nodes = ns''; files = rest }, rw (r, r') refl, w')

-- `inode_open` reopens an inode that is not open any more.
abbrev TooLate : Files → Access Files → Type 0
TooLate s r = (a : ℕ) × (0 < copies s.found a) × (node_at s.nodes a ≡ none) × (r ≡ dangling)

reopen-dangling : (ns : List Node) (a : ℕ) → node_at ns a ≡ none → inode_reopen ns a ≡ dangling
unfolding inode_reopen
reopen-dangling ns a q = with_node-none ns a _ q

found-Ends :
    (s : Files) (before : List ℕ) (a : ℕ) (after : List ℕ) (sector : ℕ) (memory : Option ℕ)
    (contents : InodeDisk) (room : Bool)
    → s.found ≡ before ++ (a ∷ after)
    → IsSound s
    → let r = open_found s.nodes (some a) sector memory contents >>= λ (ns, i).
        with_new (file_open ns i room) s.files (before ++ after) in
      Ends r ⊎ TooLate s r
unfolding open_found copies
found-Ends s before a after sector memory contents room e v =
    elim (Option-cases (node_at s.nodes a)) [
      | inl q ↦ inr (
        a,
        found-copies,
        q,
        ap
            (λ t. (t >>= λ ns. done (ns, some a)) >>= λ (ns, i).
              with_new (file_open ns i room) s.files (before ++ after))
            (reopen-dangling s.nodes a q),
      )
      | inr (n, q) ↦
          let c =
            Counted-at (node_at s.nodes a) n (opens_of s.files a) (denies_of s.files a) q
              (v.counted a) in
          let (ns', r, w, _) =
            inode_reopen_lem a (λ b. opens_of s.files b + one_if (a == b)) (denies_of s.files) v
              (λ b t. (rw t (omega arith), refl)) c.2 (ground arith) refl in
          inl (rw r (file_open-Ends ns' a room s.files (before ++ after) w))
    ]
  where
    found-copies : 0 < copies s.found a
    found-copies =
        let split = ap (λ l. copies l a) e ∙ copies-++ before (a ∷ after) a in ground (arith, split)

new-Ends :
    (s : Files) (sector : ℕ) (memory : Option ℕ) (contents : InodeDisk) (room : Bool)
    → find_sector s.nodes sector ≡ none
    → IsFresh s.nodes memory
    → IsSound s
    → Ends (
        open_found s.nodes none sector memory contents >>= λ (ns, i).
        with_new (file_open ns i room) s.files s.found)
unfolding file_open add inode_open
new-Ends s sector memory contents room none_open fresh v =
    subst (λ t. Ends (t >>= λ (ns, i). with_new (file_open ns i room) s.files s.found))
      (ap (λ o. open_found s.nodes o sector memory contents) none_open)
      (elim (inode_open-fresh sector memory contents v
        (λ a z. (let few = denies_le s.files a in omega (arith, few, z))) fresh none_open) [
          | inl q ↦ (s, rw q refl, v)
          | inr (ns', a, q, w, m, at, t) ↦ rw q (file_open-Ends ns' a room s.files s.found w)
        ])

-- Every call ends in a sound state, or is too late.
Calls-Ends : {s : Files} {r : Access Files} → Calls s r → IsSound s → Ends r ⊎ TooLate s r
Calls-Ends {s} (finds sector a q) v = inl (record s { found = a ∷ s.found }, refl, v)
Calls-Ends {s} (opens_found before a after sector memory contents room e) v =
    found-Ends s before a after sector memory contents room e v
Calls-Ends {s} (opens_new sector memory contents room none_open fresh) v =
    inl (new-Ends s sector memory contents room none_open fresh v)
Calls-Ends {s} (reopens before f after room e) v = inl (reopens-Ends s before f after e v room)
Calls-Ends {s} (closes before f after e) v = inl (close-Ends s before f after e v)
Calls-Ends {s} (denies before f after e) v =
    let (ns', r, w) = deny_lem s before f after e v in
    inl (
      record s { nodes = ns'; files = before ++ (record f { deny_write = true } ∷ after) },
      rw r refl,
      w,
    )
Calls-Ends {s} (allows before f after e) v =
    let (ns', r, w) = allow_lem s before f after e v in
    inl (
      record s { nodes = ns'; files = before ++ (record f { deny_write = false } ∷ after) },
      rw r refl,
      w,
    )
Calls-Ends {s} (removes before f after e) v = inl (removes-Ends s before f after e v)

done_inj : {x y : Files} → done x ≡ done y → x ≡ y
done_inj q = cc

pub Reach-IsSound : {s : Files} → Reach s → IsSound s
unfolding opens_of denies_of node_at
Reach-IsSound start = record { unique = tt; counted = λ a. refl; apart = λ a b n m p q t. cc }
Reach-IsSound (next s' r c q) = elim (Calls-Ends c (Reach-IsSound r)) [
  | inl (t, p, v) ↦ subst IsSound (done_inj (sym p ∙ q)) v
  | inr (a, _, _, late) ↦ absurd (let both = sym q ∙ late in cc)
]
