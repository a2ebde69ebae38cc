-- ===== src/Inode/Readers/Invariant.antt =====
-- What every step of the readers and writers of an inode keeps: linuxpintos/src/filesys/inode.c.
use tddb68_collab.Base.{
  ℕ, zero, suc, ◌+◌, ◌≤◌, ◌<◌, ◌≡◌, refl, sym, subst, List, [], ◌∷◌, ◌++◌, ltb, if◌then◌else◌,
  arith, replicate, length,
}
use tddb68_collab.Synch.{sema_init}
use tddb68_collab.Inode.Readers.{
  Gate, new_gate, Phase, outside, wants_read, first_test, wants_gate, counting, counted, reading,
  leaving, last_test, opening, closing, wants_write, writing, advance, System, Step, goes, reads,
  writes, Reach, start, next,
}

-- Behind `r_sema`.
abbrev pub in_section : Phase → ℕ
in_section first_test = 1
in_section wants_gate = 1
in_section counting = 1
in_section counted = 1
in_section leaving = 1
in_section last_test = 1
in_section opening = 1
in_section closing = 1
in_section p = 0

-- In `n_readers`.
abbrev pub is_counted : Phase → ℕ
is_counted counted = 1
is_counted reading = 1
is_counted leaving = 1
is_counted p = 0

-- Holds `w_sema` for the readers while the counter does not tell it.
abbrev pub is_holding : Phase → ℕ
is_holding counting = 1
is_holding last_test = 1
is_holding opening = 1
is_holding p = 0

-- Has seen that there is no reader.
abbrev pub saw_none : Phase → ℕ
saw_none wants_gate = 1
saw_none opening = 1
saw_none p = 0

abbrev pub is_writing : Phase → ℕ
is_writing writing = 1
is_writing p = 0

abbrev pub sum : (Phase → ℕ) → List Phase → ℕ
sum f [] = 0
sum f (p ∷ ps) = f p + sum f ps

sum-++ : (f : Phase → ℕ) (ps qs : List Phase) → sum f (ps ++ qs) ≡ sum f ps + sum f qs
sum-++ f [] qs = omega arith
sum-++ f (p ∷ ps) qs = omega (arith, sum-++ f ps qs)

sum_mono : (f g : Phase → ℕ) (ps : List Phase) → ((p : Phase) → f p ≤ g p) → sum f ps ≤ sum g ps
sum_mono f g [] h = omega arith
sum_mono f g (p ∷ ps) h = omega (arith, h p, sum_mono f g ps h)

holding_behind : (p : Phase) → is_holding p ≤ in_section p
holding_behind counting = omega arith
holding_behind last_test = omega arith
holding_behind opening = omega arith
holding_behind p = omega arith

saw_behind : (p : Phase) → saw_none p ≤ in_section p
saw_behind wants_gate = omega arith
saw_behind opening = omega arith
saw_behind p = omega arith

-- The invariant, on the numbers of threads in the phases.
pub record Holds (g : Gate) (section counted holding none writing : ℕ) : Type 0 where
  pub r_section : g.r_sema.value + section ≡ 1
  pub readers : g.n_readers ≡ counted
  pub w_taken : g.w_sema.value + writing + (if ltb 0 (counted + holding) then 1 else 0) ≡ 1
  pub unread : 0 < none → g.n_readers ≡ 0

-- A thread that goes on, among others.
advance-Holds :
    (g : Gate) (cur : ℕ) (p : Phase) (section counted holding none writing : ℕ)
    → holding ≤ section
    → none ≤ section
    → Holds g
        (section + in_section p)
        (counted + is_counted p)
        (holding + is_holding p)
        (none + saw_none p)
        (writing + is_writing p)
    → Holds
        (advance g cur p).0
        (section + in_section (advance g cur p).1)
        (counted + is_counted (advance g cur p).1)
        (holding + is_holding (advance g cur p).1)
        (none + saw_none (advance g cur p).1)
        (writing + is_writing (advance g cur p).1)
unfolding advance
advance-Holds g cur outside a b c d e h k v = v
advance-Holds g cur wants_read a b c d e h k v = ground (arith, v.unread)
advance-Holds g cur first_test a b c d e h k v = ground (arith, v.unread)
advance-Holds g cur wants_gate a b c d e h k v = ground (arith, v.unread)
advance-Holds g cur counting a b c d e h k v = ground (arith, v.unread)
advance-Holds g cur counted a b c d e h k v = ground (arith, v.unread)
advance-Holds g cur reading a b c d e h k v = ground (arith, v.unread)
advance-Holds g cur leaving a b c d e h k v = ground (arith, v.unread)
advance-Holds g cur last_test a b c d e h k v = ground (arith, v.unread)
advance-Holds g cur opening a b c d e h k v = ground (arith, v.unread)
advance-Holds g cur closing a b c d e h k v = ground (arith, v.unread)
advance-Holds g cur wants_write a b c d e h k v = ground (arith, v.unread)
advance-Holds g cur writing a b c d e h k v = ground (arith, v.unread)

-- The number of threads with a mark, one of them apart.
sum_apart :
    (f : Phase → ℕ) (before : List Phase) (p : Phase) (after : List Phase)
    → sum f (before ++ (p ∷ after)) ≡ sum f (before ++ after) + f p
sum_apart f before p after = omega (arith, sum-++ f before (p ∷ after), sum-++ f before after)

abbrev pub Keeps : Gate → List Phase → Type 0
Keeps g ps =
    Holds g (sum in_section ps) (sum is_counted ps) (sum is_holding ps) (sum saw_none ps)
      (sum is_writing ps)

-- `Keeps` of threads with one apart.
abbrev Apart : Gate → List Phase → Phase → Type 0
Apart g ps p =
    Holds g (sum in_section ps + in_section p) (sum is_counted ps + is_counted p)
      (sum is_holding ps + is_holding p) (sum saw_none ps + saw_none p)
      (sum is_writing ps + is_writing p)

Keeps-eq-Apart :
    (g : Gate) (before : List Phase) (p : Phase) (after : List Phase)
    → Keeps g (before ++ (p ∷ after)) ≡ Apart g (before ++ after) p
Keeps-eq-Apart g before p after =
    rw
      (
        sum_apart in_section before p after,
        sum_apart is_counted before p after,
        sum_apart is_holding before p after,
        sum_apart saw_none before p after,
        sum_apart is_writing before p after,
      )
      refl

-- Replacing the phase of one thread.
replace-Keeps :
    (g g' : Gate) (ps before : List Phase) (p q : Phase) (after : List Phase)
    → ps ≡ before ++ (p ∷ after)
    → (Apart g (before ++ after) p → Apart g' (before ++ after) q)
    → Keeps g ps
    → Keeps g' (before ++ (q ∷ after))
replace-Keeps g g' ps before p q after e f v =
    subst (λ A. A) (sym (Keeps-eq-Apart g' before q after))
      (f (subst (λ A. A) (Keeps-eq-Apart g before p after) (subst (Keeps g) e v)))

pub Step-Keeps : {s s' : System} → Step s s' → Keeps s.gate s.threads → Keeps s'.gate s'.threads
Step-Keeps {s} (goes before p after e) v =
    let rest = before ++ after in
    replace-Keeps s.gate (advance s.gate (length before) p).0 s.threads before p
      (advance s.gate (length before) p).1 after e
      (advance-Holds s.gate (length before) p (sum in_section rest) (sum is_counted rest)
        (sum is_holding rest) (sum saw_none rest) (sum is_writing rest)
        (sum_mono is_holding in_section rest holding_behind)
        (sum_mono saw_none in_section rest saw_behind))
      v
Step-Keeps {s} (reads before after e) v =
    replace-Keeps s.gate s.gate s.threads before outside wants_read after e (λ h. h) v
Step-Keeps {s} (writes before after e) v =
    replace-Keeps s.gate s.gate s.threads before outside wants_write after e (λ h. h) v

sum-replicate : (f : Phase → ℕ) (n : ℕ) → f outside ≡ 0 → sum f (replicate n outside) ≡ 0
sum-replicate f zero h = refl
sum-replicate f (suc n) h = omega (arith, h, sum-replicate f n h)

pub Reach-Keeps : {s : System} → Reach s → Keeps s.gate s.threads
unfolding new_gate sema_init
Reach-Keeps (start n) =
    rw
      (
        sum-replicate in_section n refl,
        sum-replicate is_counted n refl,
        sum-replicate is_holding n refl,
        sum-replicate saw_none n refl,
        sum-replicate is_writing n refl,
      )
      (omega arith)
Reach-Keeps (next r t) = Step-Keeps t (Reach-Keeps r)
