-- ===== src/Wait/Users.antt =====
-- Who uses the relation of a parent and its children, and when it is freed: `alive_count` in
-- linuxpintos/src/userprog/process.c. `start_process` counts a child while its parent waits in `process_execute` for
-- it. The increment there is under no lock, the decrement in `process_exit` under `alive_lock`; each is a load and a store,
-- between which other threads run. `lost_update` of Tests has a child that is counted between the two of a decrement.
use tddb68_collab.Base.{
  ℕ, ◌+◌, ◌-◌, ◌<◌, ◌≡◌, refl, Bool, true, false, ◌||◌, Option, none, some, List, [], ◌∷◌, ◌++◌,
  length, ◌==◌, ◌∙◌, ap, sym, arith, length-append,
}
use tddb68_collab.Base.Copies.{copies}

-- `alive_count` of `struct thread_relation`, whether the relation was freed, and the threads that are counted and have
-- not let go; the values that an increment and that a decrement have loaded and not stored yet; and whether an increment
-- and a decrement have overlapped.
pub record Shared : Type 0 where
  pub alive_count : ℕ
  pub is_freed : Bool
  pub users : List ℕ
  pub loaded : Option ℕ
  pub dropping : Option ℕ
  pub disturbed : Bool

abbrev pub is_loaded : Option ℕ → Bool
is_loaded none = false
is_loaded (some n) = true

-- `thread_create` for the parent.
unfoldable pub new_relation : (parent : ℕ) → Shared
new_relation parent = record {
  alive_count = 1;
  is_freed = false;
  users = parent ∷ [];
  loaded = none;
  dropping = none;
  disturbed = false;
}

-- `start_process` of a child: the load and the store of `alive_count += 1`.
unfoldable pub load_count : Shared → Shared
load_count s = record s {
  loaded = some s.alive_count;
  disturbed = s.disturbed || is_loaded s.dropping;
}

unfoldable pub count_child : Shared → (value child : ℕ) → Shared
count_child s value child = record s {
  alive_count = value + 1;
  users = child ∷ s.users;
  loaded = none;
  disturbed = s.disturbed || is_loaded s.dropping;
}

-- The decrement in `process_exit`, of the relation with the parent and of that with the children alike: the load, after
-- the thread has taken `alive_lock`, and the store with the test after it; the users that stay are given.
unfoldable pub load_drop : Shared → Shared
load_drop s = record s {
  dropping = some s.alive_count;
  disturbed = s.disturbed || is_loaded s.loaded;
}

unfoldable pub leave_relation : Shared → (value : ℕ) → (others : List ℕ) → Shared
leave_relation s value others =
    let count = value - 1 in
    record s {
      alive_count = count;
      is_freed = s.is_freed || (count == 0);
      users = others;
      dropping = none;
      disturbed = s.disturbed || is_loaded s.loaded;
    }

-- Which thread touches the relation, and what it does. A parent is blocked in `process_execute` while a child loads and
-- stores, so no two children do at once, and `alive_lock` keeps two decrements apart. A thread that is counted also uses the other fields, as in `process_wait` and at
-- the start of `process_exit`.
pub data Touch (parent : ℕ) (s : Shared) : (t : ℕ) → Shared → Type 0 where
  loads :
      (child : ℕ)
      → 0 < copies s.users parent
      → s.loaded ≡ none
      → Touch parent s child (load_count s)
  stores :
      (child value : ℕ) → s.loaded ≡ some value → Touch parent s child (count_child s value child)
  uses : (t : ℕ) → 0 < copies s.users t → Touch parent s t s
  drops : (t : ℕ) → 0 < copies s.users t → s.dropping ≡ none → Touch parent s t (load_drop s)
  leaves :
      (before : List ℕ) (t : ℕ) (after : List ℕ) (value : ℕ)
      → s.users ≡ before ++ (t ∷ after)
      → s.dropping ≡ some value
      → Touch parent s t (leave_relation s value (before ++ after))

-- What `thread_create` and any number of touches lead to.
pub data Reach (parent : ℕ) : Shared → Type 0 where
  created : Reach parent (new_relation parent)
  touched : {s s' : Shared} {t : ℕ} → Reach parent s → Touch parent s t s' → Reach parent s'

abbrev pub nobody : List ℕ → Bool
nobody [] = true
nobody (t ∷ ts) = false

record IsCounted (s : Shared) : Type 0 where
  count : s.alive_count ≡ length s.users
  freed : s.is_freed ≡ nobody s.users
  fresh : (value : ℕ) → s.loaded ≡ some value → (value ≡ s.alive_count) × (nobody s.users ≡ false)
  dropped : (value : ℕ) → s.dropping ≡ some value → value ≡ s.alive_count

nobody-length : (ts : List ℕ) → (length ts == 0) ≡ nobody ts
nobody-length [] = refl
nobody-length (t ∷ ts) = ground arith

somebody : (p : ℕ) (ts : List ℕ) → 0 < copies ts p → nobody ts ≡ false
unfolding copies
somebody p [] here = ground arith
somebody p (t ∷ ts) here = refl

nobody_middle : (before : List ℕ) (t : ℕ) (after : List ℕ) → nobody (before ++ (t ∷ after)) ≡ false
nobody_middle [] t after = refl
nobody_middle (b ∷ before) t after = refl

-- What was disturbed stays so.
Touch-disturbed :
    {parent t : ℕ} {s s' : Shared}
    → Touch parent s t s'
    → s'.disturbed ≡ false
    → s.disturbed ≡ false
unfolding load_count count_child load_drop leave_relation
Touch-disturbed (loads child here none_yet) q = ground (arith, q)
Touch-disturbed (stores child value e) q = ground (arith, q)
Touch-disturbed (uses t here) q = q
Touch-disturbed (drops t here free) q = ground (arith, q)
Touch-disturbed (leaves before t after value e d) q = ground (arith, q)

Touch-IsCounted :
    {parent t : ℕ} {s s' : Shared}
    → Touch parent s t s'
    → s'.disturbed ≡ false
    → IsCounted s
    → IsCounted s'
unfolding load_count count_child load_drop leave_relation copies
Touch-IsCounted {parent} {t} {s} (loads child here none_yet) q v = record {
  count = v.count;
  freed = v.freed;
  fresh =
      λ value e. (let same : s.alive_count ≡ value = cc in sym same, somebody parent s.users here);
  dropped = v.dropped;
}
Touch-IsCounted {parent} {t} {s} (stores child value e) q v =
    let (same, some_user) = v.fresh value e in
    record {
      count = omega (arith, same, v.count);
      freed = v.freed ∙ some_user;
      fresh = λ w none_now. absurd cc;
      dropped = λ w now. absurd (
          let quiet : is_loaded s.dropping ≡ false = ground (arith, q) in
          let loud = ap is_loaded now in cc);
    }
Touch-IsCounted (uses t here) q v = v
Touch-IsCounted {parent} {t} {s} (drops u here free) q v =
    let quiet : is_loaded s.loaded ≡ false = ground (arith, q) in
    record {
      count = v.count;
      freed = v.freed;
      fresh = λ value now. absurd (let loud = ap is_loaded now in cc);
      dropped = λ value e. (let same : s.alive_count ≡ value = cc in sym same);
    }
Touch-IsCounted {parent} {t} {s} (leaves before u after value e d) q v =
    let held = v.dropped value d in
    let one = v.count ∙ ap length e ∙ length-append before (u ∷ after) in
    let rest = length-append before after in
    let left : value - 1 ≡ length (before ++ after) = omega (arith, one, rest, held) in
    let quiet : is_loaded s.loaded ≡ false = ground (arith, q) in
    record {
      count = left;
      freed =
          ap (λ b. b || (value - 1 == 0)) (v.freed ∙ ap nobody e ∙ nobody_middle before u after)
          ∙ ap (λ n. n == 0) left
          ∙ nobody-length (before ++ after);
      fresh = λ w now. absurd (let loud = ap is_loaded now in cc);
      dropped = λ w now. absurd cc;
    }

-- The thread touches a relation that some thread is counted in.
Touch-used :
    {parent t : ℕ} {s s' : Shared} → Touch parent s t s' → IsCounted s → nobody s.users ≡ false
Touch-used {parent} {s = s} (loads child here none_yet) v = somebody parent s.users here
Touch-used (stores child value e) v = (v.fresh value e).1
Touch-used {s = s} (uses t here) v = somebody t s.users here
Touch-used {s = s} (drops t here free) v = somebody t s.users here
Touch-used (leaves before t after value e d) v = ap nobody e ∙ nobody_middle before t after

Reach-IsCounted : {parent : ℕ} {s : Shared} → Reach parent s → s.disturbed ≡ false → IsCounted s
unfolding new_relation
Reach-IsCounted created q = record {
  count = refl;
  freed = refl;
  fresh = λ value e. absurd cc;
  dropped = λ value e. absurd cc;
}
Reach-IsCounted (touched r touch) q =
    Touch-IsCounted touch q (Reach-IsCounted r (Touch-disturbed touch q))

-- However a parent and its children, each started while the parent is counted, use their relation and let go of it, as
-- long as no increment of `alive_count` overlaps with a decrement: no thread uses the relation after it was freed, and
-- after each use `alive_count` is the number of the threads that are counted and have not let go, and the relation is
-- freed exactly if there is none.
pub no_use_after_free :
    {parent t : ℕ} {s s' : Shared}
    → Reach parent s
    → Touch parent s t s'
    → s'.disturbed ≡ false
    → (s.is_freed ≡ false) × ((s'.alive_count ≡ length s'.users) × (s'.is_freed ≡ nobody s'.users))
no_use_after_free r touch q =
    let before = Reach-IsCounted r (Touch-disturbed touch q) in
    let after = Touch-IsCounted touch q before in
    (before.freed ∙ Touch-used touch before, (after.count, after.freed))
