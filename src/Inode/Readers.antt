-- ===== src/Inode/Readers.antt =====
-- The readers and writers of an inode: the semaphores `r_sema` and `w_sema` and the counter `n_readers` in
-- linuxpintos/src/filesys/inode.c. The loops that copy are the phases `reading` and `writing`. A thread that is blocked
-- in `sema_down` may take another round of it at any time, whether it was woken or not.
pub mod Invariant
pub mod Exclusion
use tddb68_collab.Base.{
  ℕ, ◌+◌, ◌-◌, Bool, true, false, List, [], ◌∷◌, ◌++◌, ◌==◌, if◌then◌else◌, ◌≡◌, length, replicate,
}
use tddb68_collab.Synch.{Semaphore, sema_init, sema_down, sema_up}

-- The fields of `struct inode` that its readers and writers share.
pub record Gate : Type 0 where
  pub r_sema : Semaphore
  pub w_sema : Semaphore
  pub n_readers : ℕ

-- `inode_open`
unfoldable pub new_gate : Gate
unfolding sema_init
new_gate = record { r_sema = sema_init 1; w_sema = sema_init 1; n_readers = 0 }

-- What a thread does next, from the first statement of `inode_read_at` or `inode_write_at` on.
pub data Phase : Type 0 where
  outside : Phase
  wants_read : Phase
  first_test : Phase
  wants_gate : Phase
  counting : Phase
  counted : Phase
  reading : Phase
  leaving : Phase
  last_test : Phase
  opening : Phase
  closing : Phase
  wants_write : Phase
  writing : Phase

abbrev pub down_r : Gate → (cur : ℕ) → (waits passes : Phase) → Gate × Phase
down_r g cur waits passes =
    let (s, passed) = sema_down g.r_sema cur in
    (record g { r_sema = s }, if passed then passes else waits)

abbrev pub down_w : Gate → (cur : ℕ) → (waits passes : Phase) → Gate × Phase
down_w g cur waits passes =
    let (s, passed) = sema_down g.w_sema cur in
    (record g { w_sema = s }, if passed then passes else waits)

-- The statement that thread `cur` is at, and where it goes on. `reading` ends with the round of `sema_down` behind the
-- loop.
unfoldable pub advance : Gate → (cur : ℕ) → Phase → Gate × Phase
unfolding sema_down sema_up
advance g cur outside = (g, outside)
advance g cur wants_read = down_r g cur wants_read first_test
advance g cur first_test = (g, if g.n_readers == 0 then wants_gate else counting)
advance g cur wants_gate = down_w g cur wants_gate counting
advance g cur counting = (record g { n_readers = g.n_readers + 1 }, counted)
advance g cur counted = (record g { r_sema = (sema_up g.r_sema).0 }, reading)
advance g cur reading = down_r g cur reading leaving
advance g cur leaving = (record g { n_readers = g.n_readers - 1 }, last_test)
advance g cur last_test = (g, if g.n_readers == 0 then opening else closing)
advance g cur opening = (record g { w_sema = (sema_up g.w_sema).0 }, closing)
advance g cur closing = (record g { r_sema = (sema_up g.r_sema).0 }, outside)
advance g cur wants_write = down_w g cur wants_write writing
advance g cur writing = (record g { w_sema = (sema_up g.w_sema).0 }, outside)

pub record System : Type 0 where
  pub gate : Gate
  pub threads : List Phase

pub data Step (s : System) : System → Type 0 where
  goes :
      (before : List Phase) (p : Phase) (after : List Phase)
      → s.threads ≡ before ++ (p ∷ after)
      → Step s (record {
        gate = (advance s.gate (length before) p).0;
        threads = before ++ ((advance s.gate (length before) p).1 ∷ after);
      })
  reads :
      (before after : List Phase)
      → s.threads ≡ before ++ (outside ∷ after)
      → Step s (record s { threads = before ++ (wants_read ∷ after) })
  writes :
      (before after : List Phase)
      → s.threads ≡ before ++ (outside ∷ after)
      → Step s (record s { threads = before ++ (wants_write ∷ after) })

-- Any number of threads, from the time when the inode was opened.
pub data Reach : System → Type 0 where
  start : (n : ℕ) → Reach (record { gate = new_gate; threads = replicate n outside })
  next : {s s' : System} → Reach s → Step s s' → Reach s'
