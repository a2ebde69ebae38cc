-- ===== src/FdTable/Close.antt =====
-- Closing a descriptor: linuxpintos/src/threads/thread.c.
use tddb68_collab.Base.{
  ℕ, ◌+◌, ◌-◌, ◌<◌, ◌≡◌, ◌≢◌, true, Option, none, length, get_or, set, arith, length-set,
  get_or-set_self, ap, sym, ◌∙◌, subst,
}
use tddb68_collab.Base.Int.{ℤ, pos, negsuc, ◌-ℤ◌}
use tddb68_collab.FdTable.{
  File, FdTable, len_file_list, returns, get_file_from_fd, close_file_from_fd,
}
use tddb68_collab.FdTable.Descriptors.{IsAvailable, IsValid, get_in_range, get-set_ne}

-- What a close that returns true has done.
record Closed (t : FdTable) (fd : ℤ) (closed : Option File) (t' : FdTable) : Type 0 where
  index : ℕ
  in_range : index < len_file_list
  descriptor : fd ≡ pos (index + 2)
  was : closed ≡ get_or t.file_tracker index none
  next : t'.tracker_avail_ind ≡ pos index
  cleared : t'.file_tracker ≡ set t.file_tracker index none

close-Closed :
    (t t' : FdTable) (fd : ℤ) (closed : Option File)
    → close_file_from_fd t fd ≡ returns (true, closed, t')
    → Closed t fd closed t'
unfolding close_file_from_fd
close-Closed t t' (pos m) closed h = record {
  index = m - 2;
  in_range = ground arith;
  descriptor = ground arith;
  was = ground arith;
  next = ground arith;
  cleared = ground arith;
}
close-Closed t t' (negsuc m) closed h = absurd (ground arith)

-- Closing a descriptor of a valid table hands its file to `file_close`, frees the descriptor, leaves all others as
-- they were, keeps the table valid, and makes the freed slot the next to be used.
pub get-close :
    {t t' : FdTable} {fd : ℤ} {closed : Option File} (other : ℤ)
    → IsValid t
    → close_file_from_fd t fd ≡ returns (true, closed, t')
    → other ≢ fd
    → (get_file_from_fd t fd ≡ returns closed)
      × (get_file_from_fd t' fd ≡ returns none)
      × (get_file_from_fd t' other ≡ get_file_from_fd t other)
      × (t'.tracker_avail_ind ≡ fd -ℤ pos 2)
      × IsValid t'
get-close {t} {t'} {fd} {closed} other v h ne = rw c.descriptor (
  get_in_range t k c.in_range ∙ ap returns (sym c.was),
  get_in_range t' k c.in_range ∙ ap returns freed,
  get-set_ne t t' k none c.cleared other (ground arith),
  ground arith,
  record {
    size = omega (arith, ap length c.cleared, length-set t.file_tracker k none, v.size);
    available = subst (IsAvailable t'.file_tracker) (sym c.next) (c.in_range, freed);
  },
)
  where
    c : Closed t fd closed t'
    c = close-Closed t t' fd closed h

    k : ℕ
    k = c.index

    freed : get_or t'.file_tracker k none ≡ none
    freed =
        ap (λ l. get_or l k none) c.cleared
        ∙ get_or-set_self t.file_tracker k none none (omega (arith, v.size, c.in_range))
