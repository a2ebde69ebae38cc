-- ===== src/Intq/Queue.antt =====
-- The queue of bytes as a list of at most 63: linuxpintos/src/devices/intq.c.
use tddb68_collab.Base.{
  ℕ, zero, suc, ◌+◌, ◌-◌, ◌%◌, ◌<◌, ◌≡◌, ◌≢◌, ◌⊎◌, refl, sym, ap, ◌∙◌, Bool, true, false, ◌||◌,
  none, some, List, [], ◌∷◌, ◌++◌, length, get_or, set, drop, ◌==◌, if◌then◌else◌, arith,
  Bool-cases, inl, inr, length-append, length-set, get_or-set_self, get_or-set_ne,
}
use tddb68_collab.Base.Kernel.{runs, panics}
use tddb68_collab.Synch.{lock_held_by, lock_acquire, sema_down}
use tddb68_collab.Intq.{
  intq_bufsize, Intq, intq_init, next, intq_empty, intq_full, through, blocks, queues, acquire,
  wait_for_byte, wait_for_room, wait_not_empty, wait_not_full, signal_not_empty, signal_not_full,
  intq_getc, intq_putc,
}

-- The bytes in `n` places from `tail` on, around the end of the buffer.
unfoldable pub from : (buf : List ℕ) → (n tail : ℕ) → List ℕ
from buf zero tail = []
from buf (suc n) tail = let rest = from buf n (next tail) in get_or buf tail 0 ∷ rest

-- The queue holds the bytes of a list, the oldest first.
pub record Holds (q : Intq) (bytes : List ℕ) : Type 0 where
  pub size : length q.buf ≡ intq_bufsize
  pub room : length bytes < intq_bufsize
  pub tail_in : q.tail < intq_bufsize
  pub head_at : q.head ≡ (q.tail + length bytes) % intq_bufsize
  pub content : bytes ≡ from q.buf (length bytes) q.tail

init-Holds : (buf : List ℕ) → length buf ≡ intq_bufsize → Holds (intq_init buf) []
unfolding intq_init from
init-Holds buf h = record {
  size = h;
  room = omega arith;
  tail_in = omega arith;
  head_at = refl;
  content = refl;
}

pub empty_lem : (q : Intq) (bytes : List ℕ) → Holds q bytes → intq_empty q ≡ (length bytes == 0)
empty_lem q bytes v = ground (arith, v.head_at, v.room, v.tail_in)

pub full_lem : (q : Intq) (bytes : List ℕ) → Holds q bytes → intq_full q ≡ (length bytes == 63)
full_lem q bytes v = ground (arith, v.head_at, v.room, v.tail_in)

from-set :
    (buf : List ℕ) (n tail i byte : ℕ)
    → tail < intq_bufsize
    → ((j : ℕ) → j < n → (tail + j) % intq_bufsize ≢ i)
    → from (set buf i byte) n tail ≡ from buf n tail
unfolding from
from-set buf zero tail i byte h apart = refl
from-set buf (suc n) tail i byte h apart =
    let here : i ≢ tail = λ e. apart 0 (omega arith) (omega (arith, e, h)) in
    let rest =
      from-set buf n (next tail) i byte (omega arith)
        (λ j less e. apart (suc j) (omega (arith, less)) (omega (arith, e))) in
    rw (get_or-set_ne buf i tail byte 0 here, rest) refl

from-suc :
    (buf : List ℕ) (n tail : ℕ)
    → tail < intq_bufsize
    → from buf (suc n) tail ≡ from buf n tail ++ (get_or buf ((tail + n) % intq_bufsize) 0 ∷ [])
unfolding from
from-suc buf zero tail h =
    let same : tail ≡ (tail + 0) % intq_bufsize = omega (arith, h) in
    ap (λ t. get_or buf t 0 ∷ []) same
from-suc buf (suc n) tail h =
    let same : (next tail + n) % intq_bufsize ≡ (tail + suc n) % intq_bufsize = omega arith in
    ap (λ l. get_or buf tail 0 ∷ l)
      (from-suc buf n (next tail) (omega arith)
        ∙ ap (λ t. from buf n (next tail) ++ (get_or buf t 0 ∷ [])) same)

from-push :
    (buf : List ℕ) (n tail byte : ℕ)
    → length buf ≡ intq_bufsize
    → tail < intq_bufsize
    → n < intq_bufsize
    → from (set buf ((tail + n) % intq_bufsize) byte) (suc n) tail ≡ from buf n tail ++ (byte ∷ [])
from-push buf n tail byte size h less =
    let head = (tail + n) % intq_bufsize in
    from-suc (set buf head byte) n tail h
    ∙ rw
        (
          from-set buf n tail head byte h
              (λ j before e. absurd (omega (arith, before, e, less, h))),
          get_or-set_self buf head byte 0 (omega (arith, size)),
        )
        refl

module _ (intr_context : Bool) (cur : ℕ) where
  -- The thread has taken the lock, or is its last waiter.
  abbrev pub with_lock : Intq → Intq
  with_lock q = record q {
    lock = record {
      holder = some cur;
      semaphore = record q.lock.semaphore { value = q.lock.semaphore.value - 1 };
    };
  }

  abbrev pub in_line : Intq → Intq
  in_line q = record q {
    lock = record q.lock {
      semaphore = record q.lock.semaphore { waiters = q.lock.semaphore.waiters ++ (cur ∷ []) };
    };
  }

  empty-getc :
      (q : Intq)
      → intq_empty q ≡ true
      → intq_getc intr_context cur q ≡ (
          if intr_context || lock_held_by q.lock cur
          then panics
          else if q.lock.semaphore.value == 0
          then runs (queues (in_line q))
          else runs (blocks (record (with_lock q) { not_empty = some cur })))
  unfolding intq_getc acquire wait_for_byte wait_not_empty lock_acquire sema_down
  empty-getc q e = elim (Bool-cases intr_context) [
    | inl t ↦ rw (e, t) refl
    | inr t ↦ (elim (Bool-cases (lock_held_by q.lock cur)) [
      | inl h ↦ rw (e, t, h) (ground (arith, t))
      | inr h ↦ (elim (Bool-cases (q.lock.semaphore.value == 0)) [
        | inl z ↦ rw (e, t, h, z) refl
        | inr z ↦ rw (e, t, h, z) (rw e refl)
      ])
    ])
  ]

  full-putc :
      (q : Intq) (byte : ℕ)
      → intq_full q ≡ true
      → intq_putc intr_context cur q byte ≡ (
          if intr_context || lock_held_by q.lock cur
          then panics
          else if q.lock.semaphore.value == 0
          then runs (queues (in_line q))
          else runs (blocks (record (with_lock q) { not_full = some cur })))
  unfolding intq_putc acquire wait_for_room wait_not_full lock_acquire sema_down
  full-putc q byte e = elim (Bool-cases intr_context) [
    | inl t ↦ rw (e, t) refl
    | inr t ↦ (elim (Bool-cases (lock_held_by q.lock cur)) [
      | inl h ↦ rw (e, t, h) (ground (arith, t))
      | inr h ↦ (elim (Bool-cases (q.lock.semaphore.value == 0)) [
        | inl z ↦ rw (e, t, h, z) refl
        | inr z ↦ rw (e, t, h, z) (rw e refl)
      ])
    ])
  ]

  -- What `intq_getc` does to the list of bytes, from the test of its loop on. It takes the oldest byte and unblocks the
  -- writer that waits. On an empty queue it panics in an interrupt handler and if its thread has the lock; else its thread
  -- is blocked: if the lock is free with the lock, as the reader that waits, if it is not as the last that waits for it.
  pub getc-Holds :
      (q : Intq) (bytes : List ℕ)
      → Holds q bytes
      → ((bytes ≡ [])
          × (intq_getc intr_context cur q ≡ (
              if intr_context || lock_held_by q.lock cur
              then panics
              else if q.lock.semaphore.value == 0
              then runs (queues (in_line q))
              else runs (blocks (record (with_lock q) { not_empty = some cur })))))
        ⊎ ((b : ℕ) × (bs : List ℕ) × (q' : Intq) × (bytes ≡ b ∷ bs)
            × (intq_getc intr_context cur q ≡ runs (through (b, q', q.not_full)))
            × Holds q' bs)
  unfolding intq_getc signal_not_full from
  getc-Holds q [] v = inl (refl, empty-getc q (empty_lem q [] v))
  getc-Holds q (b ∷ bs) v =
      let q' : Intq = record q { tail = next q.tail; not_full = none } in
      let after : Holds q' bs = record {
        size = v.size;
        room = omega (arith, v.room);
        tail_in = omega arith;
        head_at = ground (arith, v.head_at);
        content = ap (drop 1) v.content;
      } in
      let some_bytes : (suc (length bs) == 0) ≡ false = ground arith in
      let has_room : (length bs == 63) ≡ false = ground (arith, v.room) in
      let oldest : get_or q.buf q.tail 0 ≡ b = sym (ap (λ l. get_or l 0 0) v.content) in
      inr (
        b,
        bs,
        q',
        refl,
        rw (empty_lem q (b ∷ bs) v, some_bytes, full_lem q' bs after, has_room, oldest) refl,
        after,
      )

  -- What `intq_putc` does to the list of bytes, from the test of its loop on. It adds the byte as the newest and unblocks
  -- the reader that waits. On a queue of 63 bytes it panics in an interrupt handler and if its thread has the lock; else
  -- its thread is blocked: if the lock is free with the lock, as the writer that waits, if it is not as the last that waits
  -- for it.
  pub putc-Holds :
      (q : Intq) (bytes : List ℕ) (byte : ℕ)
      → Holds q bytes
      → ((length bytes ≡ 63)
          × (intq_putc intr_context cur q byte ≡ (
              if intr_context || lock_held_by q.lock cur
              then panics
              else if q.lock.semaphore.value == 0
              then runs (queues (in_line q))
              else runs (blocks (record (with_lock q) { not_full = some cur })))))
        ⊎ ((length bytes < 63)
            × ((q' : Intq) × (intq_putc intr_context cur q byte ≡ runs (through (q', q.not_empty)))
                × Holds q' (bytes ++ (byte ∷ []))))
  unfolding intq_putc signal_not_empty
  putc-Holds q bytes byte v = elim (Bool-cases (length bytes == 63)) [
    | inl full ↦ inl (ground (arith, full), full-putc q byte (rw (full_lem q bytes v, full) refl))
    | inr free ↦
        let q' : Intq = record q {
          buf = set q.buf q.head byte;
          head = next q.head;
          not_empty = none;
        } in
        let longer : suc (length bytes) ≡ length (bytes ++ (byte ∷ [])) =
          omega (arith, length-append bytes (byte ∷ [])) in
        let after : Holds q' (bytes ++ (byte ∷ [])) = record {
          size = length-set q.buf q.head byte ∙ v.size;
          room = ground (arith, v.room, length-append bytes (byte ∷ []));
          tail_in = v.tail_in;
          head_at = ground (arith, v.head_at, length-append bytes (byte ∷ []));
          content =
              ap (λ l. l ++ (byte ∷ [])) v.content
              ∙ sym (from-push q.buf (length bytes) q.tail byte v.size v.tail_in v.room)
              ∙ ap (λ h. from (set q.buf h byte) (suc (length bytes)) q.tail) (sym v.head_at)
              ∙ ap (λ n. from (set q.buf q.head byte) n q.tail) longer;
        } in
        inr (ground (arith, free, v.room), (q', rw (full_lem q bytes v, free) refl, after))
  ]
