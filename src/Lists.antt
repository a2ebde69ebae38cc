-- ===== src/Lists.antt =====
-- Doubly linked lists with a head and a tail element: linuxpintos/src/lib/kernel/list.c. A heap gives the `prev` and the `next`
-- of the `struct list_elem` at each address; the null pointer is 0. A `struct list` is given by the
-- addresses of its two end elements. A loop over a list has a round for every address below 2^32; one that
-- does not come to the end of the list by then does not end, which is `panics` too.
pub mod Chain
pub mod Insert
pub mod Remove
pub mod Loops
pub mod Extremes
mod Tests
use tddb68_collab.Base.{
  ℕ, zero, suc, ◌+◌, ◌^◌, Bool, true, false, not, ◌&&◌, ◌||◌, ◌==◌, if◌then◌else◌,
}
use tddb68_collab.Base.Kernel.{Kernel, runs, panics, ◌>>=◌, ◌>>◌, assert}

pub record Heap : Type 0 where
  pub prev : ℕ → ℕ
  pub next : ℕ → ℕ

-- The addresses of `head` and `tail`.
pub record Ends : Type 0 where
  pub head : ℕ
  pub tail : ℕ

abbrev pub put : (ℕ → ℕ) → (address value : ℕ) → ℕ → ℕ
put f a v b = if b == a then v else f b

-- `elem->prev = v` and `elem->next = v`.
abbrev pub set_prev : Heap → (elem v : ℕ) → Heap
set_prev h elem v = record h { prev = put h.prev elem v }

abbrev pub set_next : Heap → (elem v : ℕ) → Heap
set_next h elem v = record h { next = put h.next elem v }

abbrev pub is_null : ℕ → Bool
is_null p = p == 0

pub is_head : Heap → (elem : ℕ) → Bool
is_head h elem = not (is_null elem) && (is_null (h.prev elem) && not (is_null (h.next elem)))

pub is_interior : Heap → (elem : ℕ) → Bool
is_interior h elem =
    not (is_null elem) && (not (is_null (h.prev elem)) && not (is_null (h.next elem)))

pub is_tail : Heap → (elem : ℕ) → Bool
is_tail h elem = not (is_null elem) && (not (is_null (h.prev elem)) && is_null (h.next elem))

pub list_init : Heap → Ends → Heap
list_init h l =
    set_next (set_prev (set_next (set_prev h l.head 0) l.head l.tail) l.tail l.head) l.tail 0

abbrev pub list_begin : Heap → Ends → ℕ
list_begin h l = h.next l.head

abbrev pub list_end : Ends → ℕ
list_end l = l.tail

abbrev pub list_rbegin : Heap → Ends → ℕ
list_rbegin h l = h.prev l.tail

pub list_next : Heap → (elem : ℕ) → Kernel ℕ
list_next h elem = do assert (is_head h elem || is_interior h elem); runs (h.next elem)

pub list_prev : Heap → (elem : ℕ) → Kernel ℕ
list_prev h elem = do assert (is_interior h elem || is_tail h elem); runs (h.prev elem)

pub list_insert : Heap → (before elem : ℕ) → Kernel Heap
list_insert h before elem = do
  assert (is_interior h before || is_tail h before)
  assert (not (is_null elem))
  let h1 = set_prev h elem (h.prev before)
  let h2 = set_next h1 elem before
  let h3 = set_next h2 (h2.prev before) elem
  runs (set_prev h3 before elem)

pub list_push_front : Heap → Ends → (elem : ℕ) → Kernel Heap
list_push_front h l elem = list_insert h (list_begin h l) elem

pub list_push_back : Heap → Ends → (elem : ℕ) → Kernel Heap
list_push_back h l elem = list_insert h (list_end l) elem

-- Also returns the element that followed.
pub list_remove : Heap → (elem : ℕ) → Kernel (Heap × ℕ)
list_remove h elem = do
  assert (is_interior h elem)
  let h1 = set_next h (h.prev elem) (h.next elem)
  let h2 = set_prev h1 (h1.next elem) (h1.prev elem)
  runs (h2, h2.next elem)

abbrev pub list_empty : Heap → Ends → Bool
list_empty h l = list_begin h l == list_end l

pub list_front : Heap → Ends → Kernel ℕ
list_front h l = do assert (not (list_empty h l)); runs (h.next l.head)

pub list_back : Heap → Ends → Kernel ℕ
list_back h l = do assert (not (list_empty h l)); runs (h.prev l.tail)

pub list_pop_front : Heap → Ends → Kernel (Heap × ℕ)
list_pop_front h l = do front ← list_front h l; (h', _) ← list_remove h front; runs (h', front)

pub list_pop_back : Heap → Ends → Kernel (Heap × ℕ)
list_pop_back h l = do back ← list_back h l; (h', _) ← list_remove h back; runs (h', back)

abbrev pub rounds : ℕ
rounds = 2 ^ 32

pub count_from : Heap → (tail fuel e cnt : ℕ) → Kernel ℕ
count_from h tail zero e cnt = panics
count_from h tail (suc fuel) e cnt =
    let rest = list_next h e >>= λ e'. count_from h tail fuel e' (cnt + 1) in
    if e == tail then runs cnt else rest

pub list_size : Heap → Ends → Kernel ℕ
list_size h l = count_from h (list_end l) rounds (list_begin h l) 0

-- The functions with a comparison; `less a b` stands for `less (a, b, aux)`.
module _ (less : ℕ → ℕ → Bool) where
  -- The first element from `e` on that `elem` is less than, or the tail.
  pub place_from : Heap → (tail elem fuel e : ℕ) → Kernel ℕ
  place_from h tail elem zero e = panics
  place_from h tail elem (suc fuel) e =
      let rest = list_next h e >>= λ e'. place_from h tail elem fuel e' in
      if e == tail then runs e else if less elem e then runs e else rest

  pub list_insert_ordered : Heap → Ends → (elem : ℕ) → Kernel Heap
  list_insert_ordered h l elem = do
    assert (not (is_null elem))
    e ← place_from h (list_end l) elem rounds (list_begin h l)
    list_insert h e elem

  pub max_from : Heap → (tail fuel max e : ℕ) → Kernel ℕ
  max_from h tail zero max e = panics
  max_from h tail (suc fuel) max e =
      let rest = list_next h e >>= λ e'. max_from h tail fuel (if less max e then e else max) e' in
      if e == tail then runs max else rest

  pub list_max : Heap → Ends → Kernel ℕ
  list_max h l =
      if list_begin h l == list_end l
      then runs (list_begin h l)
      else (do e ← list_next h (list_begin h l); max_from h (list_end l) rounds (list_begin h l) e)

  pub min_from : Heap → (tail fuel min e : ℕ) → Kernel ℕ
  min_from h tail zero min e = panics
  min_from h tail (suc fuel) min e =
      let rest = list_next h e >>= λ e'. min_from h tail fuel (if less e min then e else min) e' in
      if e == tail then runs min else rest

  pub list_min : Heap → Ends → Kernel ℕ
  list_min h l =
      if list_begin h l == list_end l
      then runs (list_begin h l)
      else (do e ← list_next h (list_begin h l); min_from h (list_end l) rounds (list_begin h l) e)
