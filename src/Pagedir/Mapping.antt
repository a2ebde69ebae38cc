-- ===== src/Pagedir/Mapping.antt =====
-- What a page directory maps: linuxpintos/src/userprog/pagedir.c.
use Prim.Native.Nat.{bit_and}
use tddb68_collab.Base.{
  ℕ, ◌+◌, ◌/◌, ◌%◌, ◌^◌, ◌<◌, ◌≡◌, refl, sym, ap, ◌∙◌, Bool, true, false, not, ◌&&◌, ◌==◌, ltb,
  if◌then◌else◌, arith, Option, none, some, Option-cases, Bool-cases, inl, inr,
}
use tddb68_collab.Base.Kernel.{Kernel, runs, ◌>>=◌, >>=-runs, assert-runs, runs-inj}
use tddb68_collab.Vaddr.{pg_ofs, pg_no, is_user_vaddr}
use tddb68_collab.Pagedir.{
  PageDir, pt_no, pd_no, pte_p, has, vtop, store, write_entry, lookup_page, map_entry, pte_get_page,
  pagedir_set_page, pagedir_get_page,
}
use tddb68_collab.Pagedir.Words.{user_word, create_user_lem, user_word-present, user_word-frame}

-- The word that decides about an address: 0 if it has no page table.
abbrev pub word : PageDir → (va : ℕ) → ℕ
word pd va = elim (pd.tables (pd_no va)) [ none ↦ 0 | some pt ↦ pt (pt_no va) ]

abbrev pub translate : (pte va : ℕ) → Kernel ℕ
translate pte va =
    let mapped = do page ← pte_get_page pte; runs ((page + pg_ofs va) % 2 ^ 32)
    in if has pte pte_p then mapped else runs 0

pub get_page-word :
    (pd : PageDir) (va : ℕ)
    → is_user_vaddr va ≡ true
    → pagedir_get_page pd va ≡ translate (word pd va) va
unfolding pagedir_get_page lookup_page
get_page-word pd va user = ground arith

pub same_entry :
    (a b : ℕ)
    → a < 2 ^ 32
    → b < 2 ^ 32
    → ((pd_no a == pd_no b) && (pt_no a == pt_no b)) ≡ (pg_no a == pg_no b)
same_entry a b small small' = ground arith

pub word-write :
    (pd : PageDir) (a pte va : ℕ) {pt : ℕ → ℕ}
    → pd.tables (pd_no a) ≡ some pt
    → word (write_entry pd a pte) va
      ≡ (if (pd_no va == pd_no a) && (pt_no va == pt_no a) then pte else word pd va)
word-write pd a pte va e = ground arith

-- What `lookup_page` finds when it may add a table: the same words as before, now with a table.
record Looked (pd : PageDir) (va old : ℕ) (pd' : PageDir) : Type 0 where
  table : ℕ → ℕ
  has_table : pd'.tables (pd_no va) ≡ some table
  found : old ≡ word pd va
  same : (a : ℕ) → word pd' a ≡ word pd a

lookup-Looked :
    (pd : PageDir) (va : ℕ) (room : Bool) {old : ℕ} {pd' : PageDir}
    → lookup_page pd va true room ≡ runs (some old, pd')
    → Looked pd va old pd'
unfolding lookup_page
lookup-Looked pd va room {old} {pd'} h = elim (Option-cases (pd.tables (pd_no va))) [
  | inl e ↦
      let added : PageDir = record pd { tables = store pd.tables (pd_no va) (some (λ i. 0)) } in
      let same_dir : added ≡ pd' = ground arith in
      let old_word : old ≡ 0 = ground arith in
      record {
        table = λ i. 0;
        has_table = ap (λ d. d.tables (pd_no va)) (sym same_dir) ∙ ground arith;
        found = ground arith;
        same = λ a. ap (λ d. word d a) (sym same_dir) ∙ ground (arith, ap pd.tables);
      }
  | inr (pt, e) ↦
      let same_dir : pd ≡ pd' = ground arith in
      record {
        table = pt;
        has_table = ap (λ d. d.tables (pd_no va)) (sym same_dir) ∙ e;
        found = ground arith;
        same = λ a. ap (λ d. word d a) (sym same_dir);
      }
]

-- The end of `pagedir_set_page`.
map_entry-runs :
    (pd : PageDir) (upage kpage : ℕ) (writable : Bool) (found : Option ℕ) {pd' : PageDir}
    → pg_ofs kpage ≡ 0
    → is_user_vaddr kpage ≡ false
    → map_entry pd upage kpage writable found ≡ runs (true, pd')
    → (old : ℕ) × (found ≡ some old)
      × (has old pte_p ≡ false)
      × (pd' ≡ write_entry pd upage (user_word kpage writable))
unfolding map_entry
map_entry-runs pd upage kpage writable none {pd'} aligned kernel h = absurd (ground arith)
map_entry-runs pd upage kpage writable (some old) {pd'} aligned kernel h =
    let (free, h1) = assert-runs (bit_and old pte_p == 0) _ h in
    (
      old,
      refl,
      ap not free,
      ap (λ r. r.1)
          (sym (
            runs-inj (
              sym (
                ap (λ p. p >>= (λ pte. runs (true, write_entry pd upage pte)))
                  (create_user_lem kpage writable aligned kernel))
              ∙ h1))),
    )

-- The facts behind a call of `pagedir_set_page` that returned true.
record Mapped (pd : PageDir) (upage kpage : ℕ) (writable : Bool) (pd' : PageDir) : Type 0 where
  aligned : pg_ofs upage ≡ 0
  frame_aligned : pg_ofs kpage ≡ 0
  user : is_user_vaddr upage ≡ true
  kernel : is_user_vaddr kpage ≡ false
  free : has (word pd upage) pte_p ≡ false
  words :
      (va : ℕ)
      → va < 2 ^ 32
      → word pd' va ≡ (if pg_no va == pg_no upage then user_word kpage writable else word pd va)

set_page-Mapped :
    (pd : PageDir) (upage kpage : ℕ) (writable room : Bool) (ram_pages : ℕ) {pd' : PageDir}
    → pagedir_set_page pd upage kpage writable room ram_pages ≡ runs (true, pd')
    → Mapped pd upage kpage writable pd'
unfolding pagedir_set_page vtop
set_page-Mapped pd upage kpage writable room ram_pages {pd'} h =
    let (e1, h1) = assert-runs (pg_ofs upage == 0) _ h in
    let (e2, h2) = assert-runs (pg_ofs kpage == 0) _ h1 in
    let (e3, h3) = assert-runs (is_user_vaddr upage) _ h2 in
    let (frame, e4, h4) = >>=-runs (vtop kpage) _ h3 in
    let (e5, h5) = assert-runs (ltb (frame / 2 ^ 12) ram_pages) _ h4 in
    let (e6, h6) = assert-runs (not pd.is_base) _ h5 in
    let (r, e7, h7) = >>=-runs (lookup_page pd upage true room) _ h6 in
    let aligned : pg_ofs upage ≡ 0 = ground (arith, e1) in
    let frame_aligned : pg_ofs kpage ≡ 0 = ground (arith, e2) in
    let kernel : is_user_vaddr kpage ≡ false = ground (arith, e4) in
    let (old, e8, free, write) =
      map_entry-runs r.1 upage kpage writable r.0 frame_aligned kernel h7 in
    let l : Looked pd upage old r.1 =
      lookup-Looked pd upage room (e7 ∙ ap (λ o. runs (o, r.1)) e8) in
    record {
      aligned = aligned;
      frame_aligned = frame_aligned;
      user = e3;
      kernel = kernel;
      free = ap (λ w. has w pte_p) (sym l.found) ∙ free;
      words = λ va small.
          ap (λ d. word d va) write
          ∙ word-write r.1 upage (user_word kpage writable) va l.has_table
          ∙ ground (arith, same_entry va upage small, l.same va);
    }

-- A user page that `pagedir_set_page` mapped, to a frame below 2^32, is found at the frame that it was mapped to, every other user
-- address is mapped as before, and the page was not mapped before.
pub get-set_page :
    (pd : PageDir) (upage kpage : ℕ) (writable room : Bool) (ram_pages va : ℕ) {pd' : PageDir}
    → kpage < 2 ^ 32
    → is_user_vaddr va ≡ true
    → pagedir_set_page pd upage kpage writable room ram_pages ≡ runs (true, pd')
    → (pagedir_get_page pd upage ≡ runs 0)
      × (pagedir_get_page pd' va
          ≡ (if pg_no va == pg_no upage then runs (kpage + pg_ofs va) else pagedir_get_page pd va))
get-set_page pd upage kpage writable room ram_pages va {pd'} small user h =
    let m = set_page-Mapped pd upage kpage writable room ram_pages h in
    let new : translate (user_word kpage writable) va ≡ runs (kpage + pg_ofs va) =
      rw
        (
          user_word-present kpage writable,
          user_word-frame kpage writable m.frame_aligned (ground (arith, m.kernel)) small,
        )
        (ap runs (omega (arith, m.frame_aligned))) in
    (
      get_page-word pd upage m.user ∙ rw m.free refl,
      get_page-word pd' va user
          ∙ ap (λ w. translate w va) (m.words va (ground arith))
          ∙ elim (Bool-cases (pg_no va == pg_no upage)) [
            | inl e ↦ rw e new
            | inr e ↦ rw e (sym (get_page-word pd va user))
          ],
    )

pub same_page_word : (pd : PageDir) (a b : ℕ) → pg_no a ≡ pg_no b → word pd a ≡ word pd b
same_page_word pd a b e =
    let tables : pd_no a ≡ pd_no b = omega (arith, e) in
    let index : pt_no a ≡ pt_no b = ap (λ n. n % 2 ^ 10) e in
    ap (λ t. elim (pd.tables t) [ none ↦ 0 | some pt ↦ pt (pt_no a) ]) tables
    ∙ ap (λ i. elim (pd.tables (pd_no b)) [ none ↦ 0 | some pt ↦ pt i ]) index
