-- ===== src/Wait/Search.antt =====
-- The searches of `process_wait`, linuxpintos/src/userprog/process.c, against what the lists hold.
use tddb68_collab.Base.{
  ℕ, ◌+◌, ◌≡◌, refl, true, false, Option, some, List, [], ◌∷◌, ◌++◌, ◌==◌, if◌then◌else◌, arith,
  Option-cases, inl, inr,
}
use tddb68_collab.Base.Copies.{copies}
use tddb68_collab.Base.Int.{ℤ}
use tddb68_collab.Wait.{ChildReturn, search, remove_child, list_empty}

pub remove_child-copies :
    (cs : List ℕ) (t : ℕ) {rest : List ℕ}
    → remove_child cs t ≡ some rest
    → (u : ℕ) → copies cs u ≡ copies rest u + (if t == u then 1 else 0)
unfolding remove_child copies
remove_child-copies [] t e u = ground arith
remove_child-copies (c ∷ cs) t {rest} e u = elim (Option-cases (remove_child cs t)) [
  | inl missing ↦ ground arith
  | inr (others, found) ↦ ground (arith, remove_child-copies cs t found u)
]

pub search-append :
    (rs : List ChildReturn) (r : ChildReturn) (t : ℕ) (v : Option ℤ)
    → search (rs ++ (r ∷ [])) t v
      ≡ (if (search rs t v).0 then search rs t v else (r.tid == t, some r.returned_val))
unfolding search
search-append [] r t v = ground arith
search-append (x ∷ rs) r t v = ground (arith, search-append rs r t (some x.returned_val))

pub list_empty-search :
    (rs : List ChildReturn) (t : ℕ) (v : Option ℤ)
    → list_empty rs ≡ true
    → (search rs t v).0 ≡ false
unfolding search
list_empty-search [] t v e = refl
list_empty-search (r ∷ rs) t v e = ground arith
