-- ===== src/CommandLine/Shift.antt =====
-- Removing one character in place: linuxpintos/src/userprog/process.c.
use tddb68_collab.Base.{
  ℕ, zero, suc, ◌+◌, ◌-◌, ◌≡◌, refl, sym, ap, ◌∙◌, Bool, true, false, ◌||◌, List, [], ◌∷◌, ◌++◌,
  length, get_or, set, replicate, ◌==◌, if◌then◌else◌, arith, length-append, length-replicate,
}
use mathlib.Core.List.{append_assoc}
use tddb68_collab.CommandLine.{char_at, shift_from, remove_at}

module _ {ℓ} {A : Type ℓ} where
  pub get_or-append :
      (xs ys : List A) (j : ℕ) (d : A) → get_or (xs ++ ys) (length xs + j) d ≡ get_or ys j d
  get_or-append [] ys j d = let e : 0 + j ≡ j = omega arith in ap (λ n. get_or ys n d) e
  get_or-append (x ∷ xs) ys j d =
      let e : suc (length xs) + j ≡ suc (length xs + j) = omega arith in
      ap (λ n. get_or (x ∷ (xs ++ ys)) n d) e ∙ get_or-append xs ys j d

  set-append :
      (xs ys : List A) (j : ℕ) (v : A) → set (xs ++ ys) (length xs + j) v ≡ xs ++ set ys j v
  set-append [] ys j v = let e : 0 + j ≡ j = omega arith in ap (λ n. set ys n v) e
  set-append (x ∷ xs) ys j v =
      let e : suc (length xs) + j ≡ suc (length xs + j) = omega arith in
      ap (λ n. set (x ∷ (xs ++ ys)) n v) e ∙ ap (λ l. x ∷ l) (set-append xs ys j v)

  set-same : (xs : List A) (i : ℕ) (v d : A) → get_or xs i d ≡ v → set xs i v ≡ xs
  set-same [] i v d h = refl
  set-same (x ∷ xs) zero v d h = ap (λ a. a ∷ xs) (sym h)
  set-same (x ∷ xs) (suc i) v d h = ap (λ l. x ∷ l) (set-same xs i v d h)

final : ℕ → List ℕ → ℕ
final c [] = c
final c (y ∷ ys) = final y ys

shift_from_lem :
    (done : List ℕ) (c : ℕ) (xs : List ℕ)
    → shift_from (length xs) (length done) (done ++ (c ∷ xs)) ≡ done ++ (xs ++ (final c xs ∷ []))
unfolding shift_from final
shift_from_lem done c [] = refl
shift_from_lem done c (y ∷ ys) =
    let here : length done ≡ length done + 0 = omega arith in
    let next_char : char_at (done ++ (c ∷ y ∷ ys)) (length done + 1) ≡ y =
      get_or-append done (c ∷ y ∷ ys) 1 0 in
    let stored : set (done ++ (c ∷ y ∷ ys)) (length done) y ≡ done ++ (y ∷ y ∷ ys) =
      ap (λ i. set (done ++ (c ∷ y ∷ ys)) i y) here ∙ set-append done (c ∷ y ∷ ys) 0 y in
    let grown : done ++ (y ∷ y ∷ ys) ≡ (done ++ (y ∷ [])) ++ (y ∷ ys) =
      sym (append_assoc done (y ∷ []) (y ∷ ys)) in
    let index : length done + 1 ≡ length (done ++ (y ∷ [])) =
      omega (arith, length-append done (y ∷ [])) in
    ap
      (λ c'. shift_from (length ys) (length done + 1) (set (done ++ (c ∷ y ∷ ys)) (length done) c'))
      next_char
    ∙ ap (shift_from (length ys) (length done + 1)) (stored ∙ grown)
    ∙ ap (λ i. shift_from (length ys) i ((done ++ (y ∷ [])) ++ (y ∷ ys))) index
    ∙ shift_from_lem (done ++ (y ∷ [])) y ys
    ∙ append_assoc done (y ∷ []) (ys ++ (final y ys ∷ []))

final-zeros : (c : ℕ) (rest : List ℕ) (k : ℕ) → final c (rest ++ replicate (suc k) 0) ≡ 0
unfolding final
final-zeros c [] zero = refl
final-zeros c [] (suc k) = final-zeros 0 [] k
final-zeros c (y ∷ ys) k = final-zeros y ys k

zeros-push :
    (rest : List ℕ) (k : ℕ) → (rest ++ replicate k 0) ++ (0 ∷ []) ≡ rest ++ replicate (suc k) 0
zeros-push [] zero = refl
zeros-push [] (suc k) = ap (λ l. 0 ∷ l) (zeros-push [] k)
zeros-push (y ∷ ys) k = ap (λ l. y ∷ l) (zeros-push ys k)

pub get_or-zeros : (n j : ℕ) → get_or (replicate n 0) j 0 ≡ zero
get_or-zeros zero j = refl
get_or-zeros (suc n) zero = refl
get_or-zeros (suc n) (suc j) = get_or-zeros n j

either_way : {a b : List ℕ} (t : Bool) → a ≡ b → (if t then a else b) ≡ b
either_way true e = e
either_way false e = refl

-- With the terminator in place, removing a character closes the gap and adds a 0 at the end.
pub remove_at_lem :
    (len : ℕ) (done : List ℕ) (c : ℕ) (rest : List ℕ) (k : ℕ)
    → len ≡ length done + length rest + suc k
    → remove_at len (length done) (done ++ (c ∷ (rest ++ replicate (suc k) 0)))
      ≡ done ++ (rest ++ replicate (suc (suc k)) 0)
unfolding remove_at
remove_at_lem len done c rest k e =
    let xs = rest ++ replicate (suc k) 0 in
    let after = done ++ (rest ++ replicate (suc (suc k)) 0) in
    let rounds : len - length done ≡ length xs =
      omega
        (arith, e, length-append rest (replicate (suc k) 0), length-replicate {A = ℕ} (suc k) 0) in
    let shifted : shift_from (len - length done) (length done) (done ++ (c ∷ xs)) ≡ after =
      ap (λ n. shift_from n (length done) (done ++ (c ∷ xs))) rounds
      ∙ shift_from_lem done c xs
      ∙ ap (λ z. done ++ (xs ++ (z ∷ []))) (final-zeros c rest k)
      ∙ ap (λ l. done ++ l) (zeros-push rest (suc k)) in
    let end : length done + (len - length done) - 1 ≡ length done + (length rest + k) =
      omega (arith, e) in
    let is_zero : char_at after (length done + (len - length done) - 1) ≡ 0 =
      ap (char_at after) end
      ∙ get_or-append done (rest ++ replicate (suc (suc k)) 0) (length rest + k) 0
      ∙ get_or-append rest (replicate (suc (suc k)) 0) k 0
      ∙ get_or-zeros (suc (suc k)) k in
    rw shifted (
      either_way
        ((char_at after (length done + (len - length done)) == 0)
          || (length done + (len - length done) == len))
        (set-same after (length done + (len - length done) - 1) 0 0 is_zero))
