-- ===== src/CommandLine/Squeeze.antt =====
-- What is left of a command line: linuxpintos/src/userprog/process.c.
use tddb68_collab.Base.{
  ℕ, zero, suc, ◌+◌, ◌*◌, ◌<◌, ◌≤◌, ◌≡◌, ◌≢◌, refl, sym, ap, ◌∙◌, Bool, true, false, some, List, [],
  ◌∷◌, ◌++◌, length, replicate, ◌==◌, if◌then◌else◌, arith, length-append, Bool-cases, inl, inr,
  lt→ltb,
}
use mathlib.Core.List.{append_assoc}
use tddb68_collab.CommandLine.{space, char_at, remove_at, squeeze, trim, and_trim, clean}
use tddb68_collab.CommandLine.Shift.{get_or-append, get_or-zeros, remove_at_lem}

-- The characters without those spaces that follow a space, or that start the line if `prv` is true.
unfoldable pub collapse : (prv : Bool) → List ℕ → List ℕ
collapse prv [] = []
collapse prv (c ∷ cs) =
    let kept = c ∷ collapse (c == space) cs in
    let dropped = collapse true cs in if c == space then (if prv then dropped else kept) else kept

-- The string that a copy holds: its characters before the first 0.
unfoldable pub chars : List ℕ → List ℕ
chars [] = []
chars (c ∷ cs) = let rest = chars cs in if c == 0 then [] else c ∷ rest

abbrev pub NoZero : List ℕ → Type 0
NoZero [] = Unit {0}
NoZero (c ∷ cs) = (c ≢ 0) × NoZero cs

-- The copy from the current index on, when the loop is done: `k` characters were removed before.
abbrev tail : (prv : Bool) → List ℕ → (k : ℕ) → List ℕ
tail prv [] k = replicate (suc k) 0
tail prv (c ∷ cs) k =
    if c == space
    then (if prv then tail true cs (suc k) else c ∷ tail true cs k)
    else c ∷ tail false cs k

squeeze-zeros :
    (fuel len stri : ℕ) (prv : Bool) (cmd_copy : List ℕ)
    → ((j : ℕ) → char_at cmd_copy (stri + j) ≡ 0)
    → len ≤ stri + fuel
    → squeeze fuel len stri prv cmd_copy ≡ some cmd_copy
unfolding squeeze
squeeze-zeros zero len stri prv cmd_copy zeros enough = ground arith
squeeze-zeros (suc fuel) len stri prv cmd_copy zeros enough =
    let here : char_at cmd_copy stri ≡ 0 =
      let e : stri ≡ stri + 0 = omega arith in ap (char_at cmd_copy) e ∙ zeros 0 in
    let next =
      squeeze-zeros fuel len (stri + 1) false cmd_copy
        (λ j.
          let e : stri + 1 + j ≡ stri + (1 + j) = omega arith in
          ap (char_at cmd_copy) e ∙ zeros (1 + j))
        (omega arith) in
    ground (arith, here, next)

-- One round: at the end of the word `done` with the character `c` next.
squeeze_round :
    (fuel len : ℕ) (prv : Bool) (done : List ℕ) (c : ℕ) (xs : List ℕ)
    → length done < len
    → squeeze (suc fuel) len (length done) prv (done ++ (c ∷ xs)) ≡ (
        if c == space
        then (if prv
            then squeeze fuel len
                (length done)
                true
                (remove_at len (length done) (done ++ (c ∷ xs)))
            else squeeze fuel len (length done + 1) true (done ++ (c ∷ xs)))
        else squeeze fuel len (length done + 1) false (done ++ (c ∷ xs)))
unfolding squeeze
squeeze_round fuel len prv done c xs lt =
    let here : char_at (done ++ (c ∷ xs)) (length done) ≡ c =
      let i : length done ≡ length done + 0 = omega arith in
      ap (char_at (done ++ (c ∷ xs))) i ∙ get_or-append done (c ∷ xs) 0 0 in
    rw (lt→ltb (length done) len lt, here) refl

squeeze_lem :
    (fuel len : ℕ) (prv : Bool) (done rest : List ℕ) (k : ℕ)
    → NoZero rest
    → len ≡ length done + length rest + k
    → 2 * length rest + k ≤ fuel
    → squeeze fuel len (length done) prv (done ++ (rest ++ replicate (suc k) 0))
      ≡ some (done ++ tail prv rest k)
squeeze_lem fuel len prv done [] k nz e enough =
    squeeze-zeros fuel len (length done) prv (done ++ replicate (suc k) 0)
      (λ j. get_or-append done (replicate (suc k) 0) j 0 ∙ get_or-zeros (suc k) j)
      (omega (arith, e))
squeeze_lem zero len prv done (c ∷ cs) k nz e enough = absurd (omega arith)
squeeze_lem (suc fuel) len prv done (c ∷ cs) k (nc, nz) e enough =
    let advance : (p : Bool)
        → squeeze fuel len (length done + 1) p (done ++ (c ∷ (cs ++ replicate (suc k) 0)))
          ≡ some (done ++ (c ∷ tail p cs k)) =
      λ p.
        let index : length done + 1 ≡ length (done ++ (c ∷ [])) =
          omega (arith, length-append done (c ∷ [])) in
        ap (λ i. squeeze fuel len i p (done ++ (c ∷ (cs ++ replicate (suc k) 0)))) index
        ∙ ap (squeeze fuel len (length (done ++ (c ∷ []))) p)
            (sym (append_assoc done (c ∷ []) (cs ++ replicate (suc k) 0)))
        ∙ squeeze_lem fuel len p (done ++ (c ∷ [])) cs k nz (omega (arith, e, index)) (omega arith)
        ∙ ap some (append_assoc done (c ∷ []) (tail p cs k)) in
    let delete : squeeze fuel len (length done) true
          (remove_at len (length done) (done ++ (c ∷ (cs ++ replicate (suc k) 0))))
        ≡ some (done ++ tail true cs (suc k)) =
      ap (squeeze fuel len (length done) true) (remove_at_lem len done c cs k (omega (arith, e)))
      ∙ squeeze_lem fuel len true done cs (suc k) nz (omega (arith, e)) (omega arith) in
    squeeze_round fuel len prv done c (cs ++ replicate (suc k) 0) (omega (arith, e))
    ∙ elim (Bool-cases (c == space)) [
      | inr other ↦ rw other (advance false)
      | inl sp ↦ elim (Bool-cases prv) [
        | inl p ↦ rw (sp, p) delete
        | inr p ↦ rw (sp, p) (advance true)
      ]
    ]

chars-tail :
    (prv : Bool) (cs : List ℕ) (k : ℕ) → NoZero cs → chars (tail prv cs k) ≡ collapse prv cs
unfolding chars collapse
chars-tail prv [] k nz = refl
chars-tail prv (c ∷ cs) k (nc, nz) =
    ground
      (arith, nc, chars-tail true cs (suc k) nz, chars-tail true cs k nz, chars-tail false cs k nz)

-- The loop that trims the end starts at the terminator, so it changes nothing.
trim-terminated :
    (len : ℕ) (cmd_copy : List ℕ) → char_at cmd_copy len ≡ 0 → trim len cmd_copy ≡ some cmd_copy
unfolding trim
trim-terminated zero cmd_copy h = ground (arith, h)
trim-terminated (suc len) cmd_copy h = ground (arith, h)

tail-terminated :
    (prv : Bool) (cs : List ℕ) (k : ℕ) → NoZero cs → char_at (tail prv cs k) (length cs + k) ≡ 0
tail-terminated prv [] k nz =
    let e : 0 + k ≡ k = omega arith in ap (char_at (replicate (suc k) 0)) e ∙ get_or-zeros (suc k) k
tail-terminated prv (c ∷ cs) k (nc, nz) =
    let index : suc (length cs) + k ≡ suc (length cs + k) = omega arith in
    let same_end : suc (length cs) + k ≡ length cs + suc k = omega arith in
    elim (Bool-cases (c == space)) [
      | inr other ↦ rw (other, index) (tail-terminated false cs k nz)
      | inl sp ↦ elim (Bool-cases prv) [
        | inl p ↦ rw (sp, p, same_end) (tail-terminated true cs (suc k) nz)
        | inr p ↦ rw (sp, p, index) (tail-terminated true cs k nz)
      ]
    ]

-- Cleaning a command line ends, stays inside the copy, and leaves the line with each run of spaces
-- made one space and no space at its start; one space at its end stays.
pub clean-collapse :
    (command_line : List ℕ)
    → NoZero command_line
    → (cmd_copy : List ℕ) × (clean command_line ≡ some cmd_copy)
      × (chars cmd_copy ≡ collapse true command_line)
unfolding clean
clean-collapse command_line nz =
    let len : ℕ = length command_line in
    let done : squeeze (2 * len) len 0 true (command_line ++ (0 ∷ []))
        ≡ some (tail true command_line 0) =
      squeeze_lem (2 * len) len true [] command_line 0 nz (omega arith) (omega arith) in
    (
      tail true command_line 0,
      ap (and_trim len) done
          ∙ trim-terminated len (tail true command_line 0) (
              let e : len ≡ len + 0 = omega arith in
              ap (char_at (tail true command_line 0)) e ∙ tail-terminated true command_line 0 nz),
      chars-tail true command_line 0 nz,
    )
