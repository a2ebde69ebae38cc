-- ===== src/CommandLine/FileName.antt =====
-- The name of the file to load: linuxpintos/src/userprog/process.c.
use tddb68_collab.Base.{
  ℕ, ◌≡◌, ◌≢◌, refl, ap, ◌∙◌, true, false, some, List, [], ◌∷◌, length, take, ◌==◌, if◌then◌else◌,
  arith,
}
use tddb68_collab.CommandLine.{space, name_length, name_of, file_name}
use tddb68_collab.CommandLine.Squeeze.{collapse, chars, NoZero, clean-collapse}

-- The characters before the first space.
pub first_word : List ℕ → List ℕ
first_word [] = []
first_word (c ∷ cs) = let rest = first_word cs in if c == space then [] else c ∷ rest

name_length-chars :
    (cmd_copy : List ℕ) → name_length cmd_copy ≡ length (first_word (chars cmd_copy))
unfolding name_length first_word chars
name_length-chars [] = refl
name_length-chars (c ∷ cs) = ground (arith, name_length-chars cs)

first_word-collapse : (cs : List ℕ) → first_word (collapse false cs) ≡ first_word cs
unfolding first_word collapse
first_word-collapse [] = refl
first_word-collapse (c ∷ cs) = ground (arith, first_word-collapse cs)

take-first_word : (cs : List ℕ) → take (length (first_word cs)) cs ≡ first_word cs
unfolding first_word
take-first_word [] = refl
take-first_word (c ∷ cs) = ground (arith, take-first_word cs)

-- A command line that does not start with a space is loaded from the file that its first word names.
pub file_name_lem :
    (c : ℕ) (cs : List ℕ)
    → NoZero (c ∷ cs)
    → c ≢ space
    → file_name (c ∷ cs) ≡ some (first_word (c ∷ cs))
unfolding file_name
file_name_lem c cs nz not_space =
    let (cmd_copy, run, left) = clean-collapse (c ∷ cs) nz in
    let size : name_length cmd_copy ≡ length (first_word (c ∷ cs)) =
      name_length-chars cmd_copy
      ∙ ap (λ l. length (first_word l)) left
      ∙ ap length (start c cs not_space) in
    ap (name_of (c ∷ cs)) run
    ∙ ap (λ n. some (take n (c ∷ cs))) size
    ∙ ap some (take-first_word (c ∷ cs))
  where
    start :
        (c : ℕ) (cs : List ℕ)
        → c ≢ space
        → first_word (collapse true (c ∷ cs)) ≡ first_word (c ∷ cs)
    start c cs ns =
        unfold first_word in unfold collapse in ground (arith, ns, first_word-collapse cs)
