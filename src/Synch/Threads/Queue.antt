-- ===== src/Synch/Threads/Queue.antt =====
-- Queues of waiting threads: linuxpintos/src/threads/synch.c.
use tddb68_collab.Base.{
  ℕ, ◌≡◌, Bool, true, false, not, ◌&&◌, ◌||◌, List, [], ◌∷◌, ◌++◌, ◌==◌, arith,
}

abbrev pub mem : ℕ → List ℕ → Bool
mem i [] = false
mem i (x ∷ xs) = (i == x) || mem i xs

abbrev pub distinct : List ℕ → Bool
distinct [] = true
distinct (x ∷ xs) = not (mem x xs) && distinct xs

pub mem-push : (xs : List ℕ) (i x : ℕ) → mem i (xs ++ (x ∷ [])) ≡ (mem i xs || (i == x))
mem-push [] i x = ground arith
mem-push (y ∷ xs) i x = ground (arith, mem-push xs i x)

pub distinct-push :
    (xs : List ℕ) (x : ℕ) → distinct xs ≡ true → mem x xs ≡ false → distinct (xs ++ (x ∷ [])) ≡ true
distinct-push [] x d m = ground arith
distinct-push (y ∷ xs) x d m = ground (arith, distinct-push xs x, mem-push xs y x)
