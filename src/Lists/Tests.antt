-- ===== src/Lists/Tests.antt =====
-- A list of two elements: linuxpintos/src/lib/kernel/list.c.
use tddb68_collab.Base.{◌≡◌, refl, [], ◌∷◌, ◌++◌, ltb, ◌==◌, if◌then◌else◌, arith}
use tddb68_collab.Base.Copies.{copies}
use tddb68_collab.Base.Kernel.{runs}
use tddb68_collab.Lists.{Heap, Ends, list_init, list_remove, list_insert_ordered}
use tddb68_collab.Lists.Chain.{Linked, IsList, places}
use tddb68_collab.Lists.Remove.{first_or, remove-IsList}
use tddb68_collab.Lists.Loops.{IsSorted, ordered_insert, insert_ordered-IsList}
use tddb68_collab.Lists.Extremes.{Strict}

abbrev ends : Ends
ends = record { head = 1; tail = 2 }

abbrev nowhere : Heap
nowhere = record { prev = λ x. 0; next = λ x. 0 }

init-IsList : IsList (list_init nowhere ends) ends []
unfolding list_init Linked copies
init-IsList = record {
  linked = (refl, refl);
  head_end = refl;
  tail_end = refl;
  distinct = λ x. ground arith;
  not_null = refl;
}

-- 10 and 30.
abbrev two : Heap
two = record {
  prev = λ x. if x == 10 then 1 else if x == 30 then 10 else if x == 2 then 30 else 0;
  next = λ x. if x == 1 then 10 else if x == 10 then 30 else if x == 30 then 2 else 0;
}

two-IsList : IsList two ends (10 ∷ 30 ∷ [])
unfolding Linked copies
two-IsList = record {
  linked = (refl, refl, (refl, refl, (refl, refl)));
  head_end = refl;
  tail_end = refl;
  distinct = λ x. ground arith;
  not_null = refl;
}

two-IsSorted : IsSorted ltb (10 ∷ 30 ∷ [])
unfolding IsSorted
two-IsSorted = (refl, tt)

twenty_new : places ends (10 ∷ 30 ∷ []) 20 ≡ 0
unfolding copies
twenty_new = refl

ltb-Strict : Strict ltb
ltb-Strict = record { asym = λ a b h. ground arith; trans = λ a b c h k. ground arith }

remove-IsList_example :
    (h' : Heap) × (list_remove two 30 ≡ runs (h', first_or [] 2)) × IsList h' ends ((10 ∷ []) ++ [])
remove-IsList_example = remove-IsList two ends (10 ∷ []) 30 [] two-IsList

insert_ordered-IsList_example :
    (h' : Heap) × (list_insert_ordered ltb two ends 20 ≡ runs h')
    × IsList h' ends (ordered_insert ltb 20 (10 ∷ 30 ∷ []))
    × IsSorted ltb (ordered_insert ltb 20 (10 ∷ 30 ∷ []))
insert_ordered-IsList_example =
    insert_ordered-IsList ltb two ends (10 ∷ 30 ∷ []) 20 ltb-Strict.asym two-IsList two-IsSorted
      (omega arith) (λ e. absurd (ground arith)) twenty_new
