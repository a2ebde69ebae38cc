-- ===== src/Directory/Names.antt =====
-- Names and slots in a directory: linuxpintos/src/filesys/directory.c.
use tddb68_collab.Base.{
  ℕ, zero, suc, ◌+◌, ◌-◌, ◌≤◌, ◌<◌, ◌≡◌, inl, inr, refl, sym, subst, ap, ◌∙◌, Bool, true, false,
  ◌&&◌, Option, none, some, List, [], ◌∷◌, length, set, get_or, arith, Bool-cases,
}
use tddb68_collab.Directory.{DirEntry, same_name, is_entry, lookup_from, free_slot}

pub same_name_refl : (a : List ℕ) → same_name a a ≡ true
unfolding same_name
same_name_refl [] = refl
same_name_refl (c ∷ a) = ground (arith, same_name_refl a)

pub same_name_sound : (a b : List ℕ) → same_name a b ≡ true → a ≡ b
unfolding same_name
same_name_sound [] [] h = refl
same_name_sound [] (d ∷ b) h = cc
same_name_sound (c ∷ a) [] h = cc
same_name_sound (c ∷ a) (d ∷ b) h =
    let rest = same_name_sound a b (ground (arith, h)) in
    let here : c ≡ d = ground (arith, h) in λ i. here i ∷ rest i

some_inj : {x y : DirEntry × ℕ} → some x ≡ some y → x ≡ y
some_inj e = cc

some-none : {x : DirEntry × ℕ} → some x ≡ none → ⊥
some-none e = cc

-- Memory for the bounce buffer at every entry.
abbrev pub Ample : (ℕ → Bool) → Type 0
Ample memory = (k : ℕ) → memory k ≡ true

module _ {memory : ℕ → Bool} (ample : Ample memory) where
  lookup-hit :
      (x : DirEntry) (es : List DirEntry) (name : List ℕ) (j : ℕ)
      → is_entry name x ≡ true
      → lookup_from (x ∷ es) memory name j ≡ some (x, j)
  unfolding lookup_from
  lookup-hit x es name j t = rw (ample j, t) refl

  lookup-miss :
      (x : DirEntry) (es : List DirEntry) (name : List ℕ) (j : ℕ)
      → is_entry name x ≡ false
      → lookup_from (x ∷ es) memory name j ≡ lookup_from es memory name (j + 1)
  unfolding lookup_from
  lookup-miss x es name j t = rw (ample j, t) refl

  pub lookup-none :
      (x : DirEntry) (es : List DirEntry) (name : List ℕ) (j : ℕ)
      → lookup_from (x ∷ es) memory name j ≡ none
      → (is_entry name x ≡ false) × (lookup_from es memory name (j + 1) ≡ none)
  lookup-none x es name j h = elim (Bool-cases (is_entry name x)) [
    | inl t ↦ absurd (some-none (sym (lookup-hit x es name j t) ∙ h))
    | inr t ↦ (t, sym (lookup-miss x es name j t) ∙ h)
  ]

  -- Changing an entry that has not the name, before and after, does not change what is found.
  pub lookup-set_other :
      (es : List DirEntry) (name : List ℕ) (j i : ℕ) (e d : DirEntry)
      → is_entry name e ≡ false
      → is_entry name (get_or es i d) ≡ false
      → lookup_from (set es i e) memory name j ≡ lookup_from es memory name j
  unfolding lookup_from
  lookup-set_other [] name j i e d new old = refl
  lookup-set_other (x ∷ es) name j zero e d new old = rw (ample j, new, old) refl
  lookup-set_other (x ∷ es) name j (suc i) e d new old =
      rw (lookup-set_other es name (j + 1) i e d new old) refl

  -- An entry that is put in a directory without the name is found.
  pub lookup-set_self :
      (es : List DirEntry) (name : List ℕ) (j i : ℕ) (e : DirEntry)
      → is_entry name e ≡ true
      → lookup_from es memory name j ≡ none
      → i < length es
      → lookup_from (set es i e) memory name j ≡ some (e, j + i)
  unfolding lookup_from
  lookup-set_self [] name j i e new absent h = absurd (omega (arith, h))
  lookup-set_self (x ∷ es) name j zero e new absent h =
      rw (ample j, new) (ap (λ k. some (e, k)) (omega arith))
  lookup-set_self (x ∷ es) name j (suc i) e new absent h =
      let (t, gone) = lookup-none x es name j absent in
      let rest = lookup-set_self es name (j + 1) i e new gone (omega (arith, h)) in
      rw (ample j, t) (rest ∙ ap (λ k. some (e, k)) (omega arith))

  -- An entry that is found is at the place where it is found.
  pub lookup-some :
      (es : List DirEntry) (name : List ℕ) (j k : ℕ) (e d : DirEntry)
      → lookup_from es memory name j ≡ some (e, k)
      → (j ≤ k) × (k < j + length es) × (get_or es (k - j) d ≡ e) × (is_entry name e ≡ true)
  unfolding lookup_from
  lookup-some [] name j k e d h = cc
  lookup-some (x ∷ es) name j k e d h = elim (Bool-cases (is_entry name x)) [
    | inl t ↦
        (let found : ◌≡◌ {A = Option (DirEntry × ℕ)} (some (x, j)) (some (e, k)) =
            sym (lookup-hit x es name j t) ∙ h in
          let same = some_inj found in
          let at : j ≡ k = ap (λ p. p.1) same in
          let is : x ≡ e = ap (λ p. p.0) same in
          let first : k - j ≡ 0 = omega (arith, at) in
          (
            omega (arith, at),
            omega (arith, at),
            rw first is,
            subst (λ (y : DirEntry). is_entry name y ≡ true) is t,
          ))
    | inr t ↦
        (let (le, lt, here, is) =
            lookup-some es name (j + 1) k e d (sym (lookup-miss x es name j t) ∙ h) in
          let next : k - j ≡ suc (k - (j + 1)) = omega (arith, le) in
          (omega (arith, le), omega (arith, lt), rw next here, is))
  ]

  -- With memory the loop of `dir_add` stops at a slot that is not in use, or behind the last.
  pub free_slot_lem :
      (es : List DirEntry) (j : ℕ) (d : DirEntry)
      → (j ≤ free_slot es memory j)
        × (free_slot es memory j < j + length es
            → (get_or es (free_slot es memory j - j) d).in_use ≡ false)
  unfolding free_slot
  free_slot_lem [] j d = (omega arith, λ h. absurd (omega (arith, h)))
  free_slot_lem (x ∷ es) j d = elim (Bool-cases x.in_use) [
    | inl t ↦
        (let (le, rest) = free_slot_lem es (j + 1) d in
          let on : (memory j && x.in_use) ≡ true = ground (arith, ample j, t) in
          let next : free_slot es memory (j + 1) - j ≡ suc (free_slot es memory (j + 1) - (j + 1)) =
            omega (arith, le) in
          rw (on, next) (omega (arith, le), λ h. rest (omega (arith, h))))
    | inr t ↦
        (let off : (memory j && x.in_use) ≡ false = ground (arith, t) in
          let first : j - j ≡ 0 = omega arith in rw (off, first) (omega arith, λ h. t))
  ]
