-- ===== src/Strings/Spans.antt =====
-- The functions that split strings by sets of characters: linuxpintos/src/lib/string.c. A set of
-- characters is a string.
use tddb68_collab.Base.{
  ℕ, zero, suc, ◌+◌, ◌%◌, ◌^◌, ◌<◌, ◌≡◌, sym, ap, ◌∙◌, subst, Bool, true, false, not, none, some,
  ◌==◌, if◌then◌else◌, arith, Bool-cases, inl, inr,
}
use tddb68_collab.Base.Kernel.{runs}
use tddb68_collab.Strings.{
  Memory, room, chr_in_block, strchr, cspn_from, strcspn, spn_from, strspn, pbrk_from, strpbrk,
}
use tddb68_collab.Strings.Blocks.{shift, at_zero}
use tddb68_collab.Strings.Search.{
  IsString, IsPlaced, IsString-head, IsString-tail, IsString-end, span, is_in, strchr_lem,
}

-- The addresses before the end of a span pass the test, and the end does not if it comes before `n`.
pub span_lem :
    (test : ℕ → Bool) (n s : ℕ)
    → ((i : ℕ) → i < span test n s → test (s + i) ≡ true)
      × (span test n s < n → test (s + span test n s) ≡ false)
unfolding span
span_lem test zero s = (λ i h. absurd (omega (arith, h)), λ h. absurd (omega (arith, h)))
span_lem test (suc n) s = elim (Bool-cases (test s)) [
  | inl e ↦
      let (passes, stops) = span_lem test n (s + 1) in
      rw (e) (
        λ i h. passes_suc passes i e h,
        λ h. sym (shift test s (span test n (s + 1))) ∙ stops (omega (arith, h)),
      )
  | inr e ↦ rw (e) (λ i h. absurd (omega (arith, h)), λ h. at_zero test s ∙ e)
]
  where
    passes_suc :
        {k : ℕ}
        → ((i : ℕ) → i < k → test (s + 1 + i) ≡ true)
        → (i : ℕ) → test s ≡ true
        → i < suc k
        → test (s + i) ≡ true
    passes_suc passes zero e h = at_zero test s ∙ e
    passes_suc passes (suc i) e h = sym (shift test s i) ∙ passes i (omega (arith, h))

module _ {m : Memory} {set n_set : ℕ} (bytes : (a : ℕ) → m a < 2 ^ 8)
    (v : IsPlaced m set n_set) where
  -- The byte at `p` is in the set.
  abbrev pub in_set : ℕ → Bool
  in_set p = is_in m set n_set (m p)

  abbrev pub outside_set : ℕ → Bool
  outside_set p = not (is_in m set n_set (m p))

  pub strchr-byte : (p : ℕ) → strchr m set (m p) ≡ runs (chr_in_block m (suc n_set) set (m p))
  strchr-byte p =
      let same : m p % 2 ^ 8 ≡ m p = omega (arith, bytes p) in
      strchr_lem (m p) v ∙ ap (λ c. runs (chr_in_block m (suc n_set) set c)) same

  spn_from_lem :
      (n fuel s length : ℕ)
      → IsString m (s + length) n
      → n < fuel
      → spn_from m fuel s set length ≡ runs (length + span in_set n (s + length))
  unfolding spn_from span
  spn_from_lem n zero s length w h = absurd (omega (arith, h))
  spn_from_lem zero (suc fuel) s length w h = ground (arith, IsString-end w)
  spn_from_lem (suc n) (suc fuel) s length w h =
      let next : s + length + 1 ≡ s + (length + 1) = omega arith in
      let later =
        spn_from_lem n fuel s (length + 1) (subst (λ p. IsString m p n) next (IsString-tail w))
          (omega (arith, h)) in
      rw (IsString-head n w, strchr-byte (s + length))
        (ground (arith, later, ap (span in_set n) next))

  cspn_from_lem :
      (n fuel s length : ℕ)
      → IsString m (s + length) n
      → n < fuel
      → cspn_from m fuel s set length ≡ runs (length + span outside_set n (s + length))
  unfolding cspn_from span
  cspn_from_lem n zero s length w h = absurd (omega (arith, h))
  cspn_from_lem zero (suc fuel) s length w h = ground (arith, IsString-end w)
  cspn_from_lem (suc n) (suc fuel) s length w h =
      let next : s + length + 1 ≡ s + (length + 1) = omega arith in
      let later =
        cspn_from_lem n fuel s (length + 1) (subst (λ p. IsString m p n) next (IsString-tail w))
          (omega (arith, h)) in
      rw (IsString-head n w, strchr-byte (s + length))
        (ground (arith, later, ap (span outside_set n) next))

  pbrk_from_lem :
      (n fuel s : ℕ)
      → IsString m s n
      → n < fuel
      → pbrk_from m fuel s set
        ≡ runs (let k = span outside_set n s in if k == n then none else some (s + k))
  unfolding pbrk_from span
  pbrk_from_lem n zero s w h = absurd (omega (arith, h))
  pbrk_from_lem zero (suc fuel) s w h = ground (arith, IsString-end w)
  pbrk_from_lem (suc n) (suc fuel) s w h =
      let later = pbrk_from_lem n fuel (s + 1) (IsString-tail w) (omega (arith, h)) in
      rw (IsString-head n w, strchr-byte s) (ground (arith, later))

  from_start : (test : ℕ → Bool) (n s : ℕ) → runs (0 + span test n (s + 0)) ≡ runs (span test n s)
  from_start test n s =
      let start : s + 0 ≡ s = omega arith in
      let same : 0 + span test n (s + 0) ≡ span test n s = omega (arith, ap (span test n) start) in
      ap runs same

  pub strspn_lem : {s n : ℕ} → IsPlaced m s n → strspn m s set ≡ runs (span in_set n s)
  unfolding strspn
  strspn_lem {s} {n} w =
      let start : s + 0 ≡ s = omega arith in
      spn_from_lem n (room s) s 0 (subst (λ p. IsString m p n) (sym start) w.string)
        (omega (arith, w.below))
      ∙ from_start in_set n s

  pub strcspn_lem : {s n : ℕ} → IsPlaced m s n → strcspn m s set ≡ runs (span outside_set n s)
  unfolding strcspn
  strcspn_lem {s} {n} w =
      let start : s + 0 ≡ s = omega arith in
      cspn_from_lem n (room s) s 0 (subst (λ p. IsString m p n) (sym start) w.string)
        (omega (arith, w.below))
      ∙ from_start outside_set n s

  -- `strspn` and `strcspn` return the number of characters at the front of the string that are in the set, or
  -- are not, and `strpbrk` the address of the first one in the set, if any.
  pub spans_lem :
      {s n : ℕ}
      → IsPlaced m s n
      → (strspn m s set ≡ runs (span in_set n s))
        × (strcspn m s set ≡ runs (span outside_set n s))
        × (strpbrk m s set
            ≡ runs (let k = span outside_set n s in if k == n then none else some (s + k)))
  unfolding strpbrk
  spans_lem {s} {n} w =
      (strspn_lem w, strcspn_lem w, pbrk_from_lem n (room s) s w.string (omega (arith, w.below)))
