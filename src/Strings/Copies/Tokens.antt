-- ===== src/Strings/Copies/Tokens.antt =====
-- How a string is split into tokens: `strtok_r` of linuxpintos/src/lib/string.c.
use tddb68_collab.Base.{
  ℕ, zero, suc, ◌+◌, ◌-◌, ◌^◌, ◌≤◌, ◌<◌, ◌≡◌, refl, ap, ◌∙◌, Bool, true, false, none, some, ◌==◌,
  if◌then◌else◌, arith, Bool-cases, inl, inr,
}
use tddb68_collab.Base.Kernel.{runs}
use tddb68_collab.Strings.{Memory, store, room, chr_in_block}
use tddb68_collab.Strings.Search.{
  IsString, IsPlaced, IsString-head, IsString-tail, IsString-end, span, span_le, is_in,
}
use tddb68_collab.Strings.Spans.{in_set, outside_set, strchr-byte}
use tddb68_collab.Strings.Copies.{skip_delimiters, skip_token, cut, strtok_r}

-- The 0 byte is found in every string, as its terminator.
zero_is_in : {m : Memory} (n d : ℕ) → IsString m d n → is_in m d n 0 ≡ true
unfolding chr_in_block
zero_is_in zero d w = ground (arith, IsString-end w)
zero_is_in (suc n) d w = ground (arith, IsString-head n w, zero_is_in n (d + 1) (IsString-tail w))

drop_string : {m : Memory} {s n : ℕ} (k : ℕ) → k ≤ n → IsString m s n → IsString m (s + k) (n - k)
drop_string {m} {s} {n} k h w = record {
  chars = λ i less e. w.chars (k + i) (omega (arith, less)) (ap m (there i) ∙ e);
  ends = ap m last ∙ w.ends;
}
  where
    there : (i : ℕ) → s + (k + i) ≡ s + k + i
    there i = omega arith

    last : s + k + (n - k) ≡ s + n
    last = omega (arith, h)

-- The token ends at the terminator just if it ends where the string does.
end_of_token :
    {m : Memory} (s n i k : ℕ)
    → IsString m s n
    → i ≤ n
    → k ≤ n - i
    → (m (s + i + k) == 0) ≡ (i + k == n)
end_of_token {m} s n i k w hi hk =
    let there : s + (i + k) ≡ s + i + k = omega arith in
    elim (Bool-cases (i + k == n)) [
      | inl all ↦
          let last : s + n ≡ s + i + k = ground (arith, all) in
          ground (arith, all, ap m last, w.ends)
      | inr more ↦ ground (arith, more, ap m there, w.chars (i + k))
    ]

module _ {m : Memory} {set n_set : ℕ} (bytes : (a : ℕ) → m a < 2 ^ 8)
    (v : IsPlaced m set n_set) where
  abbrev delimiter : ℕ → Bool
  delimiter = in_set bytes v

  abbrev other : ℕ → Bool
  other = outside_set bytes v

  zero_found : (p : ℕ) → m p ≡ 0 → delimiter p ≡ true
  zero_found p e = ap (is_in m set n_set) e ∙ zero_is_in n_set set v.string

  skip_delimiters_lem :
      (n fuel s : ℕ)
      → IsString m s n
      → n < fuel
      → skip_delimiters m fuel set s ≡ runs (s + span delimiter n s, span delimiter n s == n)
  unfolding skip_delimiters span
  skip_delimiters_lem n zero s w h = absurd (omega (arith, h))
  skip_delimiters_lem zero (suc fuel) s w h =
      let start : s ≡ s + 0 = omega arith in
      rw (strchr-byte bytes v s)
        (ground (arith, IsString-end w, zero_found s (IsString-end w), start))
  skip_delimiters_lem (suc n) (suc fuel) s w h = rw (strchr-byte bytes v s) (
      ground (
        arith,
        IsString-head n w,
        skip_delimiters_lem n fuel (s + 1) (IsString-tail w) (omega (arith, h)),
      ))

  skip_token_lem :
      (n fuel s : ℕ)
      → IsString m s n
      → n < fuel
      → skip_token m fuel set s ≡ runs (s + span other n s)
  unfolding skip_token span
  skip_token_lem n zero s w h = absurd (omega (arith, h))
  skip_token_lem zero (suc fuel) s w h =
      let start : s ≡ s + 0 = omega arith in
      rw (strchr-byte bytes v s) (ground (arith, zero_found s (IsString-end w), start))
  skip_token_lem (suc n) (suc fuel) s w h =
      rw (strchr-byte bytes v s)
        (ground (arith, skip_token_lem n fuel (s + 1) (IsString-tail w) (omega (arith, h))))

  -- The number of delimiters at the front of a string of length `n` at `s`, and the length of the token
  -- after them.
  abbrev pub skipped : (s n : ℕ) → ℕ
  skipped s n = span delimiter n s

  abbrev pub token_length : (s n : ℕ) → ℕ
  token_length s n = span other (n - skipped s n) (s + skipped s n)

  -- `strtok_r` on a string, or on null with a string saved, skips the delimiters at its front; if that leaves
  -- nothing, it saves the end and returns null; else it returns the start of what is left, up to the next
  -- delimiter, which it overwrites with 0 and saves the address after, or else saves the end.
  pub strtok_r_lem :
      (s save : ℕ) {start n : ℕ}
      → (if s == 0 then save else s) ≡ start
      → IsPlaced m start n
      → strtok_r m s set save
        ≡ runs (
            let i = skipped start n in
            let token = start + i in
            let k = token_length start n in
            if i == n
            then (m, start + n, none)
            else if i + k == n
            then (m, start + n, some token)
            else (store m (token + k) 0, token + k + 1, some token))
  unfolding strtok_r cut
  strtok_r_lem s save {start} {n} e w =
      let i = skipped start n in
      let k = token_length start n in
      let bound : i ≤ n = span_le delimiter n start in
      let run = skip_delimiters_lem n (room start) start w.string (omega (arith, w.below)) in
      let left = drop_string i bound w.string in
      let run_token =
        skip_token_lem (n - i) (room (start + i)) (start + i) left
          (omega (arith, w.below, bound)) in
      let d : (set == 0) ≡ false = ground (arith, v.not_null) in
      let nn : (start == 0) ≡ false = ground (arith, w.not_null) in
      rw (d, e, nn, run)
        (elim (Bool-cases (i == n)) [
          | inl all ↦
              let last : start + i ≡ start + n = ground (arith, all) in
              rw (all) (ap (λ q. runs (m, q, none)) last)
          | inr some_left ↦
              let size : k ≤ n - i = span_le other (n - i) (start + i) in
              let at = end_of_token start n i k w.string bound size in
              rw (some_left, run_token, at)
                (elim (Bool-cases (i + k == n)) [
                  | inl all ↦
                      let last : start + i + k ≡ start + n = ground (arith, all) in
                      rw (all) (ap (λ q. runs (m, q, some (start + i))) last)
                  | inr more ↦ rw (more) refl
                ])
        ])
