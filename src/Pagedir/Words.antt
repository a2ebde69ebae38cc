-- ===== src/Pagedir/Words.antt =====
-- The words of a page table: linuxpintos/src/threads/pte.h.
use Prim.Native.Nat.{bit_or}
use native.Mathlib.Nat.{div-div-eq-div-mul}
use tddb68_collab.Base.{
  ℕ, zero, suc, ◌-◌, ◌/◌, ◌%◌, ◌^◌, ◌<◌, ◌≤◌, ◌≡◌, refl, sym, ap, ◌∙◌, Bool, true, false,
  if◌then◌else◌, arith,
}
use tddb68_collab.Base.Kernel.{runs}
use tddb68_collab.Bits.{
  bit, bit-bit_or, bit-pow, bit_and-pow, pow-pos, bit_or_step, pow_step, lt-pow,
}
use tddb68_collab.Vaddr.{phys_base, pg_ofs, is_user_vaddr}
use tddb68_collab.Pagedir.{
  pte_p, pte_w, pte_u, has, vtop, ptov, pte_create_kernel, pte_create_user, pte_get_page,
}

pub has-bit : (w i : ℕ) → has w (2 ^ i) ≡ bit w i
has-bit w i = ground (arith, bit_and-pow w i, pow-pos i)

bit_or-zero : (n a : ℕ) → a < 2 ^ n → bit_or a 0 ≡ a
bit_or-zero zero a h = let e : a ≡ 0 = omega arith in rw e refl
bit_or-zero (suc n) a h =
    omega (arith, bit_or_step a 0, bit_or-zero n (a / 2) (omega (arith, pow_step n)))

-- Digits below `n` do not reach the digits from `n` on.
bit_or-high : (n a b : ℕ) → b < 2 ^ n → bit_or a b / 2 ^ n ≡ a / 2 ^ n
bit_or-high zero a b h =
    let e : b ≡ 0 = omega arith in rw e (ap (λ x. x / 1) (bit_or-zero a a (lt-pow a)))
bit_or-high (suc n) a b h =
    let halves : (x : ℕ) → x / 2 ^ suc n ≡ x / 2 / 2 ^ n =
      λ x. ap (λ p. x / p) (pow_step n) ∙ sym (div-div-eq-div-mul x 2 (2 ^ n)) in
    let low : bit_or a b / 2 ≡ bit_or (a / 2) (b / 2) = omega (arith, bit_or_step a b) in
    halves (bit_or a b)
    ∙ ap (λ x. x / 2 ^ n) low
    ∙ bit_or-high n (a / 2) (b / 2) (omega (arith, pow_step n))
    ∙ sym (halves a)

-- What `pte_create_user` puts into the word.
pub user_word : (kpage : ℕ) → (writable : Bool) → ℕ
user_word kpage writable =
    bit_or (bit_or (bit_or (kpage - phys_base) pte_p) (if writable then pte_w else 0)) pte_u

pub create_user_lem :
    (kpage : ℕ) (writable : Bool)
    → pg_ofs kpage ≡ 0
    → is_user_vaddr kpage ≡ false
    → pte_create_user kpage writable ≡ runs (user_word kpage writable)
unfolding pte_create_user pte_create_kernel vtop user_word
create_user_lem kpage writable aligned kernel = ground arith

pub user_word-present : (kpage : ℕ) (writable : Bool) → has (user_word kpage writable) pte_p ≡ true
unfolding user_word
user_word-present kpage writable = has-bit (user_word kpage writable) 0 ∙ digit
  where
    framed : ℕ
    framed = bit_or (kpage - phys_base) pte_p

    flagged : ℕ
    flagged = bit_or framed (if writable then pte_w else 0)

    digit : bit (bit_or flagged pte_u) 0 ≡ true
    digit = ground (
      arith,
      bit-bit_or flagged pte_u 0,
      bit-bit_or framed (if writable then pte_w else 0) 0,
      bit-bit_or (kpage - phys_base) pte_p 0,
      bit-pow 0 0,
    )

pub user_word-frame :
    (kpage : ℕ) (writable : Bool)
    → pg_ofs kpage ≡ 0
    → phys_base ≤ kpage
    → kpage < 2 ^ 32
    → pte_get_page (user_word kpage writable) ≡ runs kpage
unfolding user_word pte_get_page ptov
user_word-frame kpage writable aligned kernel small =
    let high : user_word kpage writable / 2 ^ 12 ≡ (kpage - phys_base) / 2 ^ 12 =
      bit_or-high 12 (bit_or (bit_or (kpage - phys_base) pte_p) (if writable then pte_w else 0))
        pte_u (omega arith)
      ∙ bit_or-high 12 (bit_or (kpage - phys_base) pte_p) (if writable then pte_w else 0)
          (ground arith)
      ∙ bit_or-high 12 (kpage - phys_base) pte_p (omega arith) in
    let whole : user_word kpage writable - user_word kpage writable % 2 ^ 12 ≡ kpage - phys_base =
      omega (arith, high) in
    rw whole (ground arith)
