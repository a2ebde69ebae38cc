-- ===== src/UserMemory/Strings.antt =====
-- What the check of a string tells: linuxpintos/src/userprog/syscall.c.
use tddb68_collab.Base.{
  ℕ, zero, suc, ◌+◌, ◌-◌, ◌<◌, ◌≤◌, ◌≡◌, ◌≢◌, ap, ◌∙◌, true, false, ◌==◌, if◌then◌else◌, arith,
  lt→ltb, Bool-cases, inl, inr,
}
use tddb68_collab.Base.Kernel.{runs, panics}
use tddb68_collab.Vaddr.{phys_base, is_user_vaddr}
use tddb68_collab.Pagedir.{PageDir, pagedir_get_page}
use tddb68_collab.Pagedir.Reading.{IsValid, mapped, get_page-mapped, get_page-kernel}
use tddb68_collab.UserMemory.{check_str_from, check_user_str_ptr}

-- At `ptr` stands a string of `n` characters in mapped user memory.
pub record IsString (pd : PageDir) (mem : ℕ → ℕ) (ptr n : ℕ) : Type 0 where
  pub inside : ptr + n < phys_base
  pub readable : (k : ℕ) → k ≤ n → mapped pd (ptr + k) ≡ true
  pub characters : (k : ℕ) → k < n → mem (ptr + k) ≢ 0
  pub terminator : mem (ptr + n) ≡ 0

-- One round of the loop.
check_str_round :
    (pd : PageDir) (mem : ℕ → ℕ) (left a : ℕ)
    → IsValid pd
    → a + 1 < phys_base
    → check_str_from pd mem (suc left) a ≡ (
        if mapped pd a
        then (if mem a == 0 then runs (mapped pd (a + 1)) else check_str_from pd mem left (a + 1))
        else runs false)
unfolding check_str_from
check_str_round pd mem left a v inside =
    let (page, run, null) = get_page-mapped pd a v (lt→ltb a phys_base (omega arith)) in
    let (page', run', null') = get_page-mapped pd (a + 1) v (lt→ltb (a + 1) phys_base inside) in
    ground (arith, run, null, run', null')

tail :
    {pd : PageDir} {mem : ℕ → ℕ} {a n : ℕ} → IsString pd mem a (suc n) → IsString pd mem (a + 1) n
tail {pd} {mem} {a} {n} s = record {
  inside = omega (arith, s.inside);
  readable = λ k le. ap (mapped pd) (omega arith) ∙ s.readable (suc k) (omega arith);
  characters = λ k lt e. s.characters (suc k) (omega arith) (ap mem (omega arith) ∙ e);
  terminator = ap mem (omega arith) ∙ s.terminator;
}

check_str_from-IsString :
    (pd : PageDir) (mem : ℕ → ℕ) (n left a : ℕ)
    → IsValid pd
    → IsString pd mem a n
    → a + n + 1 < phys_base
    → n < left
    → check_str_from pd mem left a ≡ runs (mapped pd (a + n + 1))
check_str_from-IsString pd mem n zero a v s room enough = absurd (omega arith)
check_str_from-IsString pd mem zero (suc left) a v s room enough =
    let m : mapped pd a ≡ true = ap (mapped pd) (omega arith) ∙ s.readable 0 (omega arith) in
    let z : mem a ≡ 0 = ap mem (omega arith) ∙ s.terminator in
    let e : a + 1 ≡ a + 0 + 1 = omega arith in
    check_str_round pd mem left a v (omega arith) ∙ rw (m, z) (ap (λ x. runs (mapped pd x)) e)
check_str_from-IsString pd mem (suc n) (suc left) a v s room enough =
    let m : mapped pd a ≡ true = ap (mapped pd) (omega arith) ∙ s.readable 0 (omega arith) in
    let nz : (mem a == 0) ≡ false =
      let c : mem a ≢ 0 = λ e. s.characters 0 (omega arith) (ap mem (omega arith) ∙ e) in
      ground (arith, c) in
    let e : a + 1 + n + 1 ≡ a + suc n + 1 = omega arith in
    check_str_round pd mem left a v (omega arith)
    ∙ rw (m, nz)
        (check_str_from-IsString pd mem n left (a + 1) v (tail s) (omega arith) (omega arith))
    ∙ ap (λ x. runs (mapped pd x)) e

-- With a valid directory, a string in mapped user memory that ends below the last user address is accepted if the byte after
-- its terminator is mapped too, and rejected otherwise.
pub check_user_str_ptr-IsString :
    (pd : PageDir) (mem : ℕ → ℕ) (ptr n : ℕ)
    → IsValid pd
    → IsString pd mem ptr n
    → ptr + n + 1 < phys_base
    → check_user_str_ptr pd mem ptr ≡ runs (mapped pd (ptr + n + 1))
unfolding check_user_str_ptr
check_user_str_ptr-IsString pd mem ptr n v s room =
    let m : mapped pd ptr ≡ true = ap (mapped pd) (omega arith) ∙ s.readable 0 (omega arith) in
    rw m (check_str_from-IsString pd mem n (phys_base - ptr) ptr v s room (omega arith))

cons :
    {pd : PageDir} {mem : ℕ → ℕ} {a n : ℕ}
    → mapped pd a ≡ true
    → mem a ≢ 0
    → IsString pd mem (a + 1) n
    → IsString pd mem a (suc n)
cons {pd} {mem} {a} {n} m c s = record {
  inside = omega (arith, s.inside);
  readable = λ k le. prepended k le;
  characters = λ k lt. λ e. first k lt e;
  terminator = ap mem (omega arith) ∙ s.terminator;
}
  where
    prepended : (k : ℕ) → k ≤ suc n → mapped pd (a + k) ≡ true
    prepended zero le = ap (mapped pd) (omega arith) ∙ m
    prepended (suc k) le = ap (mapped pd) (omega arith) ∙ s.readable k (omega arith)

    first : (k : ℕ) → k < suc n → mem (a + k) ≢ 0
    first zero lt e = c (ap mem (omega arith) ∙ e)
    first (suc k) lt e = s.characters k (omega arith) (ap mem (omega arith) ∙ e)

one :
    (pd : PageDir) (mem : ℕ → ℕ) (a : ℕ)
    → mapped pd a ≡ true
    → mem a ≡ 0
    → a < phys_base
    → IsString pd mem a 0
one pd mem a m z lt = record {
  inside = omega arith;
  readable = λ k le. ap (mapped pd) (omega arith) ∙ m;
  characters = λ k lt. absurd (omega arith);
  terminator = ap mem (omega arith) ∙ z;
}

-- At the last user address no string is accepted.
last_address :
    (pd : PageDir) (mem : ℕ → ℕ) (a : ℕ)
    → IsValid pd
    → 1 + a ≡ phys_base
    → check_str_from pd mem 1 a ≢ runs true
unfolding check_str_from
last_address pd mem a v e h =
    let (page, run, null) = get_page-mapped pd a v (lt→ltb a phys_base (omega arith)) in
    let end : pagedir_get_page pd (a + 1) ≡ panics = get_page-kernel pd (a + 1) (ground arith) in
    ground (arith, run, null, end)

accepted-IsString :
    (pd : PageDir) (mem : ℕ → ℕ) (left a : ℕ)
    → IsValid pd
    → left + a ≡ phys_base
    → check_str_from pd mem left a ≡ runs true
    → (n : ℕ) × IsString pd mem a n
accepted-IsString pd mem zero a v e h = absurd (unfold check_str_from in ground arith)
accepted-IsString pd mem (suc zero) a v e h = absurd (last_address pd mem a v e h)
accepted-IsString pd mem (suc (suc left)) a v e h =
    let round = check_str_round pd mem (suc left) a v (omega arith) in
    elim (Bool-cases (mapped pd a)) [
      | inr m ↦ absurd (ground (arith, round))
      | inl m ↦ elim (Bool-cases (mem a == 0)) [
        | inl z ↦ (0, one pd mem a m (ground (arith, z)) (omega arith))
        | inr c ↦
            let go_on : check_str_from pd mem (suc left) (a + 1) ≡ runs true =
              ground (arith, round) in
            let (n, s) = accepted-IsString pd mem (suc left) (a + 1) v (omega arith) go_on in
            (suc n, cons m (ground (arith, c)) s)
      ]
    ]

-- With a valid directory, what is accepted at a user address is a string in mapped user memory.
pub check_user_str_ptr_sound :
    (pd : PageDir) (mem : ℕ → ℕ) (ptr : ℕ)
    → IsValid pd
    → is_user_vaddr ptr ≡ true
    → check_user_str_ptr pd mem ptr ≡ runs true
    → (n : ℕ) × IsString pd mem ptr n
unfolding check_user_str_ptr
check_user_str_ptr_sound pd mem ptr v user h = elim (Bool-cases (mapped pd ptr)) [
  | inl m ↦
      accepted-IsString pd mem (phys_base - ptr) ptr v (ground (arith, user)) (ground (arith, m))
  | inr m ↦ absurd (ground (arith, m))
]

pub unmapped-panics :
    (pd : PageDir) (mem : ℕ → ℕ) (ptr : ℕ)
    → mapped pd ptr ≡ false
    → check_user_str_ptr pd mem ptr ≡ panics
unfolding check_user_str_ptr
unmapped-panics pd mem ptr m = ground (arith, m)
