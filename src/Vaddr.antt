-- ===== src/Vaddr.antt =====
-- Virtual addresses as numbers below 2 ^ 32: linuxpintos/src/threads/vaddr.h, and the rounding macros
-- of linuxpintos/src/lib/round.h. `& PGMASK` is `% 4096` and `>> PGBITS` is `/ 4096`.
use tddb68_collab.Base.{ℕ, ◌+◌, ◌-◌, ◌*◌, ◌/◌, ◌%◌, ◌^◌, Bool, ltb}

abbrev pub pgsize : ℕ
pgsize = 2 ^ 12

abbrev pub phys_base : ℕ
phys_base = 0xc0000000

abbrev pub pg_ofs : ℕ → ℕ
pg_ofs va = va % pgsize

abbrev pub pg_no : ℕ → ℕ
pg_no va = va / pgsize

abbrev pub pg_round_down : ℕ → ℕ
pg_round_down va = va - va % pgsize

-- The sum wraps in the last page.
abbrev pub pg_round_up : ℕ → ℕ
pg_round_up va = pg_round_down ((va + pgsize - 1) % 2 ^ 32)

abbrev pub is_user_vaddr : ℕ → Bool
is_user_vaddr vaddr = ltb vaddr phys_base

abbrev pub round_up : ℕ → ℕ → ℕ
round_up x step = (x + step - 1) % 2 ^ 32 / step * step

abbrev pub div_round_up : ℕ → ℕ → ℕ
div_round_up x step = (x + step - 1) % 2 ^ 32 / step
