-- ===== src/Segment/Validated.antt =====
-- Where a validated segment goes: linuxpintos/src/userprog/process.c.
use tddb68_collab.Base.{ℕ, ◌+◌, ◌%◌, ◌^◌, ◌<◌, ◌≤◌, ◌≡◌, ◌⊎◌, true, arith}
use tddb68_collab.Vaddr.{pgsize, phys_base, pg_ofs}
use tddb68_collab.Segment.{Phdr, Layout, validate_segment, layout}

-- The fields are 32-bit words.
pub record IsPhdr (p : Phdr) : Type 0 where
  pub offset : p.p_offset < 2 ^ 32
  pub vaddr : p.p_vaddr < 2 ^ 32
  pub filesz : p.p_filesz < 2 ^ 32
  pub memsz : p.p_memsz < 2 ^ 32

-- The checks, without the wrap-around of the code.
pub record Loadable (p : Phdr) (file_length : ℕ) : Type 0 where
  pub congruent : pg_ofs p.p_offset ≡ pg_ofs p.p_vaddr
  pub in_file : p.p_offset ≤ file_length
  pub file_in_mem : p.p_filesz ≤ p.p_memsz
  pub not_empty : 0 < p.p_memsz
  pub user : p.p_vaddr + p.p_memsz < phys_base
  pub not_page_0 : pgsize ≤ p.p_vaddr

-- Of a header whose fields are 32-bit words, `validate_segment` accepts only one whose segment, computed
-- without wrap-around, lies in user memory above page 0, is not empty, holds its bytes of the file, and
-- starts at the same offset in its page and inside the file.
pub validate-Loadable :
    (p : Phdr) (file_length : ℕ)
    → IsPhdr p
    → validate_segment p file_length ≡ true
    → Loadable p file_length
unfolding validate_segment
validate-Loadable p file_length w h = record {
  congruent = ground (arith, w.vaddr, w.memsz);
  in_file = ground (arith, w.vaddr, w.memsz);
  file_in_mem = ground (arith, w.vaddr, w.memsz);
  not_empty = ground (arith, w.vaddr, w.memsz);
  user = ground (arith, w.vaddr, w.memsz);
  not_page_0 = ground (arith, w.vaddr, w.memsz);
}

-- Where a layout puts a segment: on whole pages of user memory above page 0 and whole pages of the
-- file, covering the segment, with the bytes of the file at their addresses.
pub record Placed (p : Phdr) (l : Layout) : Type 0 where
  pub whole_pages : (l.read_bytes + l.zero_bytes) % pgsize ≡ 0
  pub mem_aligned : pg_ofs l.mem_page ≡ 0
  pub file_aligned : l.file_page % pgsize ≡ 0
  pub above_page_0 : pgsize ≤ l.mem_page
  pub user : l.mem_page + (l.read_bytes + l.zero_bytes) ≤ phys_base
  pub start : l.mem_page ≤ p.p_vaddr
  pub end : p.p_vaddr + p.p_memsz ≤ l.mem_page + (l.read_bytes + l.zero_bytes)
  pub read :
      (l.read_bytes ≡ 0) × (p.p_filesz ≡ 0)
      ⊎ (l.mem_page + l.read_bytes ≡ p.p_vaddr + p.p_filesz)
        × (l.file_page + l.read_bytes ≡ p.p_offset + p.p_filesz)

-- The layout of a loadable segment of 32-bit words puts it on whole pages of user memory above page 0
-- and of the file, which cover it, and its bytes of the file end at their addresses.
pub layout-Placed :
    (p : Phdr) (file_length : ℕ) → IsPhdr p → Loadable p file_length → Placed p (layout p)
unfolding layout
layout-Placed p file_length w v = record {
  whole_pages = ground (arith, v.user, v.file_in_mem);
  mem_aligned = ground (arith, v.user, v.file_in_mem);
  file_aligned = ground (arith, v.user, v.file_in_mem);
  above_page_0 = ground (arith, v.user, v.not_page_0);
  user = ground (arith, v.user, v.file_in_mem);
  start = ground (arith, v.user, v.file_in_mem);
  end = ground (arith, v.user, v.file_in_mem);
  read = ground (arith, v.user, v.file_in_mem, v.congruent);
}
