-- ===== src/Segment.antt =====
-- Loadable segments of an executable: `validate_segment`, `load_segment` and the case of PT_LOAD in `load`,
-- linuxpintos/src/userprog/process.c. The file is read as in Files; the pages of the process are a
-- list. Whether there is memory is an argument, by the address of the page.
pub mod Validated
pub mod Filling
mod Tests
use tddb68_collab.Base.{
  ℕ, zero, suc, ◌+◌, ◌-◌, ◌*◌, ◌/◌, ◌%◌, ◌^◌, Bool, true, false, not, ◌&&◌, ◌||◌, Option, none,
  some, List, [], ◌∷◌, ◌==◌, leb, ltb, if◌then◌else◌,
}
use tddb68_collab.Base.Int.{pos, negsuc}
use tddb68_collab.Base.Kernel.{Kernel, runs, panics, ◌>>=◌, ◌>>◌, assert}
use tddb68_collab.Inode.{Bytes, Disk, InodeDisk}
use tddb68_collab.Opens.{OpenFile}
use tddb68_collab.Files.{file_read, file_seek}
use tddb68_collab.Vaddr.{pgsize, pg_ofs, is_user_vaddr, round_up}

-- The fields of `struct Elf32_Phdr` that are used.
pub record Phdr : Type 0 where
  pub p_offset : ℕ
  pub p_vaddr : ℕ
  pub p_filesz : ℕ
  pub p_memsz : ℕ

-- Addition and subtraction of `uint32_t`.
abbrev pub add32 : ℕ → ℕ → ℕ
add32 a b = (a + b) % 2 ^ 32

abbrev pub sub32 : ℕ → ℕ → ℕ
sub32 a b = (a + 2 ^ 32 - b) % 2 ^ 32

pub validate_segment : Phdr → (file_length : ℕ) → Bool
validate_segment phdr file_length =
    if not (pg_ofs phdr.p_offset == pg_ofs phdr.p_vaddr)
    then false
    else if ltb file_length phdr.p_offset
    then false
    else if ltb phdr.p_memsz phdr.p_filesz
    then false
    else if phdr.p_memsz == 0
    then false
    else if not (is_user_vaddr phdr.p_vaddr)
    then false
    else if not (is_user_vaddr (add32 phdr.p_vaddr phdr.p_memsz))
    then false
    else if ltb (add32 phdr.p_vaddr phdr.p_memsz) phdr.p_vaddr
    then false
    else if ltb phdr.p_vaddr pgsize
    then false
    else true

-- What `load` computes for a segment, the arguments of `load_segment`.
pub record Layout : Type 0 where
  pub file_page : ℕ
  pub mem_page : ℕ
  pub read_bytes : ℕ
  pub zero_bytes : ℕ

pub layout : Phdr → Layout
layout phdr =
    let page_offset = pg_ofs phdr.p_vaddr in
    let all = round_up (add32 page_offset phdr.p_memsz) pgsize in
    let read = add32 page_offset phdr.p_filesz in
    record {
      file_page = phdr.p_offset - pg_ofs phdr.p_offset;
      mem_page = phdr.p_vaddr - page_offset;
      read_bytes = if ltb 0 phdr.p_filesz then read else 0;
      zero_bytes = if ltb 0 phdr.p_filesz then sub32 all read else all;
    }

-- A page of the process: its address, its bytes and whether the process may write to it.
pub record Page : Type 0 where
  pub upage : ℕ
  pub bytes : Bytes
  pub writable : Bool

-- The byte at an address of the process, `none` where no page is mapped.
unfoldable pub user_byte : List Page → (uaddr : ℕ) → Option ℕ
user_byte [] uaddr = none
user_byte (p ∷ ps) uaddr =
    let rest = user_byte ps uaddr in
    if leb p.upage uaddr && ltb uaddr (p.upage + pgsize)
    then some (p.bytes (uaddr - p.upage))
    else rest

-- `memset (bytes + at, 0, cnt)`
abbrev pub cleared : Bytes → (at cnt : ℕ) → Bytes
cleared bytes at cnt a = if leb at a && ltb a (at + cnt) then 0 else bytes a

abbrev pub is_mapped : Option ℕ → Bool
is_mapped none = false
is_mapped (some b) = true

-- `install_page`, on the pages of the process; `room` says whether there is memory for a page table.
unfoldable pub install_page : List Page → (room : Bool) → Page → Bool × List Page
install_page ps room p =
    if is_mapped (user_byte ps p.upage) || not room then (false, ps) else (true, p ∷ ps)

-- What `load_segment` asks others for, by the address of the page: `palloc_get_page` for memory with something in it,
-- `install_page` for a page table, and `file_read` for a bounce buffer.
pub record Memory : Type 0 where
  pub page : ℕ → Option Bytes
  pub table : ℕ → Bool
  pub bounce : ℕ → Bool

-- The result of `load_segment`, the file and the pages.
abbrev pub Loaded : Type 0
Loaded = Bool × OpenFile × List Page

-- The file `i` on the disk, and whether its pages are writable.
module _ (d : Disk) (i : InodeDisk) (m : Memory) (writable : Bool) where
  -- A round of the loop of `load_segment` behind `palloc_get_page`: whether it goes on.
  unfoldable pub fill_page :
      OpenFile
      → List Page
      → (upage page_read_bytes page_zero_bytes : ℕ) → (kpage : Option Bytes) → Kernel Loaded
  fill_page f ps upage page_read_bytes page_zero_bytes none = runs (false, f, ps)
  fill_page f ps upage page_read_bytes page_zero_bytes (some old) = do
    (f', kpage, n) ← file_read d i (m.bounce upage) f old (pos page_read_bytes)
    let page : Page = record {
      upage = upage;
      bytes = cleared kpage page_read_bytes page_zero_bytes;
      writable = writable;
    }
    let (installed, ps') = install_page ps (m.table upage) page
    runs (if n == page_read_bytes then (installed, f', ps') else (false, f', ps))

  -- The loop of `load_segment` for at most `fuel` pages; `none` if there are more.
  unfoldable pub load_pages :
      (fuel : ℕ) → OpenFile → List Page → (upage read_bytes zero_bytes : ℕ) → Kernel (Option Loaded)
  load_pages zero f ps upage read_bytes zero_bytes =
      if ltb 0 read_bytes || ltb 0 zero_bytes then runs none else runs (some (true, f, ps))
  load_pages (suc fuel) f ps upage read_bytes zero_bytes =
      let page_read_bytes = if ltb read_bytes pgsize then read_bytes else pgsize in
      let page_zero_bytes = pgsize - page_read_bytes in
      let next = λ (f' : OpenFile) (ps' : List Page).
        load_pages fuel f' ps' (add32 upage pgsize) (sub32 read_bytes page_read_bytes)
          (sub32 zero_bytes page_zero_bytes) in
      let round = do
        (ok, f', ps') ← fill_page f ps upage page_read_bytes page_zero_bytes (m.page upage)
        if ok then next f' ps' else runs (some (false, f', ps'))
      in if ltb 0 read_bytes || ltb 0 zero_bytes then round else runs (some (true, f, ps))

  -- The assertions, and the loop with a page of fuel for every page of the address space. `ofs` is the word that is
  -- passed as an `off_t`.
  unfoldable pub load_segment :
      OpenFile → List Page → (ofs upage read_bytes zero_bytes : ℕ) → Kernel (Option Loaded)
  load_segment f ps ofs upage read_bytes zero_bytes = do
    assert (add32 read_bytes zero_bytes % pgsize == 0)
    assert (pg_ofs upage == 0)
    assert (ofs % pgsize == 0)
    f' ← file_seek f (if ltb ofs (2 ^ 31) then pos ofs else negsuc (2 ^ 32 - 1 - ofs))
    load_pages (2 ^ 20) f' ps upage read_bytes zero_bytes
