-- ===== src/Segment/Tests.antt =====
-- A small segment: linuxpintos/src/userprog/process.c.
use tddb68_collab.Base.{◌+◌, ◌%◌, ◌^◌, ◌≡◌, refl, true, false, none, some, [], arith}
use tddb68_collab.Base.Kernel.{runs, panics}
use tddb68_collab.Inode.{Disk, InodeDisk}
use tddb68_collab.Opens.{OpenFile}
use tddb68_collab.Files.{file_seek}
use tddb68_collab.Segment.{
  Phdr, validate_segment, layout, Memory, fill_page, load_pages, load_segment,
}
use tddb68_collab.Segment.Validated.{IsPhdr}

-- 0x1234 bytes of the file at 0x08048100, and zeros up to 0x3000 bytes.
abbrev data_segment : Phdr
data_segment = record {
  p_offset = 0x100;
  p_vaddr = 0x08048100;
  p_filesz = 0x1234;
  p_memsz = 0x3000;
}

data_segment-IsPhdr : IsPhdr data_segment
data_segment-IsPhdr = record {
  offset = omega arith;
  vaddr = omega arith;
  filesz = omega arith;
  memsz = omega arith;
}

validate_run : validate_segment data_segment 0x2000 ≡ true
unfolding validate_segment
validate_run = refl

layout_run :
    layout data_segment
    ≡ record { file_page = 0; mem_page = 0x08048000; read_bytes = 0x1334; zero_bytes = 0x2ccc }
unfolding layout
layout_run = refl

abbrev disk : Disk
disk = record { capacity = 100; sectors = λ s k. (s + k) % 256 }

abbrev inode_data : InodeDisk
inode_data = record { start = 10; length = 0x2000 }

-- Memory that is full of ones, and none at all.
abbrev plenty : Memory
plenty = record { page = λ a. some (λ k. 1); table = λ a. true; bounce = λ a. true }

abbrev no_memory : Memory
no_memory = record plenty { page = λ a. none }

abbrev file : OpenFile
file = record { inode = 1; pos = 77; deny_write = true }

full_memory :
    load_segment disk inode_data no_memory true file [] 0 0x08048000 0x1334 0x2ccc
    ≡ runs (some (false, record file { pos = 0 }, []))
unfolding load_segment load_pages fill_page file_seek
full_memory = refl

-- An offset of 2^31 is a negative `off_t`.
far_offset : load_segment disk inode_data plenty true file [] (2 ^ 31) 0x08048000 0x1000 0 ≡ panics
unfolding load_segment file_seek
far_offset = refl
