-- ===== src/Lib.antt =====
-- A model of the Pintos kernel of this repository, and proofs about it. The kernel runs user processes,
-- each of them a thread with a page directory and a table of open files. A system call enters at
-- `syscall_handler`, which checks the addresses on the user's stack against the page directory and calls
-- a function per system call; these use the descriptor table of the thread. Pages come from
-- two pools, each with a bitmap of the pages in use, and disk sectors from a third bitmap. Locks and
-- semaphores order the threads.
--
-- What models which part (paths from linuxpintos/src):
--   Synch        threads/synch.c: `sema_init`, `sema_down`, `sema_try_down`, `sema_up`, and the functions
--                of `struct lock`. A function is cut where a thread can be interrupted: `sema_down` is
--                one round of its loop (`lock_retry` is the round after a wakeup), `lock_acquire` ends
--                before the write of `holder` (`take_hold`), `lock_release` before `sema_up`
--                (`finish_release`). Synch/Condition has the condition variables, each
--                waiting thread with its semaphore. Synch/Wakeup and Synch/Threads have the step
--                relations of any number of threads that use a semaphore or a lock;
--                Synch/Threads/Invariant what every step keeps.
--   Syscall      userprog/syscall.c: `syscall_handler` and `call_close`, up to the `call_...` functions,
--                which are the constructors of `Call`.
--   UserMemory   userprog/syscall.c: `check_user_ptr`, `check_user_str_ptr` and `check_user_buf_ptr`, and
--                loads from user memory, which panic the kernel where nothing is mapped.
--   Pagedir      userprog/pagedir.c and threads/pte.h: lookup, mapping and unmapping of pages, the words of
--                the page tables digit by digit.
--   CommandLine  userprog/process.c: what `process_execute` does to its copy of the command line, in place,
--                and the file name that it takes.
--   Segment      userprog/process.c: `validate_segment`, what `load` computes for a segment of type PT_LOAD
--                (`layout`), and `load_segment`, which reads the file as in Files; the pages of the process are a
--                list. Whether there is memory is an argument, by the address of a page.
--   Palloc       threads/palloc.c: `palloc_get_multiple`, `palloc_free_multiple`, their versions for one
--                page, and `init_pool`.
--   FreeMap      filesys/free-map.c: `free_map_init`, `free_map_allocate`, `free_map_release`.
--   Inode        filesys/inode.c: `inode_read_at` and `inode_write_at` on a disk of sectors, a round of their
--                loops at a time; Inode/Readers has the semaphores around the loops and the step relation of
--                any number of threads that read and write.
--   Opens        filesys/inode.c and filesys/file.c: the list of open inodes with their counters, and the functions
--                that open, reopen, close and remove an inode or a file or deny writes to it. Opens/Calls has the
--                calls in any order, and other calls between the search of `inode_open` and its `inode_reopen`.
--   Files        filesys/file.c: `file_read`, `file_write`, `file_seek` and the others that use the position of an open
--                file, on the inode of Inode.
--   Creation     filesys/inode.c: `inode_create`, on the disk of Inode and the map of FreeMap, with the bytes of
--                the inode in its sector.
--   Directory    filesys/directory.c: `lookup`, `dir_lookup`, `dir_add`, `dir_remove` and `dir_readdir` on the list of
--                the entries that the inode of a directory holds.
--   Filesys      filesys/filesys.c: `filesys_create`, which joins FreeMap, Creation and Directory. What the sectors of the
--                root directory and of the map hold is kept as entries and as a map, apart from the disk.
--   Hash         lib/kernel/hash.c: all functions, on buckets that are lists of elements; the functions `hash`
--                and `less` of a table are arguments. Hash/Iterating has the iterators, Hash/Bytes the hash
--                functions for bytes and strings.
--   Bitmap       lib/kernel/bitmap.c: all operations on the bits, on the words that hold them.
--   Wait         userprog/process.c: `process_wait`, `process_exit` and the end of `process_execute` on the
--                `struct thread_relation` of a parent and its children. The lists of the relation are lists, its
--                semaphore is that of Synch; Wait/System has the step relation, Wait/Users the count of the threads
--                that use the relation.
--   Scheduler    threads/thread.c and devices/timer.c: the ready list, the sleeping threads and the functions that
--                switch threads, with interrupts off and so each in one step, with their assertions on interrupts; `timer_sleep`
--                ends before `thread_add_to_waiting`. Scheduler/Fairness has the steps
--                in any order. A thread is its number; one that is not created yet counts as blocked.
--   Lists        lib/kernel/list.c: a heap with the links of each element, and the functions on them; Lists/Chain has
--                what it means that a heap holds a list. A comparison is an argument.
--   Intq         devices/intq.c: the ring buffer with its lock, that of Synch; one round of `intq_getc` or `intq_putc`
--                at a time, up to where the thread is blocked in `wait` or on the lock.
--   BinarySearch lib/stdlib.c: `binary_search`, on the indices of the array.
--   Random       lib/random.c: the generator as a record; a round of the loop of `random_bytes` is `next_byte`.
--   Strings      lib/string.c: all functions, on a memory that gives the byte at each address.
--   FdTable      threads/thread.c: `add_file_to_fd`, `get_file_from_fd`, `close_file_from_fd`.
--   Vaddr        threads/vaddr.h and lib/round.h.
--   Base, Bits   what the others share: Boolean tests, lists with native indices, C integers, calls that run
--                or panic (`Kernel`), and the digits of words.
-- Child modules named Tests hold runs on concrete data.
--
-- Conventions. An unsigned number of 32 bits is a natural number with its wrap-around written out, an `int`
-- an integer. A null pointer is 0 for addresses and `none` for objects. A failed ASSERT, a PANIC and a page
-- fault in the kernel are the result `panics`; an access outside of `file_tracker` is `out_of_bounds`.
-- A loop is a recursion on the number of rounds that are left, which the caller computes from its
-- bounds: `check_str_from` counts the addresses below the end of user memory, where the assertion of
-- `pagedir_get_page` ends the loop, `next_free` the slots of the array, and the loops of Bitmap the bits of
-- their range; so no bound on the rounds is chosen by the model. `load_pages` has as fuel the number of pages
-- of the address space, since every round takes a page of it; a loop to the end of a string the number of
-- addresses up to 2^32; a loop over a list 2^32, since the elements have addresses of their own;
-- `binary_search` has a round for every element, since every round takes one off the range; the loops of Inode
-- a round for every byte that is asked for; `round_down` a round for every bucket, since a round lowers their
-- number; and `squeeze` twice the length of the line, since a round passes a character or removes a space and
-- no character is passed or removed twice.
--
-- Arguments stand for what the models call but do not contain: the file that `filesys_open` returns, whether
-- `malloc`, `calloc` and `palloc_get_page` have room, the old contents of fresh memory, and how much of the free map
-- a write to disk stored.
--
-- Not modelled: the bodies of the system calls, the rest of loading a process (argument stack, headers),
-- `thread_create`, the functions of filesys/filesys.c but `filesys_create`, the allocator of small blocks, and of
-- the lists their splicing, reversal and sorting; these are left to add. Context switches, descriptor tables,
-- devices, printed output and the TLB are hardware or plain output. The user library, the tests and the tools
-- are programs of their own.
pub mod Base
pub mod Bits
pub mod BinarySearch
pub mod Bitmap
pub mod Strings
pub mod Vaddr
pub mod Wait
pub mod Directory
pub mod Hash
pub mod Inode
pub mod Opens
pub mod Files
pub mod Creation
pub mod Filesys
pub mod Intq
pub mod Lists
pub mod Palloc
pub mod FreeMap
pub mod Pagedir
pub mod UserMemory
pub mod Syscall
pub mod Random
pub mod Scheduler
pub mod Segment
pub mod CommandLine
pub mod Synch
pub mod FdTable
