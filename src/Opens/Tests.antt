-- ===== src/Opens/Tests.antt =====
-- A file on the inode of sector 5, at address 10: linuxpintos/src/filesys/inode.c and linuxpintos/src/filesys/file.c.
use tddb68_collab.Base.{◌≡◌, refl, true, false, some, [], ◌∷◌}
use tddb68_collab.Inode.{InodeDisk}
use tddb68_collab.Opens.{
  dangling, ◌>>=◌, Node, node_at, unlist, OpenFile, find_sector, inode_reopen, inode_close,
}
use tddb68_collab.Opens.Calls.{Files, start}

abbrev contents : InodeDisk
contents = record { start = 8; length = 700 }

abbrev node : Node
node = record {
  address = 10;
  sector = 5;
  open_cnt = 1;
  removed = false;
  contents = contents;
  deny_write_cnt = 1;
}

abbrev file : OpenFile
file = record { inode = 10; pos = 0; deny_write = true }

abbrev running : Files
running = record { nodes = node ∷ []; files = file ∷ []; found = [] }

-- `inode_open` finds the inode, another thread closes it for the last time, and `inode_reopen` comes too late.
late_reopen :
    (find_sector (node ∷ []) 5 ≡ some 10)
    × ((inode_close (node ∷ []) 10 >>= λ (ns, _). inode_reopen ns 10) ≡ dangling)
unfolding find_sector node_at unlist inode_close inode_reopen
late_reopen = (refl, refl)
