-- ===== src/Filesys/Tests.antt =====
-- Creating files on a volume of eight sectors: linuxpintos/src/filesys/filesys.c.
use tddb68_collab.Base.{◌+◌, ◌*◌, ◌%◌, ◌≡◌, refl, true, false, none, [], ◌∷◌}
use tddb68_collab.Base.Int.{pos}
use tddb68_collab.Base.Kernel.{runs}
use tddb68_collab.Filesys.{Volume, Surroundings, give_back, filesys_create}

abbrev volume : Volume
volume = record {
  disk = record { capacity = 8; sectors = λ s k. (s * 100 + k) % 256 };
  map = record { free_map = record { bit_cnt = 8; bits = 0b1111 ∷ [] }; free_map_file = none };
  root = record { inode_sector = 0; name = []; in_use = false } ∷ [];
  root_inode = record { start = 3; length = 20 };
  map_inode = record { start = 2; length = 1 };
}

abbrev surroundings : Surroundings
surroundings = record {
  room = true;
  memory = λ k. true;
  memory' = λ k. true;
  slot_room = true;
  short = none;
  short' = none;
  short'' = none;
}

-- Without the root directory nothing happens.
not_opened : filesys_create volume false surroundings (97 ∷ []) (pos 700) ≡ runs (false, volume)
unfolding filesys_create
not_opened = refl

-- Sector 0 stands for none.
no_sector : give_back volume surroundings 0 false ≡ runs (false, volume)
unfolding give_back
no_sector = refl
