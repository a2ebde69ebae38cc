-- ===== src/FreeMap/Tests.antt =====
-- Tests of the free map and the theorems about it at a concrete map:
-- linuxpintos/src/filesys/free-map.c.
use tddb68_collab.Base.{◌≡◌, refl, true, none, some, [], ◌∷◌, arith}
use tddb68_collab.Base.Kernel.{runs}
use tddb68_collab.Bitmap.{
  bitmap_scan_and_flip, bitmap_scan, scan_from, bitmap_contains, contains_from, bitmap_test,
  flip_group, bitmap_set_multiple, set_from, bitmap_set, bitmap_mark, bitmap_reset, bitmap_create,
  bitmap_set_all,
}
use tddb68_collab.FreeMap.{FreeMap, free_map_init, record_sectors, free_map_allocate}
use tddb68_collab.FreeMap.Allocate.{IsValid}

-- A disk of eight sectors, the map in the first and the root directory in the second.
abbrev new_map : FreeMap
new_map = record {
  free_map = record { bit_cnt = 8; bits = 0b11 ∷ [] };
  free_map_file = some (0b11 ∷ []);
}

abbrev after_two : FreeMap
after_two = record {
  free_map = record { bit_cnt = 8; bits = 0b1111 ∷ [] };
  free_map_file = some (0b1111 ∷ []);
}

new_map-IsValid : IsValid new_map
new_map-IsValid = record {
  map = record { room = omega arith; small = omega arith };
  small = omega arith;
}

init_small :
    free_map_init 8 true (some (0xff ∷ [])) ≡ runs (record new_map { free_map_file = none })
unfolding free_map_init bitmap_create bitmap_set_all bitmap_set_multiple set_from bitmap_set
    bitmap_reset bitmap_mark
init_small = refl

allocate_two : free_map_allocate new_map 2 none ≡ runs (some 2, after_two)
unfolding free_map_allocate record_sectors bitmap_scan_and_flip bitmap_scan scan_from
    bitmap_contains contains_from bitmap_test flip_group bitmap_set_multiple set_from bitmap_set
    bitmap_mark
allocate_two = refl

allocate_seven : free_map_allocate new_map 7 none ≡ runs (none, new_map)
unfolding free_map_allocate record_sectors bitmap_scan_and_flip bitmap_scan scan_from
    bitmap_contains contains_from bitmap_test flip_group bitmap_set_multiple set_from bitmap_set
    bitmap_mark
allocate_seven = refl
