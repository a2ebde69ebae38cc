-- ===== src/Palloc/Tests.antt =====
-- Tests of the page allocator and the theorems about it at concrete pools:
-- linuxpintos/src/threads/palloc.c.
use tddb68_collab.Base.{◌≡◌, refl, false, [], ◌∷◌, arith}
use tddb68_collab.Base.Kernel.{runs, panics}
use tddb68_collab.Bitmap.{
  bitmap_scan_and_flip, bitmap_scan, scan_from, bitmap_contains, contains_from, bitmap_test,
  flip_group, bitmap_set_multiple, set_from, bitmap_set, bitmap_mark, bitmap_all,
}
use tddb68_collab.Palloc.{
  Pages, Flags, palloc_get_multiple, deliver, give_back, page_from_pool, palloc_free_multiple,
}
use tddb68_collab.Palloc.Get.{IsValid, Got, get_multiple-Got}

-- Four kernel pages, the first two in use, and two user pages, free.
abbrev sample : Pages
sample = record {
  kernel_pool = record { used_map = record { bit_cnt = 4; bits = 0b0011 ∷ [] }; base = 0xc0010000 };
  user_pool = record { used_map = record { bit_cnt = 2; bits = 0 ∷ [] }; base = 0xc0014000 };
  memory = λ a. 7;
}

abbrev kernel_page : Flags
kernel_page = record { pal_assert = false; pal_zero = false; pal_user = false }

sample-IsValid : IsValid sample
sample-IsValid = record {
  kernel = record {
    map = record { room = omega arith; small = omega arith };
    aligned = refl;
    mapped = omega arith;
    fits = omega arith;
  };
  user = record {
    map = record { room = omega arith; small = omega arith };
    aligned = refl;
    mapped = omega arith;
    fits = omega arith;
  };
  apart = omega arith;
}

get_third :
    palloc_get_multiple sample kernel_page 1
    ≡ runs (
      0xc0012000,
      record sample {
        kernel_pool = record {
          used_map = record { bit_cnt = 4; bits = 0b0111 ∷ [] };
          base = 0xc0010000;
        };
      },
    )
unfolding palloc_get_multiple deliver bitmap_scan_and_flip bitmap_scan scan_from bitmap_contains
    contains_from bitmap_test flip_group bitmap_set_multiple set_from bitmap_set bitmap_mark
get_third = refl

abbrev after_get : Pages
after_get = record sample {
  kernel_pool = record { used_map = record { bit_cnt = 4; bits = 0b0111 ∷ [] }; base = 0xc0010000 };
}

get_fourth :
    palloc_get_multiple after_get kernel_page 1
    ≡ runs (
      0xc0013000,
      record sample {
        kernel_pool = record {
          used_map = record { bit_cnt = 4; bits = 0b1111 ∷ [] };
          base = 0xc0010000;
        };
      },
    )
unfolding palloc_get_multiple deliver bitmap_scan_and_flip bitmap_scan scan_from bitmap_contains
    contains_from bitmap_test flip_group bitmap_set_multiple set_from bitmap_set bitmap_mark
get_fourth = refl

-- A page that is not in use cannot be given back.
free_twice : palloc_free_multiple sample 0xc0012000 1 ≡ panics
unfolding palloc_free_multiple page_from_pool give_back bitmap_all bitmap_contains contains_from
    bitmap_test
free_twice = refl

get_multiple-Got_example : Got sample kernel_page 3 (palloc_get_multiple sample kernel_page 3)
get_multiple-Got_example = get_multiple-Got kernel_page 3 sample-IsValid (omega arith)
