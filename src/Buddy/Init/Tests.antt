-- ===== src/Buddy/Init/Tests.antt =====
-- The theorems of the start at concrete regions and images.
use kingdo_micro_kernel.Prelude.{
  ℕ, ◌+◌, ◌*◌, ◌%◌, ◌≤◌, ◌≡◌, ◌≢◌, ◌⊎◌, refl, none, [], Run, done, stop, fault, arith,
}
use kingdo_micro_kernel.Buddy.{
  MemRegion, get_free_pages_nums_from_buddy, virt_to_page, page_to_virt,
}
use kingdo_micro_kernel.Buddy.Layout.{IsLayout}
use kingdo_micro_kernel.Buddy.Init.{
  populate_at, layout_region, populate_page, fill_up, fill_down, forward, backward, populate_from,
  init_buddy, page_struct_size,
}
use kingdo_micro_kernel.Buddy.Init.Populate.{IsBlank, Populates, populate_page-faults}
use kingdo_micro_kernel.Buddy.Init.Region.{
  region_base, region_pages, available, init_buddy-Populates, page_arrry-fits,
}

-- Pages that are zero, in `n` frames from `base`.
abbrev blank : ℕ → ℕ → MemRegion
blank base n = record {
  start_addr = base * 4096;
  size = n * 4096;
  page_arrry = 0;
  page_num = n;
  free_lists = λ _. record { nodes = []; nr_free = 0 };
  pages = λ _. record { allocated = 0; order = 0; slab = none };
}

blank-IsBlank : (base n : ℕ) → IsBlank n (blank base n)
blank-IsBlank base n = record { empty = λ o lt. (refl, refl); zeroed = λ p lt. (refl, refl) }

-- Three frames below a 4 MB boundary, and the 4 MB above it.
abbrev crossing : MemRegion
crossing = blank 1021 1027

abbrev free_after : Run MemRegion → ℕ
free_after (done s) = get_free_pages_nums_from_buddy s
free_after (stop e) = 0

populates_all : free_after (populate_page 0 1027 crossing) ≡ 1027
unfolding populate_page populate_from populate_at forward backward fill_up fill_down virt_to_page
    page_to_virt get_free_pages_nums_from_buddy
populates_all = refl

-- Three frames that end two frames before a 4 MB boundary, with an array of page structures.
abbrev before : MemRegion
before = record (blank 1019 3) { page_arrry = 0x8000 }

populate_page-faults_example : populate_page 0 3 before ≡ stop fault
populate_page-faults_example =
    populate_page-faults {base = 1019} {n = 3} (omega arith) (omega arith) (omega arith)
      (omega arith) (omega arith) (omega arith)

init_buddy-Populates_example :
    Populates (region_base 0x20_0000) (region_pages 0x20_0000) (init_buddy 0x20_0000 (blank 0 0))
    × IsLayout (region_base 0x20_0000) (region_pages 0x20_0000)
init_buddy-Populates_example = init_buddy-Populates {img_end = 0x20_0000} (blank 0 0) (omega arith)

-- 129 pages and one are left behind this image.
abbrev close : MemRegion
close = layout_region 0x3ef7_e000 (blank 0 0)

page_arrry-fits_example :
    ((available 0x3ef7_e000 % 129 ≢ 1)
      × (close.page_arrry + close.page_num * page_struct_size ≤ close.start_addr))
    ⊎ ((available 0x3ef7_e000 % 129 ≡ 1)
        × (close.page_arrry + close.page_num * page_struct_size
            ≡ close.start_addr + page_struct_size))
page_arrry-fits_example = page_arrry-fits {img_end = 0x3ef7_e000} (blank 0 0) (omega arith)

overlap : available 0x3ef7_e000 % 129 ≡ 1
overlap = refl
