-- ===== src/Buddy/Init.antt =====
-- `init_buddy` and `populate_page` of mm/buddy.c: the region is laid out behind the kernel image and
-- filled with free chunks.
pub mod Fill
pub mod Populate
pub mod Region
mod Tests
use kingdo_micro_kernel.Prelude.{
  ℕ, zero, suc, ◌+◌, ◌-◌, ◌*◌, ◌/◌, ◌^◌, Option, none, some, [], ltb, leb, if◌then◌else◌, Run, done,
  stop, fault, out_of_fuel, ◌>>=◌,
}
use kingdo_micro_kernel.Buddy.{
  page_size, buddy_max_order, chunk_size, chunk_pages_count, round_up, round_down, wrap64, Page,
  MemRegion, put_page, add_free, page_to_virt, virt_to_page,
}

-- PHYS_MEM_END
abbrev pub phys_mem_end : ℕ
phys_mem_end = 0x3f00_0000

-- KBASE
abbrev pub kbase : ℕ
kbase = 0xffff_ff00_0000_0000

-- sizeof(struct page): two list pointers, two ints and a pointer
abbrev pub page_struct_size : ℕ
page_struct_size = 32

abbrev pub phys_to_virt : ℕ → ℕ
phys_to_virt x = wrap64 (x + kbase)

-- The body of the loops: the page begins a free chunk, and enters the list of its order.
unfoldable pub put_chunk : ℕ → ℕ → MemRegion → MemRegion
put_chunk order page s =
    add_free order page (put_page page (record { allocated = 0; order = order; slab = none }) s)

-- `for (; page + pages_count - 1 < first_page + npages; page += pages_count)`
unfoldable pub fill_up : ℕ → ℕ → ℕ → ℕ → MemRegion → Run (ℕ × MemRegion)
unfolding put_chunk
fill_up zero order page end s = stop out_of_fuel
fill_up (suc fuel) order page end s =
    let rest = fill_up fuel order (page + chunk_pages_count order) end (put_chunk order page s) in
    if ltb (page + chunk_pages_count order - 1) end then rest else done (page, s)

-- `for (; page - pages_count >= first_page;)`, written without a negative index
unfoldable pub fill_down : ℕ → ℕ → ℕ → ℕ → MemRegion → Run (ℕ × MemRegion)
unfolding put_chunk
fill_down zero order page first s = stop out_of_fuel
fill_down (suc fuel) order page first s =
    let lower = page - chunk_pages_count order in
    let rest = fill_down fuel order lower first (put_chunk order lower s) in
    if leb (first + chunk_pages_count order) page then rest else done (page, s)

-- The orders below the first argument, from the highest.
unfoldable pub forward : ℕ → ℕ → ℕ → MemRegion → Run (ℕ × MemRegion)
forward zero page end s = done (page, s)
forward (suc order) page end s =
    fill_up (end + 1) order page end s >>= λ (page', s'). forward order page' end s'

unfoldable pub backward : ℕ → ℕ → ℕ → MemRegion → Run (ℕ × MemRegion)
backward zero page first s = done (page, s)
backward (suc order) page first s =
    fill_down (page + 1) order page first s >>= λ (page', s'). backward order page' first s'

-- The address of a `struct page *`, of which NULL is 0.
abbrev pub page_pointer : MemRegion → Option ℕ → ℕ
page_pointer s none = 0
page_pointer s (some page) = wrap64 (s.page_arrry + page * page_struct_size)

-- The loops from a page that is NULL: where the test of one holds, its body writes through NULL.
-- `end` and `first` are the addresses of the page structures there.
unfoldable pub forward_null : ℕ → ℕ → MemRegion → Run MemRegion
forward_null zero end s = done s
forward_null (suc order) end s =
    let rest = forward_null order end s in
    if ltb ((chunk_pages_count order - 1) * page_struct_size) end then stop fault else rest

unfoldable pub backward_null : ℕ → ℕ → MemRegion → Run MemRegion
backward_null zero first s = done s
backward_null (suc order) first s =
    let rest = backward_null order first s in
    if leb first (2 ^ 64 - chunk_pages_count order * page_struct_size) then stop fault else rest

unfoldable pub populate_null : ℕ → ℕ → MemRegion → Run MemRegion
unfolding forward_null backward_null
populate_null first npages s =
    forward_null buddy_max_order (page_pointer s (some (first + npages))) s >>= λ s'.
    backward_null (buddy_max_order - 1) (page_pointer s (some first)) s'

-- The loops from a page in the region.
unfoldable pub populate_at : ℕ → ℕ → ℕ → MemRegion → Run MemRegion
populate_at start first npages s = forward buddy_max_order start (first + npages) s >>= λ (_, s').
    backward (buddy_max_order - 1) start first s' >>= λ (_, s''). done s''

-- `first_aligned_page >= first_page + npages`, and the loops. Pointers into the array compare as
-- their indices.
unfoldable pub populate_from : Option ℕ → ℕ → ℕ → MemRegion → Run MemRegion
unfolding populate_at populate_null
populate_from none first npages s =
    let at_first = populate_at first first npages s in
    let at_null = populate_null first npages s in
    if leb (page_pointer s (some (first + npages))) (page_pointer s none) then at_first else at_null
populate_from (some aligned) first npages s =
    populate_at (if leb (first + npages) aligned then first else aligned) first npages s

unfoldable pub populate_page : ℕ → ℕ → MemRegion → Run MemRegion
unfolding populate_from
populate_page first npages s =
    populate_from
      (virt_to_page s (round_up (page_to_virt s first) (chunk_size (buddy_max_order - 1)))) first
      npages s

-- The region before it is populated: the sizes, empty lists, and the pages set to zero.
unfoldable pub layout_region : ℕ → MemRegion → MemRegion
layout_region img_end s =
    let start = round_up img_end page_size in
    let end = round_down phys_mem_end page_size in
    let npages = (end - start) / (page_size + page_struct_size) in
    let free_start = round_up (start + npages * page_struct_size) page_size in
    let npages' = (end - free_start) / page_size in
    record {
      start_addr = phys_to_virt free_start;
      size = end - free_start;
      page_arrry = phys_to_virt start;
      page_num = npages';
      free_lists =
          λ o. if ltb o buddy_max_order then record { nodes = []; nr_free = 0 } else s.free_lists o;
      pages = λ p.
          if ltb p npages' then record { allocated = 0; order = 0; slab = none } else s.pages p;
    }

-- `img_end` is the physical address at which the kernel image ends.
unfoldable pub init_buddy : ℕ → MemRegion → Run MemRegion
init_buddy img_end s = populate_page 0 (layout_region img_end s).page_num (layout_region img_end s)
