-- ===== src/Buddy/Init/Region.antt =====
-- The region that `init_buddy` lays out between the kernel image and the end of the memory.
use kingdo_micro_kernel.Prelude.{
  ℕ, ◌+◌, ◌-◌, ◌*◌, ◌/◌, ◌%◌, ◌≤◌, ◌≡◌, ◌⊎◌, ◌≢◌, inl, inr, sym, subst, ℕ_discrete, arith,
}
use kingdo_micro_kernel.Buddy.{page_size, round_up, MemRegion}
use kingdo_micro_kernel.Buddy.Layout.{IsAt, IsLayout}
use kingdo_micro_kernel.Buddy.Init.{
  layout_region, populate_page, init_buddy, kbase, phys_mem_end, page_struct_size,
}
use kingdo_micro_kernel.Buddy.Init.Populate.{IsBlank, Populates, populate_page-Populates}

-- The pages from the image's end to the end of the memory.
abbrev pub available : ℕ → ℕ
available img_end = (phys_mem_end - round_up img_end page_size) / page_size

-- The number of pages that the layout leaves to the allocator.
abbrev pub region_pages : ℕ → ℕ
region_pages img_end = available img_end - (available img_end * 4096 / 4128 * 32 + 4095) / 4096

abbrev pub region_base : ℕ → ℕ
region_base img_end = (kbase + phys_mem_end) / page_size - region_pages img_end

module _ {img_end : ℕ} (s : MemRegion) (small : img_end ≤ 0x3e00_0000) where
  abbrev region : MemRegion
  region = layout_region img_end s

  region-IsAt : IsAt (region_base img_end) (region_pages img_end) region
  unfolding layout_region
  region-IsAt = record { at_start = omega arith; at_size = omega arith; at_num = omega arith }

  region-IsBlank : IsBlank (region_pages img_end) region
  unfolding layout_region
  region-IsBlank = record { empty = λ o lt. ground arith; zeroed = λ p lt. ground arith }

  region-IsLayout : IsLayout (region_base img_end) (region_pages img_end)
  region-IsLayout = omega arith

  -- For a kernel image that ends at or below 0x3E000000, whatever the state before, init_buddy
  -- returns without a fault: the region is tiled, no page of it is handed out,
  -- get_free_pages_nums_from_buddy counts all its pages, and it ends on a 4 MB boundary below 2 ^
  -- 64.
  pub init_buddy-Populates :
      Populates (region_base img_end) (region_pages img_end) (init_buddy img_end s)
      × IsLayout (region_base img_end) (region_pages img_end)
  unfolding init_buddy
  init_buddy-Populates =
      let num : region.page_num ≡ region_pages img_end = region-IsAt.at_num in
      (
        subst
            (λ k. Populates (region_base img_end) (region_pages img_end) (populate_page 0 k region))
            (sym num)
            (populate_page-Populates region-IsAt region-IsBlank region-IsLayout (omega arith)),
        region-IsLayout,
      )

module _ {img_end : ℕ} (s : MemRegion) (small : img_end ≤ phys_mem_end) where
  abbrev laid : MemRegion
  laid = layout_region img_end s

  -- For an image that ends at or below the end of the memory, the array of page structures that
  -- init_buddy lays out ends at or before the first page it hands out, except where the number of
  -- available pages is 1 modulo 129: then the array ends 32 bytes, one page structure, above the
  -- start of that page.
  pub page_arrry-fits :
      ((available img_end % 129 ≢ 1)
        × (laid.page_arrry + laid.page_num * page_struct_size ≤ laid.start_addr))
      ⊎ ((available img_end % 129 ≡ 1)
          × (laid.page_arrry + laid.page_num * page_struct_size
              ≡ laid.start_addr + page_struct_size))
  unfolding layout_region
  page_arrry-fits = elim (ℕ_discrete (available img_end % 129) 1) [
    | yes bad ↦ inr (bad, omega arith)
    | no good ↦ inl (good, omega arith)
  ]
