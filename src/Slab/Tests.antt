-- ===== src/Slab/Tests.antt =====
-- A slab of blocks of 2048 bytes, and the theorems at it.
use kingdo_micro_kernel.Prelude.{
  ℕ, ◌+◌, ◌≡◌, ◌<◌, refl, ◌*◌, ◌==◌, update, inl, inr, Bool-cases, true, none, some, [], ◌∷◌, done,
  has, arith,
}
use kingdo_micro_kernel.Buddy.{MemRegion, buddy_get_pages}
use kingdo_micro_kernel.Buddy.Tiling.{IsTiled, IsFree, nodes_of}
use kingdo_micro_kernel.Slab.Alloc.{Allocs, alloc_slab_from_buddy-Allocs}
use kingdo_micro_kernel.Slab.{
  SlabPool, alloc_slab_from_buddy, slab_on, slab_alloc_order, calculate_slab_free_block_count,
  sum_free_blocks, size_to_slab_order,
}
use kingdo_micro_kernel.Slab.Blocks.{IsSlab}
use kingdo_micro_kernel.Slab.Fresh.{IsSlabOrder, size_to_slab_order-IsSlabOrder}

-- Chunk 0 of a region at 0x100000.
abbrev region : MemRegion
region = record {
  start_addr = 0x10_0000;
  size = 32 * 4096;
  page_arrry = 0;
  page_num = 32;
  free_lists = λ _. record { nodes = []; nr_free = 0 };
  pages = λ _. record { allocated = 1; order = 5; slab = none };
}

abbrev pool : SlabPool
pool = record {
  headers = λ _. record {
    order = 0;
    next_free_block = none;
    free_block_count = 0;
    total_block_count = 0;
  };
  next = λ _. none;
  containers = λ _. record { current = none; partial_list = [] };
  region = region;
}

size_to_slab_order-IsSlabOrder_example :
    (o : ℕ) × (size_to_slab_order 100 ≡ done (some o)) × IsSlabOrder 100 o
size_to_slab_order-IsSlabOrder_example =
    size_to_slab_order-IsSlabOrder 100 (omega arith) (omega arith)

-- Its blocks, by index.
abbrev block : ℕ → ℕ
block i = 0x10_0000 + i * 2048

-- A slab of which the blocks 3 and 5 are free.
abbrev two_free : SlabPool
two_free = record pool {
  headers = λ _. record {
    order = 11;
    next_free_block = some (block 3);
    free_block_count = 2;
    total_block_count = 64;
  };
  next = update (λ _. none) (block 3) (some (block 5));
}

two_free-IsSlab : IsSlab 0x10_0000 (block 3 ∷ block 5 ∷ []) two_free
two_free-IsSlab = record {
  order_in = omega arith;
  total = refl;
  chain = (refl, (refl, refl));
  counted = refl;
  once = (refl, (refl, tt));
  blocks = λ b h. elim (Bool-cases (block 3 == b)) [
    | inl e ↦ record {
      index = 3;
      place = ground arith;
      not_header = omega arith;
      inside = omega arith;
    }
    | inr ne ↦ record {
      index = 5;
      place = ground arith;
      not_header = omega arith;
      inside = omega arith;
    }
  ];
}

-- Frames 992 to 1023: one free chunk of order 5.
abbrev free_region : MemRegion
free_region = record {
  start_addr = 992 * 4096;
  size = 32 * 4096;
  page_arrry = 0;
  page_num = 32;
  free_lists =
      update (λ _. record { nodes = []; nr_free = 0 }) 5 (record { nodes = 0 ∷ []; nr_free = 1 });
  pages = λ _. record { allocated = 0; order = 5; slab = none };
}

abbrev first_page : ℕ → ℕ
first_page q = 0

free_region_listed :
    (o p : ℕ)
    → o < 11
    → has p (nodes_of free_region o) ≡ true
    → IsFree 32 first_page 32 free_region o p
free_region_listed o p lt h = ground arith

free_region-IsTiled : IsTiled 992 32 first_page 32 free_region
free_region-IsTiled = record {
  at = omega arith;
  covers = λ q h. omega arith;
  whole = λ q r h a b. refl;
  inner = λ q h ne. ground arith;
  listed = free_region_listed;
  complete = λ p h is free ne. ground arith;
  once = λ o lt. ground arith;
  counted = λ o lt. ground arith;
}

abbrev empty_pool : SlabPool
empty_pool = record pool { region = free_region }

alloc_slab_from_buddy-Allocs_example :
    Allocs 992 32 first_page 6 (omega arith) empty_pool (alloc_slab_from_buddy 6 empty_pool)
alloc_slab_from_buddy-Allocs_example =
    alloc_slab_from_buddy-Allocs 6 (omega arith) empty_pool free_region-IsTiled

-- No current slab, but the slab above, with two free blocks, in the partial list.
abbrev starved : SlabPool
starved = record two_free {
  containers = λ _. record { current = none; partial_list = 0x10_0000 ∷ [] };
}

blocks_are_free : calculate_slab_free_block_count 11 starved ≡ 2
unfolding calculate_slab_free_block_count sum_free_blocks
blocks_are_free = refl

-- They are not found, as no page is free for another slab.
starved_alloc : slab_alloc_order 11 starved ≡ done (none, starved)
unfolding slab_alloc_order alloc_slab_from_buddy slab_on buddy_get_pages
starved_alloc = refl
