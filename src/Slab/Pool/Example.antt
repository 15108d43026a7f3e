-- ===== src/Slab/Pool/Example.antt =====
-- A region of 32 pages, and the pools after one and two allocations.
use kingdo_micro_kernel.Prelude.{
  ℕ, ◌+◌, ◌*◌, ◌<◌, ◌≡◌, refl, true, has, ◌∷◌, Option, none, some, [], update, Run, done, stop,
  arith,
}
use kingdo_micro_kernel.Buddy.{MemRegion, buddy_get_pages, page_to_virt}
use kingdo_micro_kernel.Buddy.Layout.{IsLayout}
use kingdo_micro_kernel.Buddy.Tiling.{IsTiled, IsFree, nodes_of}
use kingdo_micro_kernel.Slab.{
  SlabPool, init_slab, slab_alloc, size_to_slab_order, raise_order, slab_alloc_order,
  alloc_slab_from_buddy, slab_on, make_slab, link_blocks, alloc_from_current, slab_get_free_block,
}
use kingdo_micro_kernel.Slab.Pool.{IsPool}
use kingdo_micro_kernel.Slab.Pool.Clients.{
  gets, IsReached, first, next, init_slab-IsPool, reached-IsPool,
}

-- Frames 992 to 1023: one free chunk of order 5.
abbrev pub region : MemRegion
region = record {
  start_addr = 992 * 4096;
  size = 32 * 4096;
  page_arrry = 0;
  page_num = 32;
  free_lists =
      update (λ _. record { nodes = []; nr_free = 0 }) 5 (record { nodes = 0 ∷ []; nr_free = 1 });
  pages = λ _. record { allocated = 0; order = 5; slab = none };
}

abbrev pub first_page : ℕ → ℕ
first_page q = 0

listed_pages :
    (o p : ℕ) → o < 11 → has p (nodes_of region o) ≡ true → IsFree 32 first_page 32 region o p
listed_pages o p lt h = ground arith

pub region-IsTiled : IsTiled 992 32 first_page 32 region
region-IsTiled = record {
  at = omega arith;
  covers = λ q h. omega arith;
  whole = λ q r h a b. refl;
  inner = λ q h ne. ground arith;
  listed = listed_pages;
  complete = λ p h is free ne. ground arith;
  once = λ o lt. ground arith;
  counted = λ o lt. ground arith;
}

pub layout : IsLayout 992 32
layout = record { end_aligned = refl; end_fits = omega arith }

abbrev pub before : SlabPool
before = record {
  headers = λ _. record {
    order = 0;
    next_free_block = none;
    free_block_count = 0;
    total_block_count = 0;
  };
  next = λ _. none;
  containers = λ _. record { current = none; partial_list = [] };
  region = region;
}

abbrev pub pool_of : Run (Option ℕ × SlabPool) → SlabPool
pool_of (done (addr, st)) = st
pool_of (stop e) = before

abbrev pub block : ℕ → ℕ
block i = 992 * 4096 + i * 2048

abbrev pub one : SlabPool
one = pool_of (slab_alloc 2000 (init_slab before))

abbrev pub two : SlabPool
two = pool_of (slab_alloc 1025 one)

one_run : slab_alloc 2000 (init_slab before) ≡ done (some (block 1), one)
unfolding slab_alloc buddy_get_pages page_to_virt init_slab size_to_slab_order raise_order
    slab_alloc_order alloc_slab_from_buddy slab_on make_slab link_blocks alloc_from_current
    slab_get_free_block
one_run = refl

two_run : slab_alloc 1025 one ≡ done (some (block 2), two)
unfolding slab_alloc buddy_get_pages page_to_virt init_slab size_to_slab_order raise_order
    slab_alloc_order alloc_slab_from_buddy slab_on make_slab link_blocks alloc_from_current
    slab_get_free_block
two_run = refl

order_2000 : size_to_slab_order 2000 ≡ done (some 11)
unfolding size_to_slab_order raise_order
order_2000 = refl

order_1025 : size_to_slab_order 1025 ≡ done (some 11)
unfolding size_to_slab_order raise_order
order_1025 = refl

abbrev pub none_used : ℕ → Option ℕ
none_used b = none

abbrev pub one_used : ℕ → Option ℕ
one_used = update none_used (block 1) (some 11)

abbrev pub two_used : ℕ → Option ℕ
two_used = update one_used (block 2) (some 11)

pub reached_one : IsReached (init_slab before) one_used one
reached_one = next first (gets 2000 (block 1) 11 (omega arith) (omega arith) order_2000 one_run)

pub reached_two : IsReached (init_slab before) two_used two
reached_two =
    next reached_one (gets 1025 (block 2) 11 (omega arith) (omega arith) order_1025 two_run)

pub two-IsPool : IsPool 992 32 two_used two
two-IsPool = reached-IsPool layout (init_slab-IsPool before region-IsTiled) reached_two
