-- ===== src/Kmalloc/Tests.antt =====
-- Requests at concrete inputs.
use kingdo_micro_kernel.Prelude.{
  ℕ, ◌*◌, ◌≡◌, ◌<◌, true, refl, none, some, [], update, has, ◌∷◌, done, Run, Option, stop, arith,
}
use kingdo_micro_kernel.Buddy.{
  buddy_max_order, MemRegion, buddy_get_pages, page_to_virt, get_free_pages_nums_from_buddy,
}
use kingdo_micro_kernel.Buddy.Layout.{IsLayout}
use kingdo_micro_kernel.Buddy.Tiling.{IsTiled, IsFree, nodes_of}
use kingdo_micro_kernel.Slab.{SlabPool}
use kingdo_micro_kernel.Kmalloc.{kmalloc, kfree}
use kingdo_micro_kernel.Kmalloc.Pages.{Gives, kmalloc-Gives, kfree-kmalloc}

-- Frames 1020 to 1023: one free chunk of order 2.
abbrev whole : MemRegion
whole = record {
  start_addr = 1020 * 4096;
  size = 4 * 4096;
  page_arrry = 0;
  page_num = 4;
  free_lists =
      update (λ _. record { nodes = []; nr_free = 0 }) 2 (record { nodes = 0 ∷ []; nr_free = 1 });
  pages =
      update (λ _. record { allocated = 0; order = 0; slab = none }) 0
        (record { allocated = 0; order = 2; slab = none });
}

abbrev one_head : ℕ → ℕ
one_head q = 0

layout : IsLayout 1020 4
layout = omega arith

whole_listed :
    (o p : ℕ)
    → o < buddy_max_order
    → has p (nodes_of whole o) ≡ true
    → IsFree 4 one_head 4 whole o p
whole_listed o p lt h = ground arith

whole-IsTiled : IsTiled 1020 4 one_head 4 whole
whole-IsTiled = record {
  at = omega arith;
  covers = λ q h. omega arith;
  whole = λ q r h a b. refl;
  inner = λ q h ne. ground arith;
  listed = whole_listed;
  complete = λ p h is free ne. ground arith;
  once = λ o lt. ground arith;
  counted = λ o lt. ground arith;
}

abbrev pool : SlabPool
pool = record {
  headers = λ _. record {
    order = 0;
    next_free_block = none;
    free_block_count = 0;
    total_block_count = 0;
  };
  next = λ _. none;
  containers = λ _. record { current = none; partial_list = [] };
  region = whole;
}

abbrev pool_of : Run (Option ℕ × SlabPool) → SlabPool
pool_of (done (addr, st)) = st
pool_of (stop e) = pool

-- 5000 bytes take two pages.
abbrev taken : SlabPool
taken = pool_of (kmalloc 5000 pool)

kmalloc_run : kmalloc 5000 pool ≡ done (some (1020 * 4096), taken)
unfolding kmalloc buddy_get_pages page_to_virt
kmalloc_run = refl

in_no_slab : (p : ℕ) → (taken.region.pages p).slab ≡ none
unfolding kmalloc buddy_get_pages
in_no_slab p = ground arith

kmalloc-Gives_example : Gives 1020 4 one_head 5000 pool (kmalloc 5000 pool)
kmalloc-Gives_example = kmalloc-Gives 5000 pool (omega arith) (omega arith) layout whole-IsTiled

kfree-kmalloc_example :
    (st'' : SlabPool) × (kfree (1020 * 4096) taken ≡ done st'')
    × (get_free_pages_nums_from_buddy st''.region ≡ get_free_pages_nums_from_buddy pool.region)
kfree-kmalloc_example =
    kfree-kmalloc 5000 pool (omega arith) (omega arith) layout whole-IsTiled (1020 * 4096) taken
      kmalloc_run (λ p e. in_no_slab p)
