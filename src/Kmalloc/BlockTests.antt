-- ===== src/Kmalloc/BlockTests.antt =====
-- Requests of a few bytes in a region of 32 pages.
use kingdo_micro_kernel.Prelude.{ℕ, ◌≡◌, refl, none, update, done, arith}
use kingdo_micro_kernel.Slab.{SlabPool}
use kingdo_micro_kernel.Slab.Fresh.{IsSlabOrder}
use kingdo_micro_kernel.Slab.Pool.{IsPool}
use kingdo_micro_kernel.Slab.Pool.Serve.{Serves}
use kingdo_micro_kernel.Slab.Pool.Example.{layout, block, two, two_used, two-IsPool}
use kingdo_micro_kernel.Kmalloc.{kmalloc, kfree}
use kingdo_micro_kernel.Kmalloc.Blocks.{kmalloc-Serves, kfree-IsPool}

kmalloc-Serves_example :
    (o : ℕ) × IsSlabOrder 100 o × Serves 992 32 two_used o two (kmalloc 100 two)
kmalloc-Serves_example = kmalloc-Serves layout two-IsPool 100 (omega arith) (omega arith)

kfree-IsPool_example :
    (st : SlabPool) × (kfree (block 1) two ≡ done st)
    × IsPool 992 32 (update two_used (block 1) none) st
kfree-IsPool_example = kfree-IsPool layout two-IsPool (block 1) 11 refl
