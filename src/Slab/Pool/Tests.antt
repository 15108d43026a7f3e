-- ===== src/Slab/Pool/Tests.antt =====
-- Two allocations and a release in a region of 32 pages, and the theorems at them.
use kingdo_micro_kernel.Prelude.{ℕ, ◌+◌, ◌^◌, ◌≤◌, ◌≡◌, ◌⊎◌, refl, none, some, update, done, arith}
use kingdo_micro_kernel.Slab.{SlabPool, slab_alloc, slab_free, size_to_slab_order}
use kingdo_micro_kernel.Slab.Fresh.{IsSlabOrder}
use kingdo_micro_kernel.Slab.Pool.{IsPool}
use kingdo_micro_kernel.Slab.Pool.Serve.{Serves}
use kingdo_micro_kernel.Slab.Pool.Free.{slab_free-IsPool}
use kingdo_micro_kernel.Slab.Pool.Clients.{slab_alloc-Serves, reached-apart}
use kingdo_micro_kernel.Slab.Pool.Example.{
  before, layout, region-IsTiled, block, two, two_used, reached_two, two-IsPool,
}

slab_alloc-Serves_example :
    (o : ℕ) × IsSlabOrder 300 o
    × (size_to_slab_order 300 ≡ done (some o))
    × Serves 992 32 two_used o two (slab_alloc 300 two)
slab_alloc-Serves_example = slab_alloc-Serves 300 layout two-IsPool (omega arith) (omega arith)

slab_free-IsPool_example :
    (st : SlabPool) × (slab_free (some (block 1)) two ≡ done (0, st))
    × IsPool 992 32 (update two_used (block 1) none) st
slab_free-IsPool_example = slab_free-IsPool layout two-IsPool refl

reached-apart_example : (block 1 + 2 ^ 11 ≤ block 2) ⊎ (block 2 + 2 ^ 11 ≤ block 1)
reached-apart_example =
    reached-apart layout before region-IsTiled reached_two refl refl (λ e. omega (arith, e))
