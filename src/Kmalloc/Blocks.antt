-- ===== src/Kmalloc/Blocks.antt =====
-- Requests that the slab allocator serves.
use kingdo_micro_kernel.Prelude.{
  ℕ, ◌≤◌, ◌<◌, ◌≡◌, refl, ◌⊎◌, false, Option, none, some, ◌==◌, update, Run, done, stop, fault,
  arith,
}
use kingdo_micro_kernel.Buddy.Layout.{IsLayout}
use kingdo_micro_kernel.Slab.{SlabPool, slab_alloc, slab_order_to_size}
use kingdo_micro_kernel.Slab.Fresh.{IsSlabOrder}
use kingdo_micro_kernel.Slab.Pool.{IsPool}
use kingdo_micro_kernel.Slab.Pool.Serve.{Serves}
use kingdo_micro_kernel.Slab.Pool.Free.{slab_free-IsPool, block_in_page}
use kingdo_micro_kernel.Slab.Pool.Clients.{slab_alloc-Serves}
use kingdo_micro_kernel.Kmalloc.{kmalloc, kfree, zero_size_ptr}
use kingdo_micro_kernel.Kmalloc.Sizes.{kmalloc_sized-small}
use kingdo_micro_kernel.Kmalloc.Pages.{drop_size}

-- kmalloc is slab_alloc there.
kmalloc-small :
    (size : ℕ) (st : SlabPool) → 0 < size → size ≤ 2048 → kmalloc size st ≡ slab_alloc size st
unfolding kmalloc
kmalloc-small size st pos fits =
    let (o, i, e) = kmalloc_sized-small size 0 st pos fits in
    let test : (size == 0) ≡ false = ground arith in
    rw (test, e) (drop_size (slab_order_to_size o) (slab_alloc size st))

-- A block is handed out with its memory as it was, and NULL is cleared.
abbrev pub Skips :
    (ℕ → ℕ) → Run (Option ℕ × SlabPool) → Run (Option ℕ × (SlabPool × (ℕ → ℕ))) → Type 0
Skips mem given zeroed =
    ((b : ℕ) × (st' : SlabPool) × (given ≡ done (some b, st'))
      × (zeroed ≡ done (some b, (st', mem))))
    ⊎ ((st' : SlabPool) × (given ≡ done (none, st')) × (zeroed ≡ stop fault))

module _ {base n : ℕ} {used : ℕ → Option ℕ} {st : SlabPool} (lay : IsLayout base n)
    (pool : IsPool base n used st) where
  -- In a well-formed pool of a region that ends on a 4 MB boundary, and for a size from 1 to 2048,
  -- kmalloc returns, for the least order whose blocks hold the size: either the address of a block
  -- that was not in use, in a pool that is well formed with that block, of that order, in use and
  -- the others as before; or NULL with nothing changed, and then the container of the order has no
  -- current slab and every free list from order 5 on is empty.
  pub kmalloc-Serves :
      (size : ℕ)
      → 0 < size
      → size ≤ 2048
      → (o : ℕ) × IsSlabOrder size o × Serves base n used o st (kmalloc size st)
  kmalloc-Serves size pos fits =
      let (o, i, e, s) = slab_alloc-Serves size lay pool pos fits in
      (o, i, rw (kmalloc-small size st pos fits) s)

  -- In a well-formed pool of a region that ends on a 4 MB boundary, kfree of a block in use
  -- returns, in a pool that is well formed with that block no more in use and the others as
  -- before.
  pub kfree-IsPool :
      (b o : ℕ)
      → used b ≡ some o
      → (st' : SlabPool) × (kfree b st ≡ done st') × IsPool base n (update used b none) st'
  unfolding kfree
  kfree-IsPool b o in_use =
      let (even, q, s, found, marked) = block_in_page lay pool in_use in
      let (st', e, pool') = slab_free-IsPool lay pool in_use in
      let other : (b == zero_size_ptr) ≡ false = ground (arith, even) in
      (st', rw (kfree, other, found, marked, e) refl, pool')
