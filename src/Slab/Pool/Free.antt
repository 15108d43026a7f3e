-- ===== src/Slab/Pool/Free.antt =====
-- `slab_free` in the pool.
use native.Mathlib.Nat.{mul-mod_right, div-add-mod, mod-lt}
use kingdo_micro_kernel.Prelude.{
  ℕ, ◌+◌, ◌-◌, ◌*◌, ◌/◌, ◌%◌, ◌^◌, ◌<◌, ◌≡◌, refl, ap, subst, ◌∙◌, inl, inr, true, false, ◌==◌,
  ◌||◌, ltb, Option, none, some, arith, ℕ_discrete, update, Bool-cases, done,
}
use kingdo_micro_kernel.Prelude.Arith.{two_pow_add, two_pow_pos}
use kingdo_micro_kernel.Buddy.{page_size, virt_to_page}
use kingdo_micro_kernel.Buddy.Kept.{slab_of}
use kingdo_micro_kernel.Buddy.Layout.{IsLayout, virt_to_page-inside}
use kingdo_micro_kernel.Slab.{SlabPool, slab_free_block, slab_get_header, slab_free}
use kingdo_micro_kernel.Slab.Blocks.{IsBlock}
use kingdo_micro_kernel.Slab.Fresh.{total_at}
use kingdo_micro_kernel.Slab.Pool.{IsOrder, address, IsPool, order_at, count_at, IsBlock-range}
use kingdo_micro_kernel.Slab.Pool.Put.{
  after_put, count_put, order_put, put-IsPool, append_partial-IsPool,
}
use kingdo_micro_kernel.Slab.Pool.Release.{release-IsPool}

module _ {base n o b : ℕ} {used : ℕ → Option ℕ} {st : SlabPool} (lay : IsLayout base n)
    (i : IsOrder o) (pool : IsPool base n used st) (p : ℕ) (is_live : pool.live p ≡ true)
    (oe : order_at st (address base p) ≡ o) (block : IsBlock (address base p) (2 ^ o) b)
    (in_use : used b ≡ some o) where
  abbrev put : SlabPool
  put = after_put i pool p is_live oe block in_use

  total_put :
      (pool' : IsPool base n (update used b none) put)
      → pool'.live p ≡ true
      → (put.headers (address base p)).total_block_count ≡ total_at o
  total_put pool' l =
      (pool'.heap.local p l).slab.total ∙ ap total_at (order_put i pool p is_live oe block in_use)

  free_block :
      (st' : SlabPool) × (slab_free_block (address base p) b st ≡ done st')
      × IsPool base n (update used b none) st'
  unfolding slab_free_block
  free_block =
      let fine : (ltb o 6 || ltb 11 o) ≡ false = ground (arith, i) in
      let count = count_put i pool p is_live oe block in_use in
      elim (ℕ_discrete (count_at st (address base p)) 0) [
        | yes full ↦
            let (st', e, pool') = append_partial-IsPool i pool p is_live oe block in_use full in
            let one : (count_at put (address base p) == 1) ≡ true = ground (arith, count, full) in
            (st', rw (oe, fine, one) e, pool')
        | no some_free ↦
            let (pool', l) = put-IsPool i pool p is_live oe block in_use some_free in
            let more : (count_at put (address base p) == 1) ≡ false =
              ground (arith, count, some_free) in
            elim (Bool-cases (
              count_at put (address base p)
              == (put.headers (address base p)).total_block_count - 1)) [
                | inl all ↦
                    let back : count_at put (address base p) ≡ total_at o - 1 =
                      ground (arith, all, total_put pool' l) in
                    let (st', e, pool'') =
                      release-IsPool lay i pool' p l (order_put i pool p is_live oe block in_use)
                        back in
                    (st', rw (oe, fine, more, all) e, pool'')
                | inr few ↦ (put, rw (oe, fine, more, few) refl, pool')
              ]
      ]

  offset : ℕ
  offset = b - address base p

  in_page :
      (q : ℕ) × (virt_to_page st.region b ≡ some q) × (slab_of st.region q ≡ some (address base p))
  unfolding offset
  in_page =
      let range = IsBlock-range i block in
      let c = pool.heap.chunk p is_live in
      let split = div-add-mod offset page_size in
      let small : offset % page_size < page_size = mod-lt offset (omega arith) in
      let where_in : offset / page_size < 32 = omega (arith, split, range, small, two_pow_pos o) in
      let q = p + offset / page_size in
      let e : (base + q) * page_size + offset % page_size ≡ b = omega (arith, split, range) in
      let found =
        virt_to_page-inside lay q (offset % page_size) pool.heap.tiled.at
          (omega (arith, where_in, c.inside)) small in
      (q, rw e at found, c.marked q (omega arith) (omega (arith, where_in)))

  finds : slab_get_header b st ≡ done (address base p)
  unfolding slab_get_header
  finds = let (q, found, marked) = in_page in rw (slab_get_header, found, marked) refl

  aligned : b % 64 ≡ 0
  aligned =
      let six : o ≡ 6 + (o - 6) = omega (arith, i) in
      let size : 2 ^ o ≡ 64 * 2 ^ (o - 6) = ap (λ (k : ℕ). 2 ^ k) six ∙ two_pow_add 6 (o - 6) in
      let e : b ≡ 64 * ((base + p) * 64 + block.index * 2 ^ (o - 6)) =
        omega (arith, block.place, ap (λ (t : ℕ). block.index * t) size) in
      ap (λ (t : ℕ). t % 64) e ∙ mul-mod_right 64 ((base + p) * 64 + block.index * 2 ^ (o - 6))

-- In a well-formed pool of a region that ends on a 4 MB boundary, slab_free of a block in use
-- returns 0 without reaching a BUG_ON or a kerror, in a pool that is well formed with that block
-- no more in use and the others as before.
pub slab_free-IsPool :
    {base n o b : ℕ} {used : ℕ → Option ℕ} {st : SlabPool}
    → IsLayout base n
    → IsPool base n used st
    → used b ≡ some o
    → (st' : SlabPool) × (slab_free (some b) st ≡ done (0, st'))
      × IsPool base n (update used b none) st'
unfolding slab_free
slab_free-IsPool {base} {n} {o} {b} {used} {st} lay pool in_use =
    let (p, is_live, oe, block) = pool.heap.in_slab b o in_use in
    let i : IsOrder o = subst IsOrder oe (pool.heap.local p is_live).slab.order_in in
    let (st', e, pool') = free_block lay i pool p is_live oe block in_use in
    let test : (b % 64 == 0) ≡ true =
      ground (arith, aligned lay i pool p is_live oe block in_use) in
    (st', rw (test, finds lay i pool p is_live oe block in_use, e) refl, pool')

-- A block in use is aligned to 64 bytes, and its page points to a slab.
pub block_in_page :
    {base n o b : ℕ} {used : ℕ → Option ℕ} {st : SlabPool}
    → IsLayout base n
    → IsPool base n used st
    → used b ≡ some o
    → (b % 64 ≡ 0)
      × (q : ℕ) × (s : ℕ) × (virt_to_page st.region b ≡ some q)
      × (slab_of st.region q ≡ some s)
block_in_page {base} {n} {o} {b} lay pool in_use =
    let (p, is_live, oe, block) = pool.heap.in_slab b o in_use in
    let i : IsOrder o = subst IsOrder oe (pool.heap.local p is_live).slab.order_in in
    let (q, found, marked) = in_page lay i pool p is_live oe block in_use in
    (aligned lay i pool p is_live oe block in_use, q, address base p, found, marked)
