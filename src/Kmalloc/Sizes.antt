-- ===== src/Kmalloc/Sizes.antt =====
-- The size that a request is given.
use kingdo_micro_kernel.Prelude.{
  ℕ, zero, suc, ◌+◌, ◌-◌, ◌^◌, ◌≤◌, ◌<◌, ◌≡◌, ◌≢◌, refl, ap, ◌⊎◌, inl, inr, true, false, ◌||◌, some,
  ltb, ltb→lt, leb, done, ◌>>=◌, arith, Bool-cases,
}
use kingdo_micro_kernel.Buddy.{chunk_size}
use kingdo_micro_kernel.Slab.{SlabPool, slab_order_to_size, slab_alloc}
use kingdo_micro_kernel.Slab.Fresh.{IsSlabOrder, size_to_slab_order-IsSlabOrder}
use kingdo_micro_kernel.Kmalloc.{
  raise_page_order, size_to_page_order, get_pages, order_or_fault, kmalloc_sized,
}

-- `order` is the least order whose chunks hold `size` bytes.
pub record IsPageOrder (size order : ℕ) : Type 0 where
  pub in_range : order ≤ 10
  pub holds : size ≤ chunk_size order
  pub least : (order ≡ 0) ⊎ (chunk_size (order - 1) < size)

raise_page_order-IsPageOrder :
    (fuel size order : ℕ)
    → size ≤ chunk_size 10
    → 10 < order + fuel
    → order ≤ 10
    → (order ≡ 0) ⊎ (chunk_size (order - 1) < size)
    → (o : ℕ) × (raise_page_order fuel size order ≡ done o) × IsPageOrder size o
unfolding raise_page_order
raise_page_order-IsPageOrder zero size order fits enough high before = absurd (omega arith)
raise_page_order-IsPageOrder (suc fuel) size order fits enough high before =
    elim (Bool-cases (ltb (chunk_size order) size)) [
      | inl more ↦
          let less : order ≢ 10 =
            λ e. omega (arith, ltb→lt (chunk_size order) size more, ap chunk_size e) in
          let e : order + 1 - 1 ≡ order = omega arith in
          rw more (
            raise_page_order-IsPageOrder fuel size (order + 1) fits (omega arith) (omega arith)
              (inr (rw e (ltb→lt (chunk_size order) size more))))
      | inr found ↦
          rw found (order, refl, record { in_range = high; holds = ground arith; least = before })
    ]

pub size_to_page_order-IsPageOrder :
    (size : ℕ)
    → 0 < size
    → size ≤ 2 ^ 22
    → (o : ℕ) × (size_to_page_order size ≡ done (some o)) × IsPageOrder size o
unfolding size_to_page_order
size_to_page_order-IsPageOrder size pos fits =
    let (o, e, i) =
      raise_page_order-IsPageOrder 11 size 0 fits (omega arith) (omega arith) (inl refl) in
    let test : (leb size 0 || ltb (2 ^ 22) size) ≡ false = ground arith in (o, rw (test, e) refl, i)

-- What `__kmalloc` does, by the size.
pub kmalloc_sized-small :
    (size real_size : ℕ) (st : SlabPool)
    → 0 < size
    → size ≤ 2048
    → (order : ℕ) × IsSlabOrder size order
      × (kmalloc_sized size real_size st
          ≡ (slab_alloc size st >>= λ (addr, st'). done (addr, (slab_order_to_size order, st'))))
unfolding kmalloc_sized order_or_fault
kmalloc_sized-small size real_size st pos fits =
    let (o, e, i) = size_to_slab_order-IsSlabOrder size pos fits in
    let test : leb size 2048 ≡ true = ground arith in (o, i, rw (test, e) refl)

pub kmalloc_sized-large :
    (size real_size : ℕ) (st : SlabPool)
    → 2048 < size
    → size ≤ 2 ^ 22
    → (order : ℕ) × IsPageOrder size order
      × (kmalloc_sized size real_size st
          ≡ (get_pages order st >>= λ (addr, st'). done (addr, (chunk_size order, st'))))
unfolding kmalloc_sized order_or_fault
kmalloc_sized-large size real_size st big fits =
    let (o, e, i) = size_to_page_order-IsPageOrder size (omega arith) fits in
    let test : leb size 2048 ≡ false = ground arith in
    let test' : leb size (2 ^ 22) ≡ true = ground arith in (o, i, rw (test, test', e) refl)
