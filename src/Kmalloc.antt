-- ===== src/Kmalloc.antt =====
-- mm/kmalloc.c, and size_to_page_order of include/mm/buddy.h: memory of any size up to 4 MB.
--
-- The state is that of the slab allocator, which has the region of the buddy allocator. A pointer is
-- an address, `none` is NULL; the pointers that are given back are numbers, with 0 for NULL.
pub mod Sizes
pub mod Pages
pub mod Blocks
mod Tests
mod BlockTests
use kingdo_micro_kernel.Prelude.{
  ℕ, zero, suc, ◌+◌, ◌-◌, ◌*◌, ◌^◌, Bool, true, false, not, ◌||◌, ◌&&◌, Option, none, some, ltb,
  leb, ◌==◌, if◌then◌else◌, Run, done, stop, fault, out_of_fuel, ◌>>=◌,
}
use kingdo_micro_kernel.Buddy.{
  buddy_max_order, chunk_size, MemRegion, buddy_get_pages, buddy_free_pages, page_to_virt,
  virt_to_page,
}
use kingdo_micro_kernel.Utils.{memset}
use kingdo_micro_kernel.Slab.{
  max_slab_block_order, slab_order_to_size, size_to_slab_order, SlabPool, slab_alloc, slab_free,
}

-- The loop of `size_to_page_order`.
unfoldable pub raise_page_order : ℕ → ℕ → ℕ → Run ℕ
raise_page_order zero size order = stop out_of_fuel
raise_page_order (suc fuel) size order =
    let rest = raise_page_order fuel size (order + 1) in
    if ltb (chunk_size order) size then rest else done order

-- `none` stands for -1.
unfoldable pub size_to_page_order : ℕ → Run (Option ℕ)
unfolding raise_page_order
size_to_page_order size =
    if leb size 0 || ltb (chunk_size (buddy_max_order - 1)) size
    then done none
    else (raise_page_order buddy_max_order size 0 >>= λ order. done (some order))

abbrev pub zero_size_ptr : ℕ
zero_size_ptr = 2 ^ 64 - 1

-- IS_VALID_PTR
abbrev pub is_valid_ptr : Option ℕ → Bool
is_valid_ptr none = false
is_valid_ptr (some ptr) = not (ptr == zero_size_ptr)

abbrev pub page_address : MemRegion → Option ℕ → Option ℕ
page_address r none = none
page_address r (some page) = some (page_to_virt r page)

unfoldable pub get_pages : ℕ → SlabPool → Run (Option ℕ × SlabPool)
get_pages order st = buddy_get_pages order st.region >>= λ (page, r).
    done (page_address r page, record st { region = r })

unfoldable pub free_pages : ℕ → SlabPool → Run SlabPool
free_pages addr st = elim (virt_to_page st.region addr) [
  | none ↦ done st
  | some page ↦ buddy_free_pages page st.region >>= λ r. done (record st { region = r })
]

-- An order that is -1 is shifted by: that is undefined, and a fault here.
unfoldable pub order_or_fault : Option ℕ → Run ℕ
order_or_fault none = stop fault
order_or_fault (some order) = done order

-- `__kmalloc`, with what `*real_size` is after it.
unfoldable pub kmalloc_sized : ℕ → ℕ → SlabPool → Run (Option ℕ × (ℕ × SlabPool))
unfolding get_pages size_to_page_order order_or_fault
kmalloc_sized size real_size st =
    let small =
      (size_to_slab_order size >>= λ o. order_or_fault o >>= λ order.
      slab_alloc size st >>= λ (addr, st'). done (addr, (slab_order_to_size order, st'))) in
    let large =
      (size_to_page_order size >>= λ o. order_or_fault o >>= λ order.
      get_pages order st >>= λ (addr, st'). done (addr, (chunk_size order, st'))) in
    if leb size (slab_order_to_size max_slab_block_order)
    then small
    else if leb size (chunk_size (buddy_max_order - 1))
    then large
    else done (none, (real_size, st))

-- `real_size` is not read.
unfoldable pub kmalloc : ℕ → SlabPool → Run (Option ℕ × SlabPool)
unfolding kmalloc_sized
kmalloc size st =
    let sized = (kmalloc_sized size 0 st >>= λ (addr, (_, st')). done (addr, st')) in
    if size == 0 then done (some zero_size_ptr, st) else sized

-- `memset(addr, 0, size)`, which is not possible at NULL.
unfoldable pub clear_memory : Option ℕ → ℕ → (ℕ → ℕ) → Run (ℕ → ℕ)
unfolding memset
clear_memory none zero mem = done mem
clear_memory none (suc size) mem = stop fault
clear_memory (some addr) size mem = done (memset addr 0 size mem)

-- `mem` is what the clients keep in their memory: the byte at an address.
unfoldable pub kzalloc : ℕ → SlabPool → (ℕ → ℕ) → Run (Option ℕ × (SlabPool × (ℕ → ℕ)))
unfolding kmalloc clear_memory
kzalloc size st mem = kmalloc size st >>= λ (addr, st').
    let cleared = (clear_memory addr size mem >>= λ mem'. done (addr, (st', mem'))) in
    if not (is_valid_ptr addr) then cleared else done (addr, (st', mem))

-- The result of `slab_free` is not looked at.
unfoldable pub kfree : ℕ → SlabPool → Run SlabPool
unfolding free_pages
kfree ptr st = if ptr == zero_size_ptr then done st else elim (virt_to_page st.region ptr) [
  | none ↦ done st
  | some page ↦ elim (st.region.pages page).slab [
    | some _ ↦ slab_free (some ptr) st >>= λ (_, st'). done st'
    | none ↦ free_pages ptr st
  ]
]
