-- ===== src/Slab.antt =====
-- mm/slab.c and include/mm/slab.h: blocks of 64 to 2048 bytes, cut from chunks of 32 pages.
--
-- `slab_pool_g` and what it points to is the record `SlabPool`: the headers by the address of their
-- slab, the `next` words of the free blocks by the address of the block, the containers by their
-- order, and the region of the buddy allocator. A header has 40 bytes and lies in block 0 of its
-- slab, so the two maps do not overlap. `partial_list` is the sequence of the slabs that are linked
-- into it. A call is one step: the header's order and the mark of the page are read before the container's lock
-- is taken, and the list node of an emptied slab after its pages have been given back, so calls that
-- run at the same time are not modelled.
pub mod Blocks
pub mod Fresh
pub mod Alloc
pub mod Pool
mod Tests
use kingdo_micro_kernel.Prelude.{
  ℕ, zero, suc, ◌+◌, ◌-◌, ◌*◌, ◌/◌, ◌%◌, ◌^◌, Bool, true, false, not, ◌||◌, ◌&&◌, Option, none,
  some, List, [], ◌∷◌, ◌++◌, ltb, leb, ◌==◌, if◌then◌else◌, update, remove, Run, done, stop, hang,
  fault, out_of_fuel, ◌>>=◌,
}
use kingdo_micro_kernel.Buddy.{
  page_shift, MemRegion, chunk_pages_count, put_page, buddy_get_pages, buddy_free_pages,
  page_to_virt, virt_to_page,
}

abbrev pub min_slab_block_order : ℕ
min_slab_block_order = 6

abbrev pub max_slab_block_order : ℕ
max_slab_block_order = 11

abbrev pub slab_page_order : ℕ
slab_page_order = 5

abbrev pub slab_size : ℕ
slab_size = 2 ^ (slab_page_order + page_shift)

abbrev pub slab_pages_count : ℕ
slab_pages_count = chunk_pages_count slab_page_order

abbrev pub enomem : ℕ
enomem = 12

abbrev pub slab_order_to_size : ℕ → ℕ
slab_order_to_size order = 2 ^ order

-- The loop of `size_to_slab_order`.
unfoldable pub raise_order : ℕ → ℕ → ℕ → Run ℕ
raise_order zero size order = stop out_of_fuel
raise_order (suc fuel) size order =
    let rest = raise_order fuel size (order + 1) in
    if ltb (slab_order_to_size order) size then rest else done order

-- `none` stands for -1.
unfoldable pub size_to_slab_order : ℕ → Run (Option ℕ)
size_to_slab_order size =
    if leb size 0 || ltb (slab_order_to_size max_slab_block_order) size
    then done none
    else (raise_order 6 size min_slab_block_order >>= λ order. done (some order))

pub record SlabHeader : Type 0 where
  pub order : ℕ
  pub next_free_block : Option ℕ
  pub free_block_count : ℕ
  pub total_block_count : ℕ

pub record SlabContainer : Type 0 where
  pub current : Option ℕ
  pub partial_list : List ℕ

pub record SlabPool : Type 0 where
  pub headers : ℕ → SlabHeader
  pub next : ℕ → Option ℕ
  pub containers : ℕ → SlabContainer
  pub region : MemRegion

-- The loop that links the blocks from `block` on, and the NULL in the last one.
unfoldable pub link_blocks : ℕ → ℕ → ℕ → ℕ → (ℕ → Option ℕ) → Run (ℕ → Option ℕ)
link_blocks zero s size block next = stop out_of_fuel
link_blocks (suc fuel) s size block next =
    let rest = link_blocks fuel s size (block + size) (update next block (some (block + size))) in
    if ltb block (s + slab_size - size) then rest else done (update next block none)

-- `page->slab` of the pages from `page` on.
unfoldable pub set_slabs : ℕ → ℕ → Option ℕ → MemRegion → MemRegion
set_slabs zero page v r = r
set_slabs (suc k) page v r =
    set_slabs k (page + 1) v (put_page page (record (r.pages page) { slab = v }) r)

-- The slab of `alloc_slab_from_buddy` on the page that it got.
unfoldable pub make_slab : ℕ → ℕ → SlabPool → Run SlabPool
make_slab order page st =
    let s = page_to_virt st.region page in
    let size = slab_order_to_size order in
    link_blocks (slab_size / size) s size (s + size) st.next >>= λ next'. done (record {
      headers = update st.headers s (record {
        order = order;
        next_free_block = some (s + size);
        free_block_count = slab_size / size - 1;
        total_block_count = slab_size / size;
      });
      next = next';
      containers = update st.containers order (record (st.containers order) { current = some s });
      region = set_slabs slab_pages_count page (some s) st.region;
    })

-- 0, or the error that the code returns as -ENOMEM.
unfoldable pub slab_on : ℕ → Option ℕ → SlabPool → Run (ℕ × SlabPool)
slab_on order none st = done (enomem, st)
slab_on order (some page) st = make_slab order page st >>= λ st'. done (0, st')

unfoldable pub alloc_slab_from_buddy : ℕ → SlabPool → Run (ℕ × SlabPool)
alloc_slab_from_buddy order st = buddy_get_pages slab_page_order st.region >>= λ (page, r).
    slab_on order page (record st { region = r })

-- The slab is given by its address.
unfoldable pub slab_get_free_block : ℕ → SlabPool → Run (ℕ × SlabPool)
slab_get_free_block s st =
    let h = st.headers s in
    if h.free_block_count == 0 then stop hang else elim h.next_free_block [
      | none ↦ stop hang
      | some block ↦ done (
        block,
        record st {
          headers = update st.headers s (record h {
            free_block_count = h.free_block_count - 1;
            next_free_block = st.next block;
          });
        },
      )
    ]

-- The address inside the slab is rounded down to a block.
unfoldable pub slab_put_block : ℕ → ℕ → SlabPool → SlabPool
slab_put_block s ptr st =
    let h = st.headers s in
    let size = slab_order_to_size h.order in
    let block = s + (ptr - s) / size * size in
    record st {
      next = update st.next block h.next_free_block;
      headers =
          update st.headers s
            (record h { next_free_block = some block; free_block_count = h.free_block_count + 1 });
    }

-- `sc->current`
abbrev pub set_current : ℕ → Option ℕ → SlabPool → SlabPool
set_current order v st = record st {
  containers = update st.containers order (record (st.containers order) { current = v });
}

abbrev pub set_partial : ℕ → List ℕ → SlabPool → SlabPool
set_partial order l st = record st {
  containers = update st.containers order (record (st.containers order) { partial_list = l });
}

-- The first slab of the list, taken off.
unfoldable pub get_from_partial_list : ℕ → List ℕ → SlabPool → Option ℕ × SlabPool
get_from_partial_list order [] st = (none, st)
get_from_partial_list order (s ∷ rest) st = (some s, set_partial order rest st)

-- A new slab, or no current one where there is no memory.
unfoldable pub replace_current : ℕ → SlabPool → Run SlabPool
replace_current order st = alloc_slab_from_buddy order st >>= λ (err, st').
    done (if err == 0 then st' else set_current order none st')

unfoldable pub set_new_current_slab : ℕ → SlabPool → Run SlabPool
set_new_current_slab order st =
    let (s, st') = get_from_partial_list order (st.containers order).partial_list st in
    let st'' = set_current order s st' in
    elim s [ some _ ↦ done st'' | none ↦ replace_current order st'' ]

-- `__slab_alloc` from where the container has a current slab.
unfoldable pub alloc_from_current : ℕ → Option ℕ → SlabPool → Run (Option ℕ × SlabPool)
alloc_from_current order none st = stop hang
alloc_from_current order (some s) st = slab_get_free_block s st >>= λ (addr, st').
    let replaced = (set_new_current_slab order st' >>= λ st''. done (some addr, st'')) in
    if (st'.headers s).free_block_count == 0
    then elim (st'.headers s).next_free_block [ none ↦ replaced | some _ ↦ stop hang ]
    else done (some addr, st')

-- `__slab_alloc`
unfoldable pub slab_alloc_order : ℕ → SlabPool → Run (Option ℕ × SlabPool)
slab_alloc_order order st =
    if ltb order min_slab_block_order || ltb max_slab_block_order order
    then stop hang
    else elim (st.containers order).current [
      | some s ↦ alloc_from_current order (some s) st
      | none ↦ alloc_slab_from_buddy order st >>= λ (err, st').
          (if err == 0
            then alloc_from_current order (st'.containers order).current st'
            else done (none, st'))
    ]

-- Its errors are reported by `kerror`, which does not return.
unfoldable pub put_slab_to_buddy : ℕ → SlabPool → Run SlabPool
put_slab_to_buddy s st = elim (virt_to_page st.region s) [
  | none ↦ stop hang
  | some page ↦
      let h = st.headers s in
      if h.free_block_count == h.total_block_count - 1
      then (buddy_free_pages page (set_slabs slab_pages_count page none st.region) >>= λ r.
          done (record st { region = r }))
      else stop hang
]

-- The end of `__slab_free`, where the slab `s` has been given back.
unfoldable pub forget_slab : ℕ → ℕ → SlabPool → SlabPool
forget_slab order s st =
    let (first, st') = get_from_partial_list order (st.containers order).partial_list st in
    let other = set_partial order (remove s (st.containers order).partial_list) st in
    elim (st.containers order).current [
      | none ↦ other
      | some c ↦ if c == s then set_current order first st' else other
    ]

-- The slab, where a block of it has been freed before, goes to the end of the list.
unfoldable pub append_partial : ℕ → ℕ → SlabPool → Run SlabPool
append_partial order s st =
    let st' = set_partial order ((st.containers order).partial_list ++ s ∷ []) st in
    elim (st.containers order).current [
      | none ↦ done st'
      | some c ↦ if c == s then stop hang else done st'
    ]

-- `__slab_free`, which returns 0 where it returns.
unfoldable pub slab_free_block : ℕ → ℕ → SlabPool → Run SlabPool
slab_free_block s block st =
    let order = (st.headers s).order in
    let st' = slab_put_block s block st in
    let h = st'.headers s in
    if ltb order min_slab_block_order || ltb max_slab_block_order order
    then stop hang
    else if h.free_block_count == 1
    then append_partial order s st'
    else if h.free_block_count == h.total_block_count - 1
    then (put_slab_to_buddy s st' >>= λ st''. done (forget_slab order s st''))
    else done st'

unfoldable pub slab_alloc : ℕ → SlabPool → Run (Option ℕ × SlabPool)
slab_alloc size st = size_to_slab_order size >>= λ order. elim order [
  | none ↦ done (none, st)
  | some o ↦ slab_alloc_order o st
]

abbrev pub einval : ℕ
einval = 22

-- The header that the page of the address points to. Without one, `kerror` does not return.
unfoldable pub slab_get_header : ℕ → SlabPool → Run ℕ
slab_get_header addr st = elim (virt_to_page st.region addr) [
  | none ↦ stop hang
  | some page ↦ elim (st.region.pages page).slab [ none ↦ stop hang | some s ↦ done s ]
]

-- 0, or the error that is returned as -EINVAL.
unfoldable pub slab_free : Option ℕ → SlabPool → Run (ℕ × SlabPool)
slab_free none st = done (einval, st)
slab_free (some addr) st =
    if addr % slab_order_to_size min_slab_block_order == 0
    then (slab_get_header addr st >>= λ s. slab_free_block s addr st >>= λ st'. done (0, st'))
    else stop hang

unfoldable pub init_slab : SlabPool → SlabPool
init_slab st = record st {
  containers = λ o.
      if ltb o min_slab_block_order || ltb max_slab_block_order o
      then st.containers o
      else record { current = none; partial_list = [] };
}

-- The free blocks of the slabs of a list.
unfoldable pub sum_free_blocks : List ℕ → SlabPool → ℕ
sum_free_blocks [] st = 0
sum_free_blocks (s ∷ l) st = (st.headers s).free_block_count + sum_free_blocks l st

-- `counts[order - MIN_SLAB_BLOCK_ORDER]`
unfoldable pub calculate_slab_free_block_count : ℕ → SlabPool → ℕ
calculate_slab_free_block_count order st =
    let listed = sum_free_blocks (st.containers order).partial_list st in
    elim (st.containers order).current [
      | none ↦ listed
      | some s ↦ (st.headers s).free_block_count + listed
    ]
