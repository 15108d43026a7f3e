-- ===== src/Buddy.antt =====
-- mm/buddy.c and include/mm/buddy.h: the buddy allocator of physical pages.
--
-- `memory_region_g` is the record `MemRegion`, passed from call to call. A `struct page *` into
-- `page_arrry` is the index of its page, `NULL` is `none`; what stands behind the array is some
-- function `pages` of the index. A `struct list_head` is the sequence of the pages that are linked
-- into it, from the front. A call is one step: buddy_get_pages and buddy_free_pages hold
-- `free_lists_lock`, the functions that count do not. The page structures are apart from the memory
-- that is handed out. Addresses are bytes, and wrap at 64 bits.
pub mod Init
pub mod Layout
pub mod Tiling
pub mod Get
pub mod Free
pub mod Count
pub mod Kept
pub mod Account
mod Tests
use kingdo_micro_kernel.Prelude.{
  ℕ, zero, suc, ◌+◌, ◌-◌, ◌*◌, ◌/◌, ◌%◌, ◌^◌, Bool, true, false, not, ◌||◌, Option, none, some,
  List, [], ◌∷◌, ltb, leb, ◌==◌, if◌then◌else◌, update, has, remove, Run, done, stop, hang, fault,
  out_of_fuel, ◌>>=◌,
}

abbrev pub page_shift : ℕ
page_shift = 12

abbrev pub page_size : ℕ
page_size = 4096

abbrev pub buddy_max_order : ℕ
buddy_max_order = 11

-- BUDDY_CHUNK_SIZE
abbrev pub chunk_size : ℕ → ℕ
chunk_size order = 2 ^ (page_shift + order)

-- BUDDY_CHUNK_PAGES_COUNT
abbrev pub chunk_pages_count : ℕ → ℕ
chunk_pages_count order = 2 ^ order

-- ROUND_DOWN and ROUND_UP at a power of two: the mask clears the remainder.
abbrev pub round_down : ℕ → ℕ → ℕ
round_down x n = x - x % n

abbrev pub round_up : ℕ → ℕ → ℕ
round_up x n = round_down (x + n - 1) n

-- 64-bit arithmetic
abbrev pub wrap64 : ℕ → ℕ
wrap64 n = n % 2 ^ 64

pub record Page : Type 0 where
  pub allocated : ℕ
  pub order : ℕ
  pub slab : Option ℕ

pub record FreeList : Type 0 where
  pub nodes : List ℕ
  pub nr_free : ℕ

pub record MemRegion : Type 0 where
  pub start_addr : ℕ
  pub size : ℕ
  pub page_arrry : ℕ
  pub page_num : ℕ
  pub free_lists : ℕ → FreeList
  pub pages : ℕ → Page

abbrev pub put_page : ℕ → Page → MemRegion → MemRegion
put_page p v s = record s { pages = update s.pages p v }

abbrev pub put_list : ℕ → FreeList → MemRegion → MemRegion
put_list o l s = record s { free_lists = update s.free_lists o l }

abbrev pub set_order : ℕ → ℕ → MemRegion → MemRegion
set_order p o s = put_page p (record (s.pages p) { order = o }) s

abbrev pub set_allocated : ℕ → ℕ → MemRegion → MemRegion
set_allocated p a s = put_page p (record (s.pages p) { allocated = a }) s

-- `list_add(&page->node, &free_lists[order].free_list)` and `nr_free++`
abbrev pub add_free : ℕ → ℕ → MemRegion → MemRegion
add_free o p s =
    put_list o
      (record { nodes = p ∷ (s.free_lists o).nodes; nr_free = (s.free_lists o).nr_free + 1 }) s

-- `list_del(&page->node)` of a page that is linked into the list of `order`, and `nr_free--`
abbrev pub del_free : ℕ → ℕ → MemRegion → MemRegion
del_free o p s =
    put_list o
      (record { nodes = remove p (s.free_lists o).nodes; nr_free = (s.free_lists o).nr_free - 1 }) s

unfoldable pub page_in_list : ℕ → List ℕ → Bool
page_in_list p l = has p l

unfoldable pub page_to_virt : MemRegion → ℕ → ℕ
page_to_virt s p = wrap64 (s.start_addr + p * page_size)

unfoldable pub virt_to_page : MemRegion → ℕ → Option ℕ
virt_to_page s ptr =
    if ltb ptr s.start_addr || leb (wrap64 (s.start_addr + s.size)) ptr
    then none
    else if leb s.page_num ((ptr - s.start_addr) / page_size)
    then none
    else some ((ptr - s.start_addr) / page_size)

-- The page at the chunk's address, rounded down to twice the chunk's size.
unfoldable pub lower_chunk : MemRegion → ℕ → ℕ → Option ℕ
lower_chunk s chunk order =
    virt_to_page s (round_down (page_to_virt s chunk) (chunk_size (order + 1)))

-- `chunk_merge` and `chunk_buddy`; `none` where the buddy is NULL.
unfoldable pub merge_pair : Option ℕ → ℕ → ℕ → Option (ℕ × ℕ)
merge_pair none chunk order = none
merge_pair (some low) chunk order =
    if low == chunk then some (chunk, chunk + chunk_pages_count order) else some (low, low)

unfoldable pub get_buddy_chunk : MemRegion → Option ℕ → Option ℕ
unfolding lower_chunk merge_pair
get_buddy_chunk s none = none
get_buddy_chunk s (some chunk) =
    let order = (s.pages chunk).order in
    if order == buddy_max_order - 1
    then none
    else elim (merge_pair (lower_chunk s chunk order) chunk order) [
      | none ↦ none
      | some (low, buddy) ↦ some buddy
    ]

-- The first page of a free list, taken off. With `nr_free` not 0 and an empty list the code would
-- take the list's head for a page.
unfoldable pub take_first : ℕ → List ℕ → MemRegion → Run (ℕ × MemRegion)
take_first order [] s = stop fault
take_first order (p ∷ rest) s = done (p, del_free order p s)

-- The last part of `split_chunk`: one half goes to the next list below, the other is returned.
unfoldable pub halve : ℕ → Option ℕ → MemRegion → Run (Option ℕ × MemRegion)
halve order none s = done (none, s)
halve order (some chunk) s =
    let buddy = chunk + chunk_pages_count (order - 1) in
    done (
      some chunk,
      add_free (order - 1) buddy (set_order buddy (order - 1) (set_order chunk (order - 1) s)),
    )

-- The recursion climbs from `order` to `buddy_max_order`, where it ends.
unfoldable pub split_loop : ℕ → ℕ → MemRegion → Run (Option ℕ × MemRegion)
unfolding take_first halve
split_loop zero order s = stop out_of_fuel
split_loop (suc fuel) order s =
    let deeper = split_loop fuel (order + 1) s in
    if ltb order 1 || leb buddy_max_order order
    then done (none, s)
    else if (s.free_lists order).nr_free == 0
    then (deeper >>= λ (chunk, s'). halve order chunk s')
    else (take_first order (s.free_lists order).nodes s >>= λ (chunk, s').
        halve order (some chunk) s')

unfoldable pub split_chunk : ℕ → MemRegion → Run (Option ℕ × MemRegion)
unfolding split_loop
split_chunk order s = split_loop (buddy_max_order + 1) order s

-- The chunks are joined: the buddy leaves its list, and the lower one has the next order.
unfoldable pub join : ℕ → ℕ → ℕ → MemRegion → MemRegion
join order low buddy s = set_order low (order + 1) (del_free order buddy s)

unfoldable pub merge_loop : ℕ → ℕ → MemRegion → Run (ℕ × MemRegion)
merge_loop zero chunk s = stop out_of_fuel
merge_loop (suc fuel) chunk s =
    let order = (s.pages chunk).order in
    if (s.free_lists order).nr_free == 0 || order == buddy_max_order - 1
    then done (chunk, s)
    else elim (merge_pair (lower_chunk s chunk order) chunk order) [
      | none ↦ done (chunk, s)
      | some (low, buddy) ↦
          let merged = merge_loop fuel low (join order low buddy s) in
          if (s.pages buddy).allocated == 1 || not ((s.pages buddy).order == order)
          then done (chunk, s)
          else if page_in_list buddy (s.free_lists order).nodes
          then merged
          else stop hang
    ]

unfoldable pub merge_chunk : ℕ → MemRegion → Run (ℕ × MemRegion)
unfolding merge_loop
merge_chunk chunk s = merge_loop buddy_max_order chunk s

unfoldable pub buddy_free_pages : ℕ → MemRegion → Run MemRegion
unfolding merge_chunk
buddy_free_pages page s = merge_chunk page (set_allocated page 0 s) >>= λ (merged, s').
    done (add_free (s'.pages merged).order merged s')

-- The checks of a page that was found, and `page->allocated = 1`. `kerror` and `BUG_ON` spin.
unfoldable pub hand_out : ℕ → ℕ → MemRegion → Run (Option ℕ × MemRegion)
hand_out order page s =
    if (s.pages page).allocated == 1 || not ((s.pages page).order == order)
    then stop hang
    else done (some page, set_allocated page 1 s)

unfoldable pub after_split : ℕ → Option ℕ → MemRegion → Run (Option ℕ × MemRegion)
unfolding hand_out
after_split order none s = done (none, s)
after_split order (some page) s = hand_out order page s

unfoldable pub buddy_get_pages : ℕ → MemRegion → Run (Option ℕ × MemRegion)
unfolding split_chunk after_split take_first hand_out
buddy_get_pages order s =
    if (s.free_lists order).nr_free == 0
    then (split_chunk (order + 1) s >>= λ (page, s'). after_split order page s')
    else (take_first order (s.free_lists order).nodes s >>= λ (page, s'). hand_out order page s')

-- The loop of `get_free_pages_nums_from_buddy` after its first rounds.
unfoldable pub sum_free : ℕ → (ℕ → FreeList) → ℕ
sum_free zero lists = 0
sum_free (suc order) lists = sum_free order lists + (lists order).nr_free * chunk_pages_count order

unfoldable pub get_free_pages_nums_from_buddy : MemRegion → ℕ
unfolding sum_free
get_free_pages_nums_from_buddy s = sum_free buddy_max_order s.free_lists

-- The loop of `get_free_mem_size_from_buddy` after its first rounds.
unfoldable pub sum_free_size : ℕ → (ℕ → FreeList) → ℕ
sum_free_size zero lists = 0
sum_free_size (suc order) lists =
    sum_free_size order lists + (lists order).nr_free * chunk_size order

unfoldable pub get_free_mem_size_from_buddy : MemRegion → ℕ
unfolding sum_free_size
get_free_mem_size_from_buddy s = sum_free_size buddy_max_order s.free_lists

unfoldable pub get_total_mem_size_from_buddy : MemRegion → ℕ
get_total_mem_size_from_buddy s = s.size
