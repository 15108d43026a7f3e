-- ===== src/PageTable/MapTests.antt =====
-- The mapping of a page in empty tables, with a region of four pages in the kernel's mapping.
use kingdo_micro_kernel.Prelude.{
  ℕ, ◌+◌, ◌*◌, ◌/◌, ◌≡◌, ◌≤◌, ◌<◌, refl, inl, none, some, true, [], ◌∷◌, has, update, ◌==◌,
  if◌then◌else◌, done, arith,
}
use kingdo_micro_kernel.Buddy.{buddy_max_order, MemRegion, sum_free}
use kingdo_micro_kernel.Buddy.Count.{free_pages}
use kingdo_micro_kernel.Buddy.Init.{kbase}
use kingdo_micro_kernel.Buddy.Layout.{IsLayout}
use kingdo_micro_kernel.Buddy.Tiling.{IsTiled, IsFree, nodes_of}
use kingdo_micro_kernel.PageTable.{PageTables, user_pte, query_in_pgtbl}
use kingdo_micro_kernel.PageTable.Map.{map_range_in_pgtbl_common}
use kingdo_micro_kernel.PageTable.Tree.{Tree, IsTables}
use kingdo_micro_kernel.PageTable.Rounds.{Maps}
use kingdo_micro_kernel.PageTable.Range.{
  pages_of, map_range_in_pgtbl_common-Maps, query_in_pgtbl-map_range_in_pgtbl_common,
}

-- The first frame of the region.
abbrev base : ℕ
base = kbase / 4096 + 1020

abbrev region : MemRegion
region = record {
  start_addr = base * 4096;
  size = 4 * 4096;
  page_arrry = 0;
  page_num = 4;
  free_lists =
      update (λ _. record { nodes = []; nr_free = 0 }) 2 (record { nodes = 0 ∷ []; nr_free = 1 });
  pages =
      update (λ _. record { allocated = 0; order = 0; slab = none }) 0
        (record { allocated = 0; order = 2; slab = none });
}

abbrev one_head : ℕ → ℕ
one_head q = 0

layout : IsLayout base 4
layout = omega arith

region_listed :
    (o p : ℕ)
    → o < buddy_max_order
    → has p (nodes_of region o) ≡ true
    → IsFree 4 one_head 4 region o p
region_listed o p lt h = ground arith

region-IsTiled : IsTiled base 4 one_head 4 region
region-IsTiled = record {
  at = omega arith;
  covers = λ q h. omega arith;
  whole = λ q r h a b. refl;
  inner = λ q h ne. ground arith;
  listed = region_listed;
  complete = λ p h is free ne. ground arith;
  once = λ o lt. ground arith;
  counted = λ o lt. ground arith;
}

-- The root, in a page before the region.
abbrev root : ℕ
root = kbase + 4096

abbrev empty_tables : PageTables
empty_tables = record { ent = λ t i. 0; region = region; rss = some 0 }

abbrev root_only : Tree
root_only = record { depth = λ t. if t == root then 1 else 0; prefix = λ t. 0 }

root-IsTables : IsTables base 4 root one_head root_only empty_tables
root-IsTables = record {
  tiled = region-IsTiled;
  root = refl;
  root_prefix = refl;
  in_kernel = λ t h. ground arith;
  entries = λ t i h shallow. inl refl;
  not_free = λ q h free. ground arith;
}

three_free : 3 ≤ free_pages region
unfolding sum_free
three_free = omega arith

map_range_in_pgtbl_common-Maps_example :
    (st' : PageTables) × (map_range_in_pgtbl_common root 0x40_0000 0x12_3000 100 5 user_pte
        empty_tables
      ≡ done st')
    × Maps base 4 root 5 user_pte 0x40_0000 0x12_3000
        (pages_of 100)
        (3 * pages_of 100)
        empty_tables
        st'
map_range_in_pgtbl_common-Maps_example =
    map_range_in_pgtbl_common-Maps layout (omega arith) 5 user_pte (omega arith) 0x40_0000 0x12_3000
      100 root-IsTables (omega arith) (omega arith) (omega arith) three_free

query_in_pgtbl-map_range_in_pgtbl_common_example :
    (st' : PageTables) × (map_range_in_pgtbl_common root 0x40_0000 0x12_3000 100 5 user_pte
        empty_tables
      ≡ done st')
    × (entry : ℕ × ℕ) × (query_in_pgtbl root (0x40_0000 + 42) st'
        ≡ done (some (0x12_3000 + 42, entry)))
query_in_pgtbl-map_range_in_pgtbl_common_example =
    query_in_pgtbl-map_range_in_pgtbl_common layout (omega arith) 5 user_pte (omega arith) 0x40_0000
      0x12_3000 100 root-IsTables (omega arith) (omega arith) (omega arith) three_free 42
      (omega arith) refl
