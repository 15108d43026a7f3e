-- ===== src/PageTable/Query.antt =====
-- The query along a path of tables.
use kingdo_micro_kernel.Prelude.{
  ℕ, ◌+◌, ◌/◌, ◌%◌, ◌^◌, ◌≤◌, ◌<◌, ◌≡◌, ◌≢◌, refl, Bool, true, false, some, ltb, ◌==◌, done, arith,
}
use kingdo_micro_kernel.Buddy.{wrap64}
use kingdo_micro_kernel.Buddy.Init.{kbase, phys_to_virt}
use kingdo_micro_kernel.PageTable.{
  PageTables, next_ptp, index_at, offset_at, virt_to_phys, paddr_in_pte, table_entry, follow,
  get_next_ptp, query_page, query_block, query_in_pgtbl,
}
use kingdo_micro_kernel.PageTable.Entry.{IsPageEntry}

-- The entry for `va` in the table `cur` leads to the table `next`, a page of the kernel's mapping.
pub record IsStep (st : PageTables) (level va cur next : ℕ) : Type 0 where
  pub not_null : cur ≢ 0
  pub entry : st.ent cur (index_at level va) ≡ table_entry (virt_to_phys next)
  pub in_kernel : (kbase ≤ next) × (next < 2 ^ 64)
  pub on_page : next % 4096 ≡ 0

module _ (st : PageTables) (va : ℕ) where
  pub follow-IsStep :
      {level cur next : ℕ}
      → IsStep st level va cur next
      → follow cur (index_at level va) st ≡ next_ptp true next (cur, index_at level va)
  unfolding follow
  follow-IsStep {level} {cur} {next} s =
      let back : phys_to_virt (paddr_in_pte (table_entry (virt_to_phys next))) ≡ next =
        omega (arith, s.in_kernel, s.on_page) in
      let table : ((table_entry (virt_to_phys next) / 2) % 2 == 1) ≡ true = ground (arith) in
      rw (s.entry, table, back) refl

  pub get_next_ptp-IsStep :
      {level cur next : ℕ} (alloc : Bool)
      → level ≤ 3
      → IsStep st level va cur next
      → get_next_ptp cur level va alloc st ≡ done (next_ptp true next (cur, index_at level va), st)
  unfolding get_next_ptp
  get_next_ptp-IsStep {level} {cur} {next} alloc in_range s =
      let there : (cur == 0) ≡ false = ground (arith, s.not_null) in
      let known : ltb 3 level ≡ false = ground arith in
      let valid : (table_entry (virt_to_phys next) % 2 == 0) ≡ false = ground (arith) in
      let valid' : (st.ent cur (index_at level va) % 2 == 0) ≡ false = rw s.entry valid in
      rw (there, known, valid', follow-IsStep s) refl

  query_page-IsPageEntry :
      {l3 pa flags kind : ℕ}
      → l3 ≢ 0
      → IsPageEntry pa flags kind (st.ent l3 (index_at 3 va))
      → pa < 2 ^ 48
      → pa % 4096 ≡ 0
      → query_page l3 va st ≡ done (some (pa + va % 4096, (l3, index_at 3 va)))
  unfolding query_page get_next_ptp follow offset_at
  query_page-IsPageEntry {l3} {pa} not_null page small on_page =
      let there : (l3 == 0) ≡ false = ground (arith, not_null) in
      let valid : (st.ent l3 (index_at 3 va) % 2 == 0) ≡ false = ground (arith, page.valid_page) in
      let address : wrap64
            (virt_to_phys (phys_to_virt (paddr_in_pte (st.ent l3 (index_at 3 va)))) + va % 4096)
          ≡ pa + va % 4096 =
        omega (arith, page.page) in
      rw (there, valid, address) refl

  -- Where three tables lead to a fourth for an address, each entry being the table entry of the
  -- next table, a page of the kernel mapping, and the fourth has the entry of the page at pa below
  -- 2 ^ 48, query_in_pgtbl returns pa with the offset of the address, and the place of that entry.
  pub query_in_pgtbl-IsPageEntry :
      {l0 l1 l2 l3 pa flags kind : ℕ}
      → IsStep st 0 va l0 l1
      → IsStep st 1 va l1 l2
      → IsStep st 2 va l2 l3
      → IsPageEntry pa flags kind (st.ent l3 (index_at 3 va))
      → pa < 2 ^ 48
      → pa % 4096 ≡ 0
      → query_in_pgtbl l0 va st ≡ done (some (pa + va % 4096, (l3, index_at 3 va)))
  unfolding query_in_pgtbl query_block query_page
  query_in_pgtbl-IsPageEntry {l3} {pa} s0 s1 s2 page small on_page =
      rw
        (
          get_next_ptp-IsStep false (omega arith) s0,
          get_next_ptp-IsStep false (omega arith) s1,
          get_next_ptp-IsStep false (omega arith) s2,
        )
        (query_page-IsPageEntry (omega (arith, s2.in_kernel)) page small on_page)
