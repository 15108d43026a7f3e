-- ===== src/PageTable/Map.antt =====
-- `map_range_in_pgtbl_common` of arch/aarch64/mm/page_table.c and its two callers. The field `rss` of
-- the state is the argument of that name, which the kernel's caller passes as NULL. The barriers at
-- the end are no step here.
use kingdo_micro_kernel.Prelude.{
  ℕ, zero, suc, ◌+◌, ◌-◌, ◌/◌, ◌%◌, true, none, ltb, ◌==◌, if◌then◌else◌, update, Run, done, stop,
  hang, out_of_fuel, ◌>>=◌,
}
use kingdo_micro_kernel.Buddy.{page_size, wrap64}
use kingdo_micro_kernel.PageTable.{
  PageTables, next_ptp, no_memory, index_at, add_rss, get_next_ptp, page_entry, kernel_pte,
  user_pte,
}

-- `BUG_ON(ret != 0)`: the walk goes on in a table, or the processor spins.
unfoldable pub must_follow : ℕ → ℕ → ℕ → PageTables → Run (ℕ × PageTables)
must_follow ptp level va st = get_next_ptp ptp level va true st >>= λ (next, st'). elim next [
  | no_memory ↦ stop hang
  | next_ptp is_table ptp' _ ↦ if is_table then done (ptp', st') else stop hang
]

-- What is left to be mapped.
pub record Range : Type 0 where
  pub va : ℕ
  pub pa : ℕ
  pub total_page_cnt : ℕ

-- The inner loop: the entries of one table, from `i` on. `rounds` counts what is left of the table.
unfoldable pub write_entries : ℕ → ℕ → ℕ → ℕ → ℕ → Range → PageTables → Run (Range × PageTables)
write_entries zero l3_ptp i flags kind range st = done (range, st)
write_entries (suc rounds) l3_ptp i flags kind range st =
    page_entry range.pa flags kind >>= λ entry.
    let st' : PageTables = record st {
      ent = update st.ent l3_ptp (update (st.ent l3_ptp) i entry);
      rss = add_rss st.rss;
    } in
    let range' : Range = record {
      va = wrap64 (range.va + page_size);
      pa = wrap64 (range.pa + page_size);
      total_page_cnt = range.total_page_cnt - 1;
    } in
    let rest = write_entries rounds l3_ptp (i + 1) flags kind range' st' in
    if range'.total_page_cnt == 0 then done (range', st') else rest

unfoldable pub map_loop : ℕ → ℕ → ℕ → ℕ → Range → PageTables → Run PageTables
map_loop zero l0_ptp flags kind range st = stop out_of_fuel
map_loop (suc fuel) l0_ptp flags kind range st =
    let round =
      (must_follow l0_ptp 0 range.va st >>= λ (l1_ptp, st1).
      must_follow l1_ptp 1 range.va st1 >>= λ (l2_ptp, st2).
      must_follow l2_ptp 2 range.va st2 >>= λ (l3_ptp, st3).
      write_entries (512 - index_at 3 range.va) l3_ptp (index_at 3 range.va) flags kind range st3
      >>= λ (range', st'). map_loop fuel l0_ptp flags kind range' st') in
    if range.total_page_cnt == 0 then done st else round

unfoldable pub map_range_in_pgtbl_common : ℕ → ℕ → ℕ → ℕ → ℕ → ℕ → PageTables → Run PageTables
map_range_in_pgtbl_common pgtbl va pa len flags kind st =
    let total = len / page_size + (if ltb 0 (len % page_size) then 1 else 0) in
    let mapped =
      map_loop (total + 1) pgtbl flags kind (record { va = va; pa = pa; total_page_cnt = total })
        st in
    if pgtbl == 0 then stop hang else if va % page_size == 0 then mapped else stop hang

unfoldable pub map_range_in_pgtbl_kernel : ℕ → ℕ → ℕ → ℕ → ℕ → PageTables → Run PageTables
map_range_in_pgtbl_kernel pgtbl va pa len flags st =
    map_range_in_pgtbl_common pgtbl va pa len flags kernel_pte (record st { rss = none })

unfoldable pub map_range_in_pgtbl_user : ℕ → ℕ → ℕ → ℕ → ℕ → PageTables → Run PageTables
map_range_in_pgtbl_user pgtbl va pa len flags st =
    map_range_in_pgtbl_common pgtbl va pa len flags user_pte st
