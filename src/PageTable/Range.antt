-- ===== src/PageTable/Range.antt =====
-- The mapping of a range: what `map_range_in_pgtbl_common` leaves mapped, and what a query then finds.
use kingdo_micro_kernel.Prelude.{
  ℕ, zero, suc, ◌+◌, ◌-◌, ◌*◌, ◌/◌, ◌%◌, ◌^◌, ◌≤◌, ◌<◌, ◌≡◌, refl, sym, ap, subst, ◌∙◌, inl, true,
  false, some, ltb, ◌==◌, if◌then◌else◌, done, arith, dec_lt,
}
use kingdo_micro_kernel.Buddy.{page_size}
use kingdo_micro_kernel.Buddy.Init.{kbase}
use kingdo_micro_kernel.Buddy.Layout.{IsLayout}
use kingdo_micro_kernel.Buddy.Count.{free_pages}
use kingdo_micro_kernel.PageTable.{PageTables, index_at, query_in_pgtbl}
use kingdo_micro_kernel.PageTable.Entry.{IsPageEntry}
use kingdo_micro_kernel.PageTable.Map.{map_loop, map_range_in_pgtbl_common}
use kingdo_micro_kernel.PageTable.Query.{query_in_pgtbl-IsPageEntry}
use kingdo_micro_kernel.PageTable.Written.{range_of}
use kingdo_micro_kernel.PageTable.Tree.{Tree, IsTables}
use kingdo_micro_kernel.PageTable.Mapped.{IsMapped, IsStep-same}
use kingdo_micro_kernel.PageTable.Rounds.{Maps, Rounds-of}

-- No page is mapped.
Maps-none :
    {base n l0 flags kind va pa : ℕ} {head : ℕ → ℕ} {tree : Tree} {st : PageTables}
    → IsTables base n l0 head tree st
    → Maps base n l0 flags kind va pa 0 0 st st
Maps-none {head} {tree} g = record {
  head' = head;
  tree' = tree;
  tables = g;
  mapped = λ j less. absurd (omega arith);
  others = λ small outside m. m;
  only = λ small outside m. m;
  paid = omega arith;
}

-- The pages of one round, and those behind them.
Maps-trans :
    {base n l0 flags kind va pa c cost cost' : ℕ} (total : ℕ) {st st' st'' : PageTables}
    → c ≤ total
    → va + total * 4096 ≤ 2 ^ 48
    → Maps base n l0 flags kind va pa c cost st st'
    → Maps base n l0 flags kind (va + c * 4096) (pa + c * 4096) (total - c) cost' st' st''
    → Maps base n l0 flags kind va pa total (cost + cost') st st''
Maps-trans {l0} {flags} {kind} {va} {pa} {c} total {st''} le va_in a b = record {
  head' = b.head';
  tree' = b.tree';
  tables = b.tables;
  mapped = λ j less. elim (dec_lt j c) [
    | yes first ↦ b.others (omega arith) (inl (omega arith)) (a.mapped j first)
    | no later ↦
        let e : va + c * 4096 + (j - c) * 4096 ≡ va + j * 4096 = omega arith in
        let e' : pa + c * 4096 + (j - c) * 4096 ≡ pa + j * 4096 = omega arith in
        subst (λ v. IsMapped st'' l0 v (pa + j * 4096) flags kind) e
          (subst (λ p. IsMapped st'' l0 (va + c * 4096 + (j - c) * 4096) p flags kind) e'
            (b.mapped (j - c) (omega arith)))
  ];
  others = λ small outside m.
      b.others small (omega (arith, outside)) (a.others small (omega (arith, outside)) m);
  only = λ small outside m.
      a.only small (omega (arith, outside)) (b.only small (omega (arith, outside)) m);
  paid = omega (arith, a.paid, b.paid);
}

Maps-cost :
    {base n l0 flags kind va pa c cost cost' : ℕ} {st st' : PageTables}
    → cost ≤ cost'
    → Maps base n l0 flags kind va pa c cost st st'
    → Maps base n l0 flags kind va pa c cost' st st'
Maps-cost le m = record {
  head' = m.head';
  tree' = m.tree';
  tables = m.tables;
  mapped = m.mapped;
  others = m.others;
  only = m.only;
  paid = omega (arith, m.paid);
}

-- The pages that hold `len` bytes.
abbrev pub pages_of : ℕ → ℕ
pages_of len = len / page_size + (if ltb 0 (len % page_size) then 1 else 0)

index_at-offset :
    (level v r : ℕ)
    → level ≤ 3
    → v % 4096 ≡ 0
    → r < 4096
    → index_at level (v + r) ≡ index_at level v
unfolding index_at
index_at-offset zero v r h aligned small = omega arith
index_at-offset (suc zero) v r h aligned small = omega arith
index_at-offset (suc (suc zero)) v r h aligned small = omega arith
index_at-offset (suc (suc (suc zero))) v r h aligned small = omega arith
index_at-offset (suc (suc (suc (suc k)))) v r h aligned small = absurd (omega arith)

-- The query at a byte of a page that is mapped.
pub query_in_pgtbl-IsMapped :
    {st : PageTables} {l0 v p flags kind : ℕ} (r : ℕ)
    → IsMapped st l0 v p flags kind
    → v % 4096 ≡ 0
    → p % 4096 ≡ 0
    → p < 2 ^ 48
    → r < 4096
    → (entry : ℕ × ℕ) × (query_in_pgtbl l0 (v + r) st ≡ done (some (p + r, entry)))
query_in_pgtbl-IsMapped {st} {l0} {v} {p} {flags} {kind} r m v_aligned p_aligned p_in small =
    let same : (level : ℕ) → level ≤ 3 → index_at level (v + r) ≡ index_at level v =
      λ level h. index_at-offset level v r h v_aligned small in
    let page =
      subst (IsPageEntry p flags kind) (ap (st.ent m.l3) (sym (same 3 (omega arith)))) m.page in
    let e : p + (v + r) % 4096 ≡ p + r = omega arith in
    (
      (m.l3, index_at 3 (v + r)),
      query_in_pgtbl-IsPageEntry st (v + r) (IsStep-same (same 0 (omega arith)) refl m.s0)
            (IsStep-same (same 1 (omega arith)) refl m.s1)
            (IsStep-same (same 2 (omega arith)) refl m.s2) page p_in p_aligned
          ∙ ap (λ a. done (some (a, (m.l3, index_at 3 (v + r))))) e,
    )

module _ {base n l0 : ℕ} (lay : IsLayout base n) (high : kbase ≤ base * 4096) (flags kind : ℕ)
    (kind_in : kind < 2) where
  map_loop-Maps :
      (fuel va pa total : ℕ) {head : ℕ → ℕ} {tree : Tree} {st : PageTables}
      → IsTables base n l0 head tree st
      → total < fuel
      → va % 4096 ≡ 0
      → va + total * 4096 ≤ 2 ^ 48
      → pa + total * 4096 < 2 ^ 48
      → 3 * total ≤ free_pages st.region
      → (st' : PageTables) × (map_loop fuel l0 flags kind (range_of va pa total) st ≡ done st')
        × Maps base n l0 flags kind va pa total (3 * total) st st'
  unfolding map_loop
  map_loop-Maps zero va pa total g enough aligned va_in pa_in free = absurd (omega arith)
  map_loop-Maps (suc fuel) va pa zero {st = st} g enough aligned va_in pa_in free =
      (st, refl, Maps-none g)
  map_loop-Maps (suc fuel) va pa (suc total) {st = st} g enough aligned va_in pa_in free =
      let r =
        Rounds-of lay high flags kind kind_in va pa (suc total) g aligned (omega arith) va_in pa_in
          (omega arith) in
      let (st', e, m) =
        map_loop-Maps fuel (va + r.cnt * 4096) (pa + r.cnt * 4096) (suc total - r.cnt) r.maps.tables
          (omega (arith, r.some_page)) (omega arith) (omega (arith, r.not_more, va_in))
          (omega (arith, r.not_more, pa_in))
          (omega (arith, r.some_page, r.not_more, r.maps.paid)) in
      (
        st',
        r.loop fuel ∙ e,
        Maps-cost (omega (arith, r.some_page, r.not_more))
            (Maps-trans (suc total) r.not_more va_in r.maps m),
      )

  module _ {head : ℕ → ℕ} {tree : Tree} {st : PageTables} (va pa len : ℕ)
      (g : IsTables base n l0 head tree st) (aligned : va % 4096 ≡ 0)
      (va_in : va + pages_of len * 4096 ≤ 2 ^ 48) (pa_in : pa + pages_of len * 4096 < 2 ^ 48)
      (free : 3 * pages_of len ≤ free_pages st.region) where
    -- In a tree of tables at pages that are not free in a tiled region of the kernel mapping that
    -- ends on a 4 MB boundary, for either kind, page-aligned va, and a range whose pages end by 2
    -- ^ 48 for va and before it for pa, with three free pages for each of them:
    -- map_range_in_pgtbl_common returns, the tables are such a tree again, each page of the range
    -- is mapped by an entry of its flags, as the theorem on page_entry says, an address below 2 ^
    -- 48 outside it is mapped to a page with some flags just where it was before, and at most
    -- three free pages for each page are used.
    pub map_range_in_pgtbl_common-Maps :
        (st' : PageTables) × (map_range_in_pgtbl_common l0 va pa len flags kind st ≡ done st')
        × Maps base n l0 flags kind va pa (pages_of len) (3 * pages_of len) st st'
    unfolding map_range_in_pgtbl_common
    map_range_in_pgtbl_common-Maps =
        let (st', e, m) =
          map_loop-Maps (pages_of len + 1) va pa (pages_of len) g (omega arith) aligned va_in pa_in
            free in
        let there : (l0 == 0) ≡ false = ground (arith, g.in_kernel l0 (omega (arith, g.root))) in
        let on_page : (va % page_size == 0) ≡ true = ground (arith, aligned) in
        (st', rw (there, on_page) e, m)

    -- In a tree of tables at pages that are not free in a tiled region of the kernel mapping that
    -- ends on a 4 MB boundary, for either kind, page-aligned va and pa, and a range whose pages
    -- end by 2 ^ 48 for va and before it for pa, with three free pages for each of them:
    -- map_range_in_pgtbl_common returns, and afterwards query_in_pgtbl of va plus any offset in
    -- those pages returns pa plus the offset.
    pub query_in_pgtbl-map_range_in_pgtbl_common :
        (offset : ℕ)
        → offset < pages_of len * 4096
        → pa % 4096 ≡ 0
        → (st' : PageTables) × (map_range_in_pgtbl_common l0 va pa len flags kind st ≡ done st')
          × (entry : ℕ × ℕ) × (query_in_pgtbl l0 (va + offset) st'
              ≡ done (some (pa + offset, entry)))
    query_in_pgtbl-map_range_in_pgtbl_common offset less on_page =
        let (st', e, m) = map_range_in_pgtbl_common-Maps in
        let v : va + offset / 4096 * 4096 + offset % 4096 ≡ va + offset = omega arith in
        let p : pa + offset / 4096 * 4096 + offset % 4096 ≡ pa + offset = omega arith in
        let (entry, q) =
          query_in_pgtbl-IsMapped (offset % 4096) (m.mapped (offset / 4096) (omega arith))
            (omega arith) (omega arith) (omega arith) (omega arith) in
        (
          st',
          e,
          entry,
          ap (λ a. query_in_pgtbl l0 a st') (sym v) ∙ q ∙ ap (λ a. done (some (a, entry))) p,
        )
