-- ===== src/PageTable/Grow.antt =====
-- `get_next_ptp` in a tree of tables: it follows an entry, or makes a table from a free page.
use kingdo_micro_kernel.Prelude.{
  ℕ, ◌+◌, ◌*◌, ◌%◌, ◌^◌, ◌≤◌, ◌<◌, ◌≡◌, ◌≢◌, refl, sym, ap, subst, ◌∙◌, ◌⊎◌, inl, inr, true, false,
  none, some, ltb, ◌==◌, update, update_self, update_ne, Run, done, stop, hang, if◌then◌else◌,
  ◌>>=◌, arith, Bool-cases, ℕ_discrete,
}
use kingdo_micro_kernel.Buddy.{MemRegion, buddy_get_pages}
use kingdo_micro_kernel.Buddy.Init.{kbase}
use kingdo_micro_kernel.Buddy.Layout.{IsLayout, page_to_virt_lem}
use kingdo_micro_kernel.Buddy.Tiling.{owned}
use kingdo_micro_kernel.Buddy.Count.{free_pages}
use kingdo_micro_kernel.Buddy.Get.{Granted}
use kingdo_micro_kernel.Buddy.Account.{buddy_get_pages-TakesPage}
use kingdo_micro_kernel.PageTable.{
  PageTables, Next, no_memory, next_ptp, index_at, virt_to_phys, table_entry, follow, get_next_ptp,
  new_table, add_rss,
}
use kingdo_micro_kernel.PageTable.Query.{IsStep, follow-IsStep, get_next_ptp-IsStep}
use kingdo_micro_kernel.PageTable.Map.{must_follow}
use kingdo_micro_kernel.PageTable.Tree.{OnlyLinks, Tree, IsNext, IsTables, Extends, Follows}

-- `must_follow` behind `get_next_ptp`
abbrev entered : Next → PageTables → Run (ℕ × PageTables)
entered next st = elim next as (λ _. Run (ℕ × PageTables)) [
  | no_memory ↦ stop hang
  | next_ptp is_table ptp _ ↦ if is_table then done (ptp, st) else stop hang
]

pub index_at-small : (level va : ℕ) → index_at level va < 512
unfolding index_at
index_at-small level va = omega arith

module _ {base n l0 : ℕ} (lay : IsLayout base n) (high : kbase ≤ base * 4096) {head : ℕ → ℕ}
    {tree : Tree} {st : PageTables} (g : IsTables base n l0 head tree st) (level va cur : ℕ)
    (shallow : level < 3) (here : tree.depth cur ≡ level + 1) where
  abbrev idx : ℕ
  idx = index_at level va

  cur_in : (kbase ≤ cur) × (cur < 2 ^ 64) × (cur % 4096 ≡ 0)
  cur_in = g.in_kernel cur (omega (arith, here))

  -- The entry leads to a table already.
  Follows-old :
      (next : ℕ)
      → st.ent cur idx ≡ table_entry (virt_to_phys next)
      → tree.depth next ≡ tree.depth cur + 1
      → tree.prefix next ≡ tree.prefix cur * 512 + idx
      → Follows base n l0 level va cur tree st
  unfolding must_follow
  Follows-old next e d p =
      let (low, top, aligned) = g.in_kernel next (omega arith) in
      let step : IsStep st level va cur next = record {
        not_null = omega (arith, cur_in);
        entry = e;
        in_kernel = (low, top);
        on_page = aligned;
      } in
      record {
        next = next;
        st' = st;
        run = rw (get_next_ptp-IsStep st va true (omega arith) step) refl;
        grown = record {
          head' = head;
          tree' = tree;
          tables = g;
          extends = λ t h. (refl, refl);
          keeps = λ t i h v. refl;
          only = λ t i h v. inl (h, refl);
          paid = omega arith;
        };
        step = step;
        next_depth = omega (arith, d, here);
        next_prefix = p;
      }

  -- the tree with the new table
  abbrev with_table : ℕ → Tree
  with_table new = record {
    depth = update tree.depth new (level + 2);
    prefix = update tree.prefix new (tree.prefix cur * 512 + idx);
  }

  abbrev made : ℕ → MemRegion → PageTables
  made new r =
      let cleared = update st.ent new (λ _. 0) in
      record {
        ent = update cleared cur (update (cleared cur) idx (table_entry (virt_to_phys new)));
        region = r;
        rss = add_rss st.rss;
      }

  module _ (page : ℕ) (r : MemRegion) (granted : Granted base n st.region head 0 page r) where
    abbrev new : ℕ
    new = (base + page) * 4096

    page_in : page < n
    page_in = omega (arith, granted.inside)

    new_depth : tree.depth new ≡ 0
    new_depth = g.not_free page page_in (granted.was_free page (omega arith) (omega arith))

    new_ne : (t : ℕ) → tree.depth t ≢ 0 → new ≢ t
    new_ne t h e = h (ap tree.depth (sym e) ∙ new_depth)

    new_in : (kbase ≤ new) × (new < 2 ^ 64) × (new % 4096 ≡ 0)
    new_in = omega (arith, high, lay.end_fits, page_in)

    entry_new : (i : ℕ) → (made new r).ent new i ≡ 0
    entry_new i =
        let ne = new_ne cur (omega (arith, here)) in
        ap (λ (f : ℕ → ℕ). f i)
          (update_ne (update st.ent new (λ _. 0)) cur _ new (λ e. ne (sym e))
            ∙ update_self st.ent new (λ _. 0))

    entry_here : (made new r).ent cur idx ≡ table_entry (virt_to_phys new)
    entry_here = ground arith

    entry_other :
        (t i : ℕ) → tree.depth t ≢ 0 → (t ≢ cur) ⊎ (i ≢ idx) → (made new r).ent t i ≡ st.ent t i
    entry_other t i h away = let ne = new_ne t h in ground (arith, away)

    -- A table of the new tree is the new one, or one of the old tree at its place.
    same_tree : Extends tree (with_table new)
    same_tree t h = let ne = new_ne t h in (ground arith, ground arith)

    IsNext-old : (t i e : ℕ) → tree.depth t ≢ 0 → IsNext tree t i e → IsNext (with_table new) t i e
    IsNext-old t i e h (inl invalid) = inl invalid
    IsNext-old t i e h (inr (t', entry, d, p)) =
        let (d', p') = same_tree t h in
        let (d'', p'') = same_tree t' (omega arith) in
        inr (t', entry, omega (arith, d, d', d''), omega (arith, p, p', p''))

    IsNext-here : IsNext (with_table new) cur idx ((made new r).ent cur idx)
    IsNext-here =
        let (d', p') = same_tree cur (omega (arith, here)) in
        let d = update_self tree.depth new (level + 2) in
        let p = update_self tree.prefix new (tree.prefix cur * 512 + idx) in
        inr (new, entry_here, omega (arith, d, d', here), omega (arith, p, p'))

    entries_old :
        (t i : ℕ)
        → tree.depth t ≢ 0
        → tree.depth t < 4
        → IsNext (with_table new) t i ((made new r).ent t i)
    entries_old t i h shallow' = elim (ℕ_discrete t cur) [
      | yes same ↦ elim (ℕ_discrete i idx) [
        | yes at ↦
            subst (λ k. IsNext (with_table new) t k ((made new r).ent t k)) (sym at)
              (subst (λ k. IsNext (with_table new) k idx ((made new r).ent k idx)) (sym same)
                IsNext-here)
        | no away ↦ old (inr away)
      ]
      | no away ↦ old (inl away)
    ]
      where
        old : (t ≢ cur) ⊎ (i ≢ idx) → IsNext (with_table new) t i ((made new r).ent t i)
        old away =
            subst (IsNext (with_table new) t i) (sym (entry_other t i h away))
              (IsNext-old t i (st.ent t i) h (g.entries t i h shallow'))

    still_free :
        (q : ℕ)
        → q < n
        → owned r granted.head' q ≡ false
        → (q ≢ page) × (owned st.region head q ≡ false)
    still_free q q_in free =
        let now = granted.now_owned q q_in in (λ e. ground (arith, e), ground arith)

    tables_made : IsTables base n l0 granted.head' (with_table new) (made new r)
    tables_made = record {
      tiled = granted.tiled;
      root = (same_tree l0 (omega (arith, g.root))).0 ∙ g.root;
      root_prefix = (same_tree l0 (omega (arith, g.root))).1 ∙ g.root_prefix;
      in_kernel = λ t h. elim (ℕ_discrete new t) [
        | yes e ↦ subst (λ t. (kbase ≤ t) × (t < 2 ^ 64) × (t % 4096 ≡ 0)) e new_in
        | no ne ↦ g.in_kernel t (λ z. h (update_ne tree.depth new (level + 2) t ne ∙ z))
      ];
      entries = λ t i h shallow'. elim (ℕ_discrete new t) [
        | yes e ↦
            inl (subst (λ t. (made new r).ent t i % 2 ≡ 0) e (ap (λ (k : ℕ). k % 2) (entry_new i)))
        | no ne ↦
            let d = update_ne tree.depth new (level + 2) t ne in
            entries_old t i (λ z. h (d ∙ z)) (omega (arith, d))
      ];
      not_free = λ q q_in free.
          let (other, was_free) = still_free q q_in free in
          update_ne tree.depth new (level + 2) ((base + q) * 4096) (λ e. other (omega (arith, e)))
          ∙ g.not_free q q_in was_free;
    }

    IsStep-new : IsStep (made new r) level va cur new
    IsStep-new =
        let (low, top, aligned) = new_in in
        record {
          not_null = omega (arith, cur_in);
          entry = entry_here;
          in_kernel = (low, top);
          on_page = aligned;
        }

    new_table-made : new_table cur idx (some page) r st ≡ some (made new r)
    unfolding new_table
    new_table-made = rw (page_to_virt_lem lay page granted.tiled.at page_in) refl

    must_follow-made :
        buddy_get_pages 0 st.region ≡ done (some page, r)
        → st.ent cur idx % 2 ≡ 0
        → must_follow cur level va st ≡ done (new, made new r)
    unfolding must_follow get_next_ptp
    must_follow-made run invalid =
        let there : (cur == 0) ≡ false = ground (arith, cur_in) in
        let known : ltb 3 level ≡ false = ground arith in
        let none_there : (st.ent cur idx % 2 == 0) ≡ true = ground (arith, invalid) in
        rw (there, known, none_there, run)
          (ap
              (λ o.
                (elim o as (λ _. Run (Next × PageTables)) [
                  | none ↦ done (no_memory, record st { region = r })
                  | some st' ↦ done (follow cur idx st', st')
                ])
                >>= λ (next, st'). entered next st')
              new_table-made
            ∙ ap (λ next. entered next (made new r)) (follow-IsStep (made new r) va IsStep-new))

    only_new : OnlyLinks tree (with_table new) st (made new r)
    only_new t i h v = elim (ℕ_discrete new t) [
      | yes e ↦
          absurd (v (ap (λ k. (made new r).ent k i % 2) (sym e) ∙ ap (λ k. k % 2) (entry_new i)))
      | no ne ↦
          let old : tree.depth t ≢ 0 = λ z. h (update_ne tree.depth new (level + 2) t ne ∙ z) in
          elim (ℕ_discrete t cur) [
            | no away ↦ inl (old, sym (entry_other t i old (inl away)))
            | yes same ↦ elim (ℕ_discrete i idx) [
              | no away ↦ inl (old, sym (entry_other t i old (inr away)))
              | yes at ↦
                  let d = (same_tree cur (omega (arith, here))).0 in
                  let d' = update_self tree.depth new (level + 2) in
                  inr (
                    omega (arith, d, here, ap (with_table new).depth same),
                    (
                      new,
                      ap (λ k. (made new r).ent k i) same
                          ∙ ap ((made new r).ent cur) at
                          ∙ entry_here,
                      new_depth,
                      omega (arith, d'),
                    ),
                  )
            ]
          ]
    ]

    Follows-new :
        buddy_get_pages 0 st.region ≡ done (some page, r)
        → st.ent cur idx % 2 ≡ 0
        → free_pages r + 1 ≡ free_pages st.region
        → Follows base n l0 level va cur tree st
    Follows-new run invalid cost = record {
      next = new;
      st' = made new r;
      run = must_follow-made run invalid;
      grown = record {
        head' = granted.head';
        tree' = with_table new;
        tables = tables_made;
        extends = same_tree;
        keeps = λ t i h v. entry_other t i h (elim (ℕ_discrete t cur) [
          | yes same ↦
              inr
                (λ at. v (ap (λ k. st.ent k i % 2) same ∙ ap (λ k. st.ent cur k % 2) at ∙ invalid))
          | no away ↦ inl away
        ]);
        only = only_new;
        paid = omega (arith, cost);
      };
      step = IsStep-new;
      next_depth = update_self tree.depth new (level + 2);
      next_prefix = update_self tree.prefix new (tree.prefix cur * 512 + idx);
    }

  pub must_follow-Follows : 0 < free_pages st.region → Follows base n l0 level va cur tree st
  must_follow-Follows some_free = elim (Bool-cases (st.ent cur idx % 2 == 0)) [
    | inl none_there ↦
        let t = buddy_get_pages-TakesPage g.tiled some_free in
        Follows-new t.page t.s' t.granted_page t.run (ground arith) t.cost
    | inr there ↦ elim (g.entries cur idx (omega (arith, here)) (omega (arith, here))) [
      | inl invalid ↦ absurd (ground (arith, there, invalid))
      | inr (next, e, d, p) ↦ Follows-old next e d p
    ]
  ]
