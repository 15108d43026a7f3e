-- ===== src/PageTable/Written.antt =====
-- What the inner loop of `map_range_in_pgtbl_common` writes.
use kingdo_micro_kernel.Prelude.{
  ℕ, zero, suc, ◌+◌, ◌-◌, ◌*◌, ◌^◌, ◌≤◌, ◌<◌, ◌≡◌, ◌≢◌, refl, ap, subst, ◌∙◌, sym, ◌⊎◌, inl, inr,
  true, false, ◌==◌, update, done, arith, Bool-cases, ℕ_discrete,
}
use kingdo_micro_kernel.Buddy.{page_size, wrap64}
use kingdo_micro_kernel.PageTable.{PageTables, page_entry, add_rss}
use kingdo_micro_kernel.PageTable.Entry.{IsPageEntry, page_entry-IsPageEntry}
use kingdo_micro_kernel.PageTable.Map.{Range, write_entries}

-- The entries from `i` on of the table `l3` map `n` pages from `pa` on; no other entry changes.
pub record Wrote (n pa flags kind l3 i : ℕ) (st st' : PageTables) : Type 0 where
  pub mapped : (j : ℕ) → j < n → IsPageEntry (pa + j * 4096) flags kind (st'.ent l3 (i + j))
  pub others : (t k : ℕ) → (t ≢ l3) ⊎ ((k < i) ⊎ (i + n ≤ k)) → st'.ent t k ≡ st.ent t k
  pub same_region : st'.region ≡ st.region

-- one entry written
abbrev one : ℕ → ℕ → ℕ → PageTables → PageTables
one l3 i entry st = record st {
  ent = update st.ent l3 (update (st.ent l3) i entry);
  rss = add_rss st.rss;
}

ent-one_self : (l3 i entry : ℕ) (st : PageTables) → (one l3 i entry st).ent l3 i ≡ entry
ent-one_self l3 i entry st = ground arith

ent-one_ne :
    (l3 i entry : ℕ) (st : PageTables) (t k : ℕ)
    → (t ≢ l3) ⊎ (k ≢ i)
    → (one l3 i entry st).ent t k ≡ st.ent t k
ent-one_ne l3 i entry st t k away = ground (arith, away)

IsPageEntry-cong :
    {pa pa' flags kind entry entry' : ℕ}
    → pa' ≡ pa
    → entry' ≡ entry
    → IsPageEntry pa flags kind entry
    → IsPageEntry pa' flags kind entry'
IsPageEntry-cong {pa'} {flags} {kind} {entry} e f page =
    subst (IsPageEntry pa' flags kind) (sym f)
      (subst (λ pa. IsPageEntry pa flags kind entry) (sym e) page)

abbrev pub range_of : ℕ → ℕ → ℕ → Range
range_of va pa total = record { va = va; pa = pa; total_page_cnt = total }

abbrev rest_of : ℕ → ℕ → ℕ → Range
rest_of va pa total = record {
  va = wrap64 (va + page_size);
  pa = wrap64 (pa + page_size);
  total_page_cnt = total - 1;
}

module _ (flags kind l3 : ℕ) where
  Wrote-zero : {pa i : ℕ} (st : PageTables) → Wrote 0 pa flags kind l3 i st st
  Wrote-zero st = record {
    mapped = λ j less. absurd (omega arith);
    others = λ t k away. refl;
    same_region = refl;
  }

  Wrote-suc :
      {m pa i entry : ℕ} (st st' : PageTables)
      → IsPageEntry pa flags kind entry
      → Wrote m (pa + 4096) flags kind l3 (i + 1) (one l3 i entry st) st'
      → Wrote (suc m) pa flags kind l3 i st st'
  Wrote-suc {m} {pa} {i} {entry} st st' page w = record {
    mapped = λ j less. elim (ℕ_discrete j 0) [
      | yes first ↦
          let k : i + j ≡ i = omega arith in
          IsPageEntry-cong (omega arith)
            (ap (st'.ent l3) k
              ∙ w.others l3 i (inr (inl (omega arith)))
              ∙ ent-one_self l3 i entry st)
            page
      | no later ↦
          let k : i + j ≡ i + 1 + (j - 1) = omega arith in
          IsPageEntry-cong (omega arith) (ap (st'.ent l3) k) (w.mapped (j - 1) (omega arith))
    ];
    others = λ t k away.
        w.others t k (ground (arith, away)) ∙ ent-one_ne l3 i entry st t k (ground (arith, away));
    same_region = w.same_region;
  }

  write_entries-suc :
      {entry : ℕ} (rounds i va pa total : ℕ) (st : PageTables)
      → page_entry pa flags kind ≡ done entry
      → (total - 1 == 0) ≡ false
      → write_entries
          (suc rounds)
          l3
          i
          flags
          kind
          (record { va = va; pa = pa; total_page_cnt = total })
          st
        ≡ write_entries rounds l3 (i + 1) flags kind (rest_of va pa total) (one l3 i entry st)
  unfolding write_entries
  write_entries-suc rounds i va pa total st e goes = rw (e, goes) refl

  -- The loop returns, with `n` pages less to map.
  pub record Writes (n rounds i : ℕ) (range : Range) (st : PageTables) : Type 0 where
    pub range' : Range
    pub st' : PageTables
    pub run : write_entries rounds l3 i flags kind range st ≡ done (range', st')
    pub left : range'.total_page_cnt ≡ range.total_page_cnt - n
    pub next_va : range'.va ≡ wrap64 (range.va + n * 4096)
    pub next_pa : range'.pa ≡ wrap64 (range.pa + n * 4096)
    pub wrote : Wrote n range.pa flags kind l3 i st st'

  module _ (n rounds i va pa total : ℕ) {entry : ℕ} (st : PageTables)
      (e : page_entry pa flags kind ≡ done entry) (page : IsPageEntry pa flags kind entry) where
    Writes-last :
        (total - 1 == 0) ≡ true → n ≡ 1 → Writes n (suc rounds) i (range_of va pa total) st
    unfolding write_entries
    Writes-last last single = record {
      range' = rest_of va pa total;
      st' = one l3 i entry st;
      run = rw (e, last) refl;
      left = ap (λ (k : ℕ). total - k) (sym single);
      next_va = ap (λ (k : ℕ). wrap64 (va + k * 4096)) (sym single);
      next_pa = ap (λ (k : ℕ). wrap64 (pa + k * 4096)) (sym single);
      wrote =
          subst (λ n. Wrote n pa flags kind l3 i st (one l3 i entry st)) (sym single)
            (Wrote-suc st (one l3 i entry st) page (Wrote-zero (one l3 i entry st)));
    }

    Writes-more :
        (total - 1 == 0) ≡ false
        → wrap64 (pa + page_size) ≡ pa + 4096
        → n ≡ suc (n - 1)
        → Writes (n - 1) rounds (i + 1) (rest_of va pa total) (one l3 i entry st)
        → Writes n (suc rounds) i (range_of va pa total) st
    Writes-more goes next m w = record {
      range' = w.range';
      st' = w.st';
      run = write_entries-suc rounds i va pa total st e goes ∙ w.run;
      left = w.left ∙ omega arith;
      next_va = w.next_va ∙ omega arith;
      next_pa = w.next_pa ∙ omega arith;
      wrote =
          subst (λ n. Wrote n pa flags kind l3 i st w.st') (sym m)
            (Wrote-suc st w.st' page (
              subst (λ a. Wrote (n - 1) a flags kind l3 (i + 1) (one l3 i entry st) w.st') next
                w.wrote));
    }

  Writes-none :
      (n i : ℕ) (range : Range) (st : PageTables)
      → range.va < 2 ^ 64
      → range.pa < 2 ^ 64
      → n ≡ 0
      → Writes n 0 i range st
  unfolding write_entries
  Writes-none n i range st va_in pa_in e = record {
    range' = range;
    st' = st;
    run = refl;
    left = omega arith;
    next_va = omega arith;
    next_pa = omega arith;
    wrote = subst (λ n. Wrote n range.pa flags kind l3 i st st) (sym e) (Wrote-zero st);
  }

  Writes-step :
      (n rounds i va pa total : ℕ) (st : PageTables)
      → (entry : ℕ) × (page_entry pa flags kind ≡ done entry) × IsPageEntry pa flags kind entry
      → n ≡ suc (n - 1)
      → wrap64 (pa + page_size) ≡ pa + 4096
      → (total ≡ 1 → n ≡ 1)
      → 0 < total
      → ((st1 : PageTables) → 1 < total → Writes (n - 1) rounds (i + 1) (rest_of va pa total) st1)
      → Writes n (suc rounds) i (range_of va pa total) st
  Writes-step n rounds i va pa total st (entry, e, page) m next end pos continue =
      elim (Bool-cases (total - 1 == 0)) [
        | inl last ↦ Writes-last n rounds i va pa total st e page last (end (ground arith))
        | inr goes ↦
            Writes-more n rounds i va pa total st e page goes next m
              (continue (one l3 i entry st) (ground arith))
      ]

  -- the next page's address does not wrap
  next_page :
      (pa total : ℕ) → 0 < total → pa + total * 4096 < 2 ^ 48 → wrap64 (pa + page_size) ≡ pa + 4096
  next_page pa total pos small = omega arith

  room_left :
      (pa total : ℕ)
      → 1 < total
      → pa + total * 4096 < 2 ^ 48
      → wrap64 (pa + page_size) + (total - 1) * 4096 < 2 ^ 48
  room_left pa total more small = omega arith

  -- For either kind, pages to map of which there is at least one and which end below 2 ^ 48, and n
  -- the smaller of their number and of the entries left in the table, the inner loop of
  -- map_range_in_pgtbl_common returns with n pages less to map: the n entries from its index on
  -- map the pages from pa on with the flags, and no other entry of any table changes.
  pub write_entries-Writes :
      (n rounds i va pa total : ℕ) (st : PageTables)
      → kind < 2
      → va < 2 ^ 64
      → n ≤ rounds
      → n ≤ total
      → (n ≡ rounds) ⊎ (n ≡ total)
      → 0 < total
      → pa + total * 4096 < 2 ^ 48
      → Writes n rounds i (range_of va pa total) st
  write_entries-Writes n zero i va pa total st kind_in va_in below most whole pos small =
      Writes-none n i (range_of va pa total) st va_in (omega arith) (omega arith)
  write_entries-Writes n (suc rounds) i va pa total st kind_in va_in below most whole pos small =
      Writes-step n rounds i va pa total st
        (page_entry-IsPageEntry pa flags kind (omega arith) kind_in) (omega arith)
        (next_page pa total pos small) (λ e. omega arith) pos
        (λ st1 more.
          write_entries-Writes (n - 1) rounds (i + 1) (wrap64 (va + page_size))
            (wrap64 (pa + page_size)) (total - 1) st1 kind_in (omega arith) (omega arith)
            (omega arith) (omega arith) (omega arith) (room_left pa total more small))
