-- ===== src/PageTable/Kept.antt =====
-- What stays mapped where tables are added to the tree, and where entries of a last table are written.
use kingdo_micro_kernel.Prelude.{
  ℕ, zero, suc, ◌+◌, ◌*◌, ◌%◌, ◌^◌, ◌≤◌, ◌<◌, ◌≡◌, ◌≢◌, refl, sym, ap, subst, ◌∙◌, ◌⊎◌, inl, inr,
  arith, ℕ_discrete,
}
use kingdo_micro_kernel.Buddy.Tiling.{IsTiled, owned}
use kingdo_micro_kernel.PageTable.{PageTables, index_at}
use kingdo_micro_kernel.PageTable.Entry.{IsPageEntry}
use kingdo_micro_kernel.PageTable.Query.{IsStep}
use kingdo_micro_kernel.PageTable.Written.{Wrote}
use kingdo_micro_kernel.PageTable.Tree.{
  Extends, OnlyLinks, Tree, IsNext, IsTables, KeepsValid, Grown,
}
use kingdo_micro_kernel.PageTable.Mapped.{IsMapped, IsStep-same, IsFor, OnPath-of}

pub IsStep-keeps :
    (tree : Tree) {st st' : PageTables} {level va cur next : ℕ}
    → KeepsValid tree st st'
    → tree.depth cur ≢ 0
    → IsStep st level va cur next
    → IsStep st' level va cur next
IsStep-keeps tree {level} {va} {cur} k h s =
    IsStep-same refl (k cur (index_at level va) h (omega (arith, s.entry))) s

pub IsMapped-keeps :
    {base n l0 va pa flags kind : ℕ} {head : ℕ → ℕ} {tree : Tree} {st st' : PageTables}
    → IsTables base n l0 head tree st
    → KeepsValid tree st st'
    → va < 2 ^ 48
    → IsMapped st l0 va pa flags kind
    → IsMapped st' l0 va pa flags kind
IsMapped-keeps {va} {pa} {flags} {kind} {tree} g k small m =
    let p = OnPath-of g small m in
    record {
      l1 = m.l1;
      l2 = m.l2;
      l3 = m.l3;
      s0 = IsStep-keeps tree k (omega (arith, p.f0.at_depth)) m.s0;
      s1 = IsStep-keeps tree k (omega (arith, p.f1.at_depth)) m.s1;
      s2 = IsStep-keeps tree k (omega (arith, p.f2.at_depth)) m.s2;
      page =
          subst (IsPageEntry pa flags kind)
            (sym (
              k m.l3 (index_at 3 va) (omega (arith, p.f3.at_depth))
                (omega (arith, m.page.valid_page))))
            m.page;
    }

-- A step to a table that was there before was there before.
IsStep-only :
    (tree : Tree) {base n l0 : ℕ} {head : ℕ → ℕ} {tree' : Tree} {st st' : PageTables}
    {level va cur next : ℕ}
    → IsTables base n l0 head tree' st'
    → OnlyLinks tree tree' st st'
    → tree'.depth cur ≢ 0
    → tree'.depth next ≢ 0
    → tree.depth next ≢ 0
    → IsStep st' level va cur next
    → (tree.depth cur ≢ 0) × IsStep st level va cur next
IsStep-only tree {tree'} {st} {st'} {level} {va} {cur} {next} g only d d' old s =
    elim (only cur (index_at level va) d (omega (arith, s.entry))) [
      | inl (there, e) ↦ (there, IsStep-same refl e s)
      | inr (_, (t, e, none_before, now)) ↦
          let (low, top, aligned) = g.in_kernel t now in
          let same : t ≡ next = omega (arith, s.in_kernel, s.on_page, s.entry, e) in
          absurd (old (ap tree.depth (sym same) ∙ none_before))
    ]

-- What is mapped after the tree has grown was mapped before.
pub IsMapped-only :
    {base n l0 va pa flags kind cost : ℕ} {tree : Tree} {st st' : PageTables}
    (g : Grown base n l0 cost tree st st')
    → va < 2 ^ 48
    → IsMapped st' l0 va pa flags kind
    → IsMapped st l0 va pa flags kind
IsMapped-only {va} {pa} {flags} {kind} {tree} {st} {st'} g small m =
    let p = OnPath-of g.tables small m in
    let d1 : g.tree'.depth m.l1 ≢ 0 = omega (arith, p.f1.at_depth) in
    let d2 : g.tree'.depth m.l2 ≢ 0 = omega (arith, p.f2.at_depth) in
    let d3 : g.tree'.depth m.l3 ≢ 0 = omega (arith, p.f3.at_depth) in
    let leaf : (tree.depth m.l3 ≢ 0)
        × (st.ent m.l3 (index_at 3 va) ≡ st'.ent m.l3 (index_at 3 va)) =
      elim (g.only m.l3 (index_at 3 va) d3 (omega (arith, m.page.valid_page))) [
        | inl old ↦ old
        | inr (shallow, _) ↦ absurd (omega (arith, shallow, p.f3.at_depth))
      ] in
    let (old2, s2) = IsStep-only tree g.tables g.only d2 d3 leaf.0 m.s2 in
    let (old1, s1) = IsStep-only tree g.tables g.only d1 d2 old2 m.s1 in
    let (old0, s0) = IsStep-only tree g.tables g.only (omega (arith, p.f0.at_depth)) d1 old1 m.s0 in
    record {
      l1 = m.l1;
      l2 = m.l2;
      l3 = m.l3;
      s0 = s0;
      s1 = s1;
      s2 = s2;
      page = subst (IsPageEntry pa flags kind) (sym leaf.1) m.page;
    }

OnlyLinks-trans :
    {tree tree' tree'' : Tree} (st st' st'' : PageTables)
    → Extends tree tree'
    → Extends tree' tree''
    → OnlyLinks tree tree' st st'
    → OnlyLinks tree' tree'' st' st''
    → OnlyLinks tree tree'' st st''
OnlyLinks-trans {tree} {tree'} {tree''} st st' st'' x x' o o' t i h v = elim (o' t i h v) [
  | inl (h', e') ↦ elim (o t i h' (λ z. v (ap (λ k. k % 2) (sym e') ∙ z))) [
    | inl (h'', e) ↦ inl (h'', e ∙ e')
    | inr (shallow, (next, e, none_before, now)) ↦ inr (
      omega (arith, shallow, x' t h'),
      (next, sym e' ∙ e, none_before, omega (arith, now, x' next now)),
    )
  ]
  | inr (shallow, (next, e, none_before, now)) ↦
      let none_first : tree.depth next ≡ 0 = elim (ℕ_discrete (tree.depth next) 0) [
        | yes z ↦ z
        | no some_depth ↦ absurd (some_depth (sym (x next some_depth).0 ∙ none_before))
      ] in
      inr (shallow, (next, e, none_first, now))
]

pub Grown-trans :
    {base n l0 c c' : ℕ} {tree : Tree} {st st' st'' : PageTables}
    (g : Grown base n l0 c tree st st')
    → Grown base n l0 c' g.tree' st' st''
    → Grown base n l0 (c + c') tree st st''
Grown-trans {tree} {st} {st'} {st''} g g' = record {
  head' = g'.head';
  tree' = g'.tree';
  tables = g'.tables;
  extends = λ t h.
      let (d, p) = g.extends t h in
      let (d', p') = g'.extends t (omega (arith, d)) in (d' ∙ d, p' ∙ p);
  keeps = λ t i h v.
      let (d, p) = g.extends t h in
      let e = g.keeps t i h v in
      g'.keeps t i (omega (arith, d)) (λ z. v (ap (λ k. k % 2) (sym e) ∙ z)) ∙ e;
  only = OnlyLinks-trans st st' st'' g.extends g'.extends g.only g'.only;
  paid = omega (arith, g.paid, g'.paid);
}

-- `n` entries of the last table for `va` are written, from that of `va` on.
module _ {base n l0 : ℕ} {head : ℕ → ℕ} {tree : Tree} {st st' : PageTables}
    (g : IsTables base n l0 head tree st) (cnt va l3 : ℕ) {pa flags kind : ℕ} (small : va < 2 ^ 48)
    (f : IsFor tree 3 va l3) (room : index_at 3 va + cnt ≤ 512)
    (w : Wrote cnt pa flags kind l3 (index_at 3 va) st st') where
  other_table : (t i : ℕ) → tree.depth t < 4 → st'.ent t i ≡ st.ent t i
  other_table t i shallow = w.others t i (inl (λ e. omega (arith, f.at_depth, ap tree.depth e)))

  pub IsTables-wrote : IsTables base n l0 head tree st'
  IsTables-wrote = record {
    tiled = subst (IsTiled base n head n) (sym w.same_region) g.tiled;
    root = g.root;
    root_prefix = g.root_prefix;
    in_kernel = g.in_kernel;
    entries = λ t i h shallow.
        subst (IsNext tree t i) (sym (other_table t i shallow)) (g.entries t i h shallow);
    not_free =
        λ q q_in free. g.not_free q q_in (ap (λ r. owned r head q) (sym w.same_region) ∙ free);
  }

  IsStep-wrote :
      {level va' va'' cur next : ℕ}
      → level < 3
      → IsFor tree level va' cur
      → index_at level va'' ≡ index_at level va'
      → IsStep st level va' cur next
      → IsStep st' level va'' cur next
  IsStep-wrote {level} {va'} {va''} {cur} shallow at same s =
      IsStep-same same (other_table cur (index_at level va') (omega (arith, at.at_depth))) s

  away :
      (t va' : ℕ)
      → va' < 2 ^ 48
      → va % 4096 ≡ 0
      → (va' < va) ⊎ (va + cnt * 4096 ≤ va')
      → IsFor tree 3 va' t
      → (t ≢ l3) ⊎ ((index_at 3 va' < index_at 3 va) ⊎ (index_at 3 va + cnt ≤ index_at 3 va'))
  away t va' small' aligned outside f' = elim (ℕ_discrete t l3) [
    | no ne ↦ inl ne
    | yes e ↦
        inr
          (unfold index_at in (omega (arith, f.at_prefix, f'.at_prefix, ap tree.prefix e, outside)))
  ]

  -- An address outside the pages written is mapped now just where it was.
  pub IsMapped-before :
      {va' pa' flags' kind' : ℕ}
      → va' < 2 ^ 48
      → va % 4096 ≡ 0
      → (va' < va) ⊎ (va + cnt * 4096 ≤ va')
      → IsMapped st' l0 va' pa' flags' kind'
      → IsMapped st l0 va' pa' flags' kind'
  IsMapped-before {va'} {pa'} {flags'} {kind'} small' aligned outside m =
      let p = OnPath-of IsTables-wrote small' m in
      record {
        l1 = m.l1;
        l2 = m.l2;
        l3 = m.l3;
        s0 =
            IsStep-same refl (sym (other_table l0 (index_at 0 va') (omega (arith, p.f0.at_depth))))
              m.s0;
        s1 =
            IsStep-same refl
              (sym (other_table m.l1 (index_at 1 va') (omega (arith, p.f1.at_depth)))) m.s1;
        s2 =
            IsStep-same refl
              (sym (other_table m.l2 (index_at 2 va') (omega (arith, p.f2.at_depth)))) m.s2;
        page =
            subst (IsPageEntry pa' flags' kind')
              (w.others m.l3 (index_at 3 va') (away m.l3 va' small' aligned outside p.f3)) m.page;
      }

  -- an address outside the pages written
  pub IsMapped-others :
      {va' pa' flags' kind' : ℕ}
      → va' < 2 ^ 48
      → va % 4096 ≡ 0
      → (va' < va) ⊎ (va + cnt * 4096 ≤ va')
      → IsMapped st l0 va' pa' flags' kind'
      → IsMapped st' l0 va' pa' flags' kind'
  IsMapped-others {va'} {pa'} {flags'} {kind'} small' aligned outside m =
      let p = OnPath-of g small' m in
      record {
        l1 = m.l1;
        l2 = m.l2;
        l3 = m.l3;
        s0 = IsStep-wrote (omega arith) p.f0 refl m.s0;
        s1 = IsStep-wrote (omega arith) p.f1 refl m.s1;
        s2 = IsStep-wrote (omega arith) p.f2 refl m.s2;
        page =
            subst (IsPageEntry pa' flags' kind')
              (sym (w.others m.l3 (index_at 3 va') (away m.l3 va' small' aligned outside p.f3)))
              m.page;
      }

  index_at-upper :
      (level j : ℕ) → level < 3 → j < cnt → index_at level (va + j * 4096) ≡ index_at level va
  unfolding index_at
  index_at-upper zero j h less = let r = room in omega (arith, r)
  index_at-upper (suc zero) j h less = let r = room in omega (arith, r)
  index_at-upper (suc (suc zero)) j h less = let r = room in omega (arith, r)
  index_at-upper (suc (suc (suc k))) j h less = absurd (omega arith)

  index_at-last : (j : ℕ) → j < cnt → index_at 3 (va + j * 4096) ≡ index_at 3 va + j
  unfolding index_at
  index_at-last j less = let r = room in omega (arith, r)

  -- the pages written
  pub IsMapped-wrote :
      {l1 l2 : ℕ}
      → IsFor tree 0 va l0
      → IsFor tree 1 va l1
      → IsFor tree 2 va l2
      → IsStep st 0 va l0 l1
      → IsStep st 1 va l1 l2
      → IsStep st 2 va l2 l3
      → (j : ℕ) → j < cnt
      → IsMapped st' l0 (va + j * 4096) (pa + j * 4096) flags kind
  IsMapped-wrote {l1} {l2} f0 f1 f2 s0 s1 s2 j less = record {
    l1 = l1;
    l2 = l2;
    l3 = l3;
    s0 = IsStep-wrote (omega arith) f0 (index_at-upper 0 j (omega arith) less) s0;
    s1 = IsStep-wrote (omega arith) f1 (index_at-upper 1 j (omega arith) less) s1;
    s2 = IsStep-wrote (omega arith) f2 (index_at-upper 2 j (omega arith) less) s2;
    page =
        subst (IsPageEntry (pa + j * 4096) flags kind)
          (ap (st'.ent l3) (sym (index_at-last j less))) (w.mapped j less);
  }
