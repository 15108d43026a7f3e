-- ===== src/PageTable/Mapped.antt =====
-- What the tables map, and what stays mapped where tables are added or entries written.
use kingdo_micro_kernel.Prelude.{
  ℕ, zero, suc, ◌+◌, ◌-◌, ◌*◌, ◌/◌, ◌^◌, ◌<◌, ◌≡◌, ap, subst, ◌∙◌, inl, inr, arith,
}
use kingdo_micro_kernel.PageTable.{PageTables, index_at}
use kingdo_micro_kernel.PageTable.Entry.{IsPageEntry}
use kingdo_micro_kernel.PageTable.Query.{IsStep}
use kingdo_micro_kernel.PageTable.Tree.{Tree, IsTables}

-- The tables from `l0` on lead from `va` to the entry of the page at `pa`.
pub record IsMapped (st : PageTables) (l0 va pa flags kind : ℕ) : Type 0 where
  pub l1 : ℕ
  pub l2 : ℕ
  pub l3 : ℕ
  pub s0 : IsStep st 0 va l0 l1
  pub s1 : IsStep st 1 va l1 l2
  pub s2 : IsStep st 2 va l2 l3
  pub page : IsPageEntry pa flags kind (st.ent l3 (index_at 3 va))

-- The same step where the entry is the same.
pub IsStep-same :
    {st st' : PageTables} {level va va' cur next : ℕ}
    → index_at level va' ≡ index_at level va
    → st'.ent cur (index_at level va) ≡ st.ent cur (index_at level va)
    → IsStep st level va cur next
    → IsStep st' level va' cur next
IsStep-same {st} {st'} {level} {va} {va'} {cur} {next} same e s = record {
  not_null = s.not_null;
  entry = ap (st'.ent cur) same ∙ e ∙ s.entry;
  in_kernel = s.in_kernel;
  on_page = s.on_page;
}

-- The table is in the tree for the address.
pub record IsFor (tree : Tree) (level va t : ℕ) : Type 0 where
  pub at_depth : tree.depth t ≡ level + 1
  pub at_prefix : tree.prefix t ≡ va / 2 ^ (12 + 9 * (4 - level))

module _ {base n l0 : ℕ} {head : ℕ → ℕ} {tree : Tree} {st : PageTables}
    (g : IsTables base n l0 head tree st) where
  pub IsFor-root : (va : ℕ) → va < 2 ^ 48 → IsFor tree 0 va l0
  IsFor-root va small = record { at_depth = g.root; at_prefix = g.root_prefix ∙ omega arith }

  next_of :
      (level va cur next : ℕ)
      → level < 3
      → tree.depth cur ≡ level + 1
      → IsStep st level va cur next
      → (tree.depth next ≡ level + 2)
        × (tree.prefix next ≡ tree.prefix cur * 512 + index_at level va)
  next_of level va cur next shallow d s =
      elim (g.entries cur (index_at level va) (omega (arith, d)) (omega (arith, d))) [
        | inl invalid ↦ absurd (omega (arith, s.entry, invalid))
        | inr (t, e, d', p') ↦
            let (low, top, aligned) = g.in_kernel t (omega (arith, d')) in
            let same : t ≡ next = omega (arith, s.in_kernel, s.on_page, s.entry, e) in
            subst
              (λ t.
                (tree.depth t ≡ level + 2)
                × (tree.prefix t ≡ tree.prefix cur * 512 + index_at level va))
              same (omega (arith, d, d'), p')
      ]

  prefix_next :
      (level va p : ℕ)
      → level < 3
      → p ≡ va / 2 ^ (12 + 9 * (4 - level))
      → p * 512 + index_at level va ≡ va / 2 ^ (12 + 9 * (4 - suc level))
  unfolding index_at
  prefix_next zero va p h e = omega arith
  prefix_next (suc zero) va p h e = omega arith
  prefix_next (suc (suc zero)) va p h e = omega arith
  prefix_next (suc (suc (suc k))) va p h e = absurd (omega arith)

  pub IsFor-next :
      {level va cur next : ℕ}
      → level < 3
      → IsFor tree level va cur
      → IsStep st level va cur next
      → IsFor tree (suc level) va next
  IsFor-next {level} {va} {cur} {next} shallow f s =
      let (d, p) = next_of level va cur next shallow f.at_depth s in
      record {
        at_depth = omega (arith, d);
        at_prefix = p ∙ prefix_next level va (tree.prefix cur) shallow f.at_prefix;
      }

  -- The tables on the way to a page.
  pub record OnPath (va : ℕ) {pa flags kind : ℕ} (m : IsMapped st l0 va pa flags kind)
      : Type 0 where
    pub f0 : IsFor tree 0 va l0
    pub f1 : IsFor tree 1 va m.l1
    pub f2 : IsFor tree 2 va m.l2
    pub f3 : IsFor tree 3 va m.l3

  pub OnPath-of :
      {va pa flags kind : ℕ} → va < 2 ^ 48 → (m : IsMapped st l0 va pa flags kind) → OnPath va m
  OnPath-of {va} small m =
      let f0 = IsFor-root va small in
      let f1 = IsFor-next (omega arith) f0 m.s0 in
      let f2 = IsFor-next (omega arith) f1 m.s1 in
      record { f0 = f0; f1 = f1; f2 = f2; f3 = IsFor-next (omega arith) f2 m.s2 }
