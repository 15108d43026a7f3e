-- ===== src/PageTable/Rounds.antt =====
-- A round of `map_range_in_pgtbl_common`: the walk to a last table, and the entries written there.
use kingdo_micro_kernel.Prelude.{
  ℕ, suc, ◌+◌, ◌-◌, ◌*◌, ◌%◌, ◌^◌, ◌≤◌, ◌<◌, ◌≡◌, refl, ap, ◌∙◌, ◌⊎◌, inl, inr, false, ◌==◌, Run,
  ◌>>=◌, arith, dec_lt,
}
use kingdo_micro_kernel.Buddy.Init.{kbase}
use kingdo_micro_kernel.Buddy.Layout.{IsLayout}
use kingdo_micro_kernel.Buddy.Count.{free_pages}
use kingdo_micro_kernel.PageTable.{PageTables, index_at}
use kingdo_micro_kernel.PageTable.Map.{Range, write_entries, must_follow, map_loop}
use kingdo_micro_kernel.PageTable.Query.{IsStep}
use kingdo_micro_kernel.PageTable.Written.{Writes, write_entries-Writes, range_of}
use kingdo_micro_kernel.PageTable.Tree.{Tree, IsTables, Grown, Follows}
use kingdo_micro_kernel.PageTable.Grow.{must_follow-Follows, index_at-small}
use kingdo_micro_kernel.PageTable.Mapped.{IsMapped, IsFor, IsFor-root, IsFor-next}
use kingdo_micro_kernel.PageTable.Kept.{
  IsStep-keeps, IsMapped-keeps, Grown-trans, IsTables-wrote, IsMapped-others, IsMapped-before,
  IsMapped-only, IsMapped-wrote,
}

-- `cnt` pages from `va` on are mapped to those from `pa` on, outside them just that is mapped that was, and
-- at most `cost` pages have become tables.
pub record Maps (base n l0 flags kind va pa cnt cost : ℕ) (st st' : PageTables) : Type 0 where
  pub head' : ℕ → ℕ
  pub tree' : Tree
  pub tables : IsTables base n l0 head' tree' st'
  pub mapped : (j : ℕ) → j < cnt → IsMapped st' l0 (va + j * 4096) (pa + j * 4096) flags kind
  pub others :
      {va' pa' flags' kind' : ℕ}
      → va' < 2 ^ 48
      → (va' < va) ⊎ (va + cnt * 4096 ≤ va')
      → IsMapped st l0 va' pa' flags' kind'
      → IsMapped st' l0 va' pa' flags' kind'
  pub only :
      {va' pa' flags' kind' : ℕ}
      → va' < 2 ^ 48
      → (va' < va) ⊎ (va + cnt * 4096 ≤ va')
      → IsMapped st' l0 va' pa' flags' kind'
      → IsMapped st l0 va' pa' flags' kind'
  pub paid : free_pages st.region ≤ free_pages st'.region + cost

-- The walk to the last table for an address, with its tables made.
record Walks (base n l0 va : ℕ) (tree : Tree) (st : PageTables) : Type 0 where
  l1 : ℕ
  l2 : ℕ
  l3 : ℕ
  st3 : PageTables
  grown : Grown base n l0 3 tree st st3
  f0 : IsFor grown.tree' 0 va l0
  f1 : IsFor grown.tree' 1 va l1
  f2 : IsFor grown.tree' 2 va l2
  f3 : IsFor grown.tree' 3 va l3
  s0 : IsStep st3 0 va l0 l1
  s1 : IsStep st3 1 va l1 l2
  s2 : IsStep st3 2 va l2 l3
  run :
      (k : ℕ → PageTables → Run PageTables)
      → (must_follow l0 0 va st >>= λ (l1, st1). must_follow l1 1 va st1 >>= λ (l2, st2).
          must_follow l2 2 va st2 >>= λ (l3, st3). k l3 st3)
        ≡ k l3 st3

-- A round of the loop, for at least a page.
pub record Rounds (base n l0 flags kind va pa total : ℕ) (st : PageTables) : Type 0 where
  pub cnt : ℕ
  pub some_page : 0 < cnt
  pub not_more : cnt ≤ total
  pub st' : PageTables
  pub maps : Maps base n l0 flags kind va pa cnt 3 st st'
  pub loop :
      (fuel : ℕ)
      → map_loop (suc fuel) l0 flags kind (range_of va pa total) st
        ≡ map_loop fuel l0 flags kind
            (range_of (va + cnt * 4096) (pa + cnt * 4096) (total - cnt))
            st'

range_eq :
    (r : Range) {va pa total : ℕ}
    → r.va ≡ va
    → r.pa ≡ pa
    → r.total_page_cnt ≡ total
    → r ≡ range_of va pa total
range_eq r a b c = λ i. record { va = a i; pa = b i; total_page_cnt = c i }

-- Three steps one after the other.
Walks-join :
    {base n l0 va : ℕ} {tree : Tree} {st : PageTables}
    → va < 2 ^ 48
    → (a : Follows base n l0 0 va l0 tree st)
    → (b : Follows base n l0 1 va a.next a.grown.tree' a.st')
    → (c : Follows base n l0 2 va b.next b.grown.tree' b.st') → Walks base n l0 va tree st
Walks-join {l0} {va} small a b c =
    let bc = Grown-trans b.grown c.grown in
    let abc = Grown-trans a.grown bc in
    let (depth_a, _) = b.grown.extends a.next (omega (arith, a.next_depth)) in
    let s0 = IsStep-keeps a.grown.tree' bc.keeps (omega (arith, a.grown.tables.root)) a.step in
    let s1 =
      IsStep-keeps b.grown.tree' c.grown.keeps (omega (arith, depth_a, a.next_depth)) b.step in
    let f0 = IsFor-root abc.tables va small in
    let f1 = IsFor-next abc.tables (omega arith) f0 s0 in
    let f2 = IsFor-next abc.tables (omega arith) f1 s1 in
    record {
      l1 = a.next;
      l2 = b.next;
      l3 = c.next;
      st3 = c.st';
      grown = abc;
      f0 = f0;
      f1 = f1;
      f2 = f2;
      f3 = IsFor-next abc.tables (omega arith) f2 c.step;
      s0 = s0;
      s1 = s1;
      s2 = c.step;
      run = λ k.
          ap
            (λ r. r >>= λ (l1, st1). must_follow l1 1 va st1 >>= λ (l2, st2).
              must_follow l2 2 va st2 >>= λ (l3, st3). k l3 st3)
            a.run
          ∙ ap (λ r. r >>= λ (l2, st2). must_follow l2 2 va st2 >>= λ (l3, st3). k l3 st3) b.run
          ∙ ap (λ r. r >>= λ (l3, st3). k l3 st3) c.run;
    }

-- As many pages as there are, or as the table has entries left.
page_count :
    (total room : ℕ)
    → 0 < total
    → 0 < room
    → (cnt : ℕ) × (0 < cnt) × (cnt ≤ room) × (cnt ≤ total) × ((cnt ≡ room) ⊎ (cnt ≡ total))
page_count total room some_page some_room = elim (dec_lt total room) [
  | yes less ↦ (total, some_page, omega arith, omega arith, inr refl)
  | no more ↦ (room, some_room, omega arith, omega arith, inl refl)
]

-- The walk, and the entries written in its last table.
Rounds-join :
    {base n l0 flags kind va pa total cnt : ℕ} {head : ℕ → ℕ} {tree : Tree} {st : PageTables}
    → IsTables base n l0 head tree st
    → (w : Walks base n l0 va tree st)
    → (v : Writes flags kind w.l3 cnt
        (512 - index_at 3 va)
        (index_at 3 va)
        (range_of va pa total)
        w.st3)
    → va % 4096 ≡ 0
    → va + total * 4096 ≤ 2 ^ 48
    → pa + total * 4096 < 2 ^ 48
    → (0 < cnt) × (cnt ≤ 512 - index_at 3 va) × (cnt ≤ total)
    → Rounds base n l0 flags kind va pa total st
unfolding map_loop
Rounds-join {l0} {flags} {kind} {va} {pa} {total} {cnt} {st} g w v aligned va_in pa_in
      (some_page, fits, not_more) =
    let small : va < 2 ^ 48 = omega arith in
    let room : index_at 3 va + cnt ≤ 512 = omega (arith, index_at-small 3 va) in
    let more : (total == 0) ≡ false = ground arith in
    let next : v.range' ≡ range_of (va + cnt * 4096) (pa + cnt * 4096) (total - cnt) =
      range_eq v.range' (v.next_va ∙ omega arith) (v.next_pa ∙ omega arith) v.left in
    record {
      cnt = cnt;
      some_page = some_page;
      not_more = not_more;
      st' = v.st';
      maps = record {
        head' = w.grown.head';
        tree' = w.grown.tree';
        tables = IsTables-wrote w.grown.tables cnt va w.l3 small w.f3 room v.wrote;
        mapped =
            IsMapped-wrote w.grown.tables cnt va w.l3 small w.f3 room v.wrote w.f0 w.f1 w.f2 w.s0
              w.s1 w.s2;
        others = λ small' outside m.
            IsMapped-others w.grown.tables cnt va w.l3 small w.f3 room v.wrote small' aligned
              outside (IsMapped-keeps g w.grown.keeps small' m);
        only = λ small' outside m. IsMapped-only w.grown small' (
            IsMapped-before w.grown.tables cnt va w.l3 small w.f3 room v.wrote small' aligned
              outside m);
        paid = omega (arith, w.grown.paid, ap free_pages v.wrote.same_region);
      };
      loop = λ fuel. rw more (
          w.run (λ l3 st3.
            write_entries (512 - index_at 3 va) l3 (index_at 3 va) flags kind (range_of va pa total)
              st3
            >>= λ (range', st'). map_loop fuel l0 flags kind range' st')
          ∙ ap (λ r. r >>= λ (range', st'). map_loop fuel l0 flags kind range' st') v.run
          ∙ ap (λ r. map_loop fuel l0 flags kind r v.st') next);
    }

module _ {base n l0 : ℕ} (lay : IsLayout base n) (high : kbase ≤ base * 4096) where
  Walks-of :
      {head : ℕ → ℕ} {tree : Tree} {st : PageTables} (g : IsTables base n l0 head tree st) (va : ℕ)
      → va < 2 ^ 48
      → 3 ≤ free_pages st.region
      → Walks base n l0 va tree st
  Walks-of {st} g va small enough =
      let a = must_follow-Follows lay high g 0 va l0 (omega arith) g.root (omega arith) in
      let b =
        must_follow-Follows lay high a.grown.tables 1 va a.next (omega arith) a.next_depth
          (omega (arith, a.grown.paid)) in
      let c =
        must_follow-Follows lay high b.grown.tables 2 va b.next (omega arith) b.next_depth
          (omega (arith, a.grown.paid, b.grown.paid)) in
      Walks-join small a b c

  module _ (flags kind : ℕ) (kind_in : kind < 2) where
    pub Rounds-of :
        {head : ℕ → ℕ} {tree : Tree} {st : PageTables} (va pa total : ℕ)
        → IsTables base n l0 head tree st
        → va % 4096 ≡ 0
        → 0 < total
        → va + total * 4096 ≤ 2 ^ 48
        → pa + total * 4096 < 2 ^ 48
        → 3 ≤ free_pages st.region
        → Rounds base n l0 flags kind va pa total st
    Rounds-of va pa total g aligned pos va_in pa_in enough =
        let w = Walks-of g va (omega arith) enough in
        let (cnt, some_page, fits, not_more, ends) =
          page_count total (512 - index_at 3 va) pos (omega (arith, index_at-small 3 va)) in
        Rounds-join g w
          (write_entries-Writes flags kind w.l3 cnt (512 - index_at 3 va) (index_at 3 va) va pa
            total w.st3 kind_in (omega (arith, va_in, pos)) fits not_more ends pos pa_in)
          aligned va_in pa_in (some_page, fits, not_more)
