-- ===== src/PageTable/Tree.antt =====
-- The tables that a walk can reach, as a tree of four levels, and its growth by new tables.
--
-- `depth` of a table is its level and one, and 0 where no table is; `prefix` is the part of the
-- addresses above the bits that the table and those below it resolve. A table lies at the address of
-- a page that is not free.
use kingdo_micro_kernel.Prelude.{ℕ, ◌+◌, ◌*◌, ◌%◌, ◌^◌, ◌≤◌, ◌<◌, ◌≡◌, ◌≢◌, ◌⊎◌, false, done}
use kingdo_micro_kernel.Buddy.Init.{kbase}
use kingdo_micro_kernel.Buddy.Tiling.{IsTiled, owned}
use kingdo_micro_kernel.Buddy.Count.{free_pages}
use kingdo_micro_kernel.PageTable.{PageTables, index_at, virt_to_phys, table_entry}
use kingdo_micro_kernel.PageTable.Query.{IsStep}
use kingdo_micro_kernel.PageTable.Map.{must_follow}

pub record Tree : Type 0 where
  pub depth : ℕ → ℕ
  pub prefix : ℕ → ℕ

-- An entry of the table `t` that is not valid, or leads to the table that the index asks for.
abbrev pub IsNext : Tree → ℕ → ℕ → ℕ → Type 0
IsNext tree t i e =
    (e % 2 ≡ 0)
    ⊎ ((t' : ℕ) × (e ≡ table_entry (virt_to_phys t'))
        × (tree.depth t' ≡ tree.depth t + 1)
        × (tree.prefix t' ≡ tree.prefix t * 512 + i))

pub record IsTables (base n l0 : ℕ) (head : ℕ → ℕ) (tree : Tree) (st : PageTables) : Type 0 where
  pub tiled : IsTiled base n head n st.region
  pub root : tree.depth l0 ≡ 1
  pub root_prefix : tree.prefix l0 ≡ 0
  pub in_kernel : (t : ℕ) → tree.depth t ≢ 0 → (kbase ≤ t) × (t < 2 ^ 64) × (t % 4096 ≡ 0)
  pub entries : (t i : ℕ) → tree.depth t ≢ 0 → tree.depth t < 4 → IsNext tree t i (st.ent t i)
  pub not_free :
      (q : ℕ) → q < n → owned st.region head q ≡ false → tree.depth ((base + q) * 4096) ≡ 0

-- The tables of one tree are in the other, at their place.
abbrev pub Extends : Tree → Tree → Type 0
Extends tree tree' =
    (t : ℕ) → tree.depth t ≢ 0 → (tree'.depth t ≡ tree.depth t) × (tree'.prefix t ≡ tree.prefix t)

-- The valid entries stay.
abbrev pub KeepsValid : Tree → PageTables → PageTables → Type 0
KeepsValid tree st st' =
    (t i : ℕ) → tree.depth t ≢ 0 → st.ent t i % 2 ≢ 0 → st'.ent t i ≡ st.ent t i

-- A valid entry was there before, or is new and leads to a new table.
abbrev pub IsOld : Tree → Tree → PageTables → PageTables → ℕ → ℕ → Type 0
IsOld tree tree' st st' t i =
    ((tree.depth t ≢ 0) × (st.ent t i ≡ st'.ent t i))
    ⊎ ((tree'.depth t < 4)
        × ((t' : ℕ) × (st'.ent t i ≡ table_entry (virt_to_phys t'))
            × (tree.depth t' ≡ 0)
            × (tree'.depth t' ≢ 0)))

abbrev pub OnlyLinks : Tree → Tree → PageTables → PageTables → Type 0
OnlyLinks tree tree' st st' =
    (t i : ℕ) → tree'.depth t ≢ 0 → st'.ent t i % 2 ≢ 0 → IsOld tree tree' st st' t i

-- At most `cost` pages have become tables of the tree.
pub record Grown (base n l0 cost : ℕ) (tree : Tree) (st st' : PageTables) : Type 0 where
  pub head' : ℕ → ℕ
  pub tree' : Tree
  pub tables : IsTables base n l0 head' tree' st'
  pub extends : Extends tree tree'
  pub keeps : KeepsValid tree st st'
  pub only : OnlyLinks tree tree' st st'
  pub paid : free_pages st.region ≤ free_pages st'.region + cost

-- A step of the walk, which makes the table where there is none.
pub record Follows (base n l0 level va cur : ℕ) (tree : Tree) (st : PageTables) : Type 0 where
  pub next : ℕ
  pub st' : PageTables
  pub run : must_follow cur level va st ≡ done (next, st')
  pub grown : Grown base n l0 1 tree st st'
  pub step : IsStep st' level va cur next
  pub next_depth : grown.tree'.depth next ≡ level + 2
  pub next_prefix : grown.tree'.prefix next ≡ tree.prefix cur * 512 + index_at level va
