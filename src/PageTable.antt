-- ===== src/PageTable.antt =====
-- arch/aarch64/mm/page_table.c and its header: the entries of the page tables, the walk and the query.
--
-- An entry is a number below 2 ^ 64. The tables are the record PageTables: the entries by the virtual
-- address of their table and their index, and the region that new tables come from. `pte_t *` is a
-- table and an index.
pub mod Entry
pub mod Query
pub mod Map
pub mod Written
pub mod Tree
pub mod Grow
pub mod Mapped
pub mod Kept
pub mod Rounds
pub mod Range
mod MapTests
mod Tests
use kingdo_micro_kernel.Prelude.{
  ℕ, zero, suc, ◌+◌, ◌-◌, ◌*◌, ◌/◌, ◌%◌, ◌^◌, Bool, true, false, not, ◌||◌, ◌&&◌, Option, none,
  some, ltb, leb, ◌==◌, if◌then◌else◌, update, Run, done, stop, hang, ◌>>=◌,
}
use kingdo_micro_kernel.Buddy.{page_size, wrap64, MemRegion, buddy_get_pages, page_to_virt}
use kingdo_micro_kernel.Buddy.Init.{kbase, phys_to_virt}

-- The bits of `vmr_prop_t`.
abbrev pub vmr_read : ℕ → Bool
vmr_read flags = flags % 2 == 1

abbrev pub vmr_write : ℕ → Bool
vmr_write flags = (flags / 2) % 2 == 1

abbrev pub vmr_exec : ℕ → Bool
vmr_exec flags = (flags / 4) % 2 == 1

abbrev pub vmr_device : ℕ → Bool
vmr_device flags = (flags / 8) % 2 == 1

abbrev pub vmr_nocache : ℕ → Bool
vmr_nocache flags = (flags / 16) % 2 == 1

unfoldable pub vmr_prot_to_ap : ℕ → ℕ
vmr_prot_to_ap prot =
    if vmr_read prot && not (vmr_write prot) then 3 else if vmr_write prot then 1 else 0

-- VMR_READ is 1 and VMR_WRITE is 2.
unfoldable pub ap_to_vmr_prot : ℕ → ℕ
ap_to_vmr_prot ap = if ap == 3 then 1 else if ap == 1 then 3 else 0

-- `l3_page` of `pte_t`, without the fields that stay 0.
pub record L3Page : Type 0 where
  pub is_valid : ℕ
  pub is_page : ℕ
  pub attr_index : ℕ
  pub ap : ℕ
  pub sh : ℕ
  pub af : ℕ
  pub ng : ℕ
  pub pfn : ℕ
  pub pxn : ℕ
  pub uxn : ℕ

-- The union read as `pte`.
unfoldable pub pte : L3Page → ℕ
pte l =
    l.is_valid
    + 2 * l.is_page
    + 4 * l.attr_index
    + 64 * l.ap
    + 256 * l.sh
    + 1024 * l.af
    + 2048 * l.ng
    + 2 ^ 12 * l.pfn
    + 2 ^ 53 * l.pxn
    + 2 ^ 54 * l.uxn

abbrev pub user_pte : ℕ
user_pte = 0

abbrev pub kernel_pte : ℕ
kernel_pte = 1

unfoldable pub set_pte_flags : L3Page → ℕ → ℕ → Run L3Page
set_pte_flags entry flags kind =
    let no_exec = not (vmr_exec flags) in
    if not (kind == user_pte) && not (kind == kernel_pte)
    then stop hang
    else done (record entry {
      ap = vmr_prot_to_ap flags;
      pxn = if kind == kernel_pte then if no_exec then 1 else entry.pxn else 1;
      uxn = if kind == kernel_pte then 1 else if no_exec then 1 else entry.uxn;
      af = 1;
      ng = 1;
      sh = if vmr_device flags then 0 else 3;
      attr_index = if vmr_device flags then 0 else if vmr_nocache flags then 3 else 4;
    })

-- The entry that `map_range_in_pgtbl_common` writes for the page at `pa`: `pfn` has 36 bits.
unfoldable pub page_entry : ℕ → ℕ → ℕ → Run ℕ
page_entry pa flags kind =
    set_pte_flags
      (record {
        is_valid = 1;
        is_page = 1;
        attr_index = 0;
        ap = 0;
        sh = 0;
        af = 0;
        ng = 0;
        pfn = (pa / page_size) % 2 ^ 36;
        pxn = 0;
        uxn = 0;
      })
      flags kind
    >>= λ l. done (pte l)

-- GET_L0_INDEX to GET_L3_INDEX
unfoldable pub index_at : ℕ → ℕ → ℕ
index_at level va = (va / 2 ^ (12 + 9 * (3 - level))) % 512

-- GET_VA_OFFSET_L1 to GET_VA_OFFSET_L3
unfoldable pub offset_at : ℕ → ℕ → ℕ
offset_at level va = va % 2 ^ (12 + 9 * (3 - level))

abbrev pub virt_to_phys : ℕ → ℕ
virt_to_phys va = wrap64 (va + 2 ^ 64 - kbase)

-- GET_PADDR_IN_PTE: the field `next_table_addr` has 36 bits.
abbrev pub paddr_in_pte : ℕ → ℕ
paddr_in_pte entry = (entry / page_size) % 2 ^ 36 * page_size

-- A table entry with `is_valid` and `is_table`.
abbrev pub table_entry : ℕ → ℕ
table_entry paddr = 3 + (paddr / page_size) % 2 ^ 36 * page_size

pub record PageTables : Type 0 where
  pub ent : ℕ → ℕ → ℕ
  pub region : MemRegion
  pub rss : Option ℕ

-- `if (rss) *rss += PAGE_SIZE`
abbrev pub add_rss : Option ℕ → Option ℕ
add_rss none = none
add_rss (some n) = some (n + page_size)

-- -ENOMEM, or whether the entry leads to a table, where it leads, and the entry.
pub data Next : Type 0 where
  no_memory : Next
  next_ptp : (is_table : Bool) (ptp : ℕ) (entry : ℕ × ℕ) → Next

-- A new table of zeros, entered at `index` of `cur`; `none` where there is no page.
unfoldable pub new_table : ℕ → ℕ → Option ℕ → MemRegion → PageTables → Option PageTables
new_table cur index none r st = none
new_table cur index (some page) r st =
    let new = page_to_virt r page in
    let cleared = update st.ent new (λ _. 0) in
    some (record {
      ent = update cleared cur (update (cleared cur) index (table_entry (virt_to_phys new)));
      region = r;
      rss = add_rss st.rss;
    })

unfoldable pub follow : ℕ → ℕ → PageTables → Next
follow cur index st =
    let entry = st.ent cur index in
    next_ptp ((entry / 2) % 2 == 1) (phys_to_virt (paddr_in_pte entry)) (cur, index)

unfoldable pub get_next_ptp : ℕ → ℕ → ℕ → Bool → PageTables → Run (Next × PageTables)
get_next_ptp cur level va alloc st =
    let index = index_at level va in
    let made =
      (buddy_get_pages 0 st.region >>= λ (page, r). elim (new_table cur index page r st) [
        | none ↦ done (no_memory, record st { region = r })
        | some st' ↦ done (follow cur index st', st')
      ]) in
    if cur == 0
    then done (no_memory, st)
    else if ltb 3 level
    then stop hang
    else if st.ent cur index % 2 == 0
    then if alloc then made else done (no_memory, st)
    else done (follow cur index st, st)

-- The physical address and the entry; `none` stands for -ENOMEM.
unfoldable pub query_page : ℕ → ℕ → PageTables → Run (Option (ℕ × (ℕ × ℕ)))
query_page l3_ptp va st = get_next_ptp l3_ptp 3 va false st >>= λ (next, _). elim next [
  | no_memory ↦ done none
  | next_ptp _ ptp entry ↦ done (some (wrap64 (virt_to_phys ptp + offset_at 3 va), entry))
]

-- A level at which a block ends the walk.
unfoldable pub query_block :
    ℕ → ℕ → ℕ → PageTables → (ℕ → Run (Option (ℕ × (ℕ × ℕ)))) → Run (Option (ℕ × (ℕ × ℕ)))
query_block level ptp va st deeper = get_next_ptp ptp level va false st >>= λ (next, _). elim next [
  | no_memory ↦ done none
  | next_ptp is_table ptp' entry ↦
      let below = deeper ptp' in
      if is_table
      then below
      else done (some (wrap64 (virt_to_phys ptp' + offset_at level va), entry))
]

unfoldable pub query_in_pgtbl : ℕ → ℕ → PageTables → Run (Option (ℕ × (ℕ × ℕ)))
query_in_pgtbl pgtbl va st = get_next_ptp pgtbl 0 va false st >>= λ (next, _). elim next [
  | no_memory ↦ done none
  | next_ptp _ l1_ptp _ ↦
      query_block 1 l1_ptp va st
        (λ l2_ptp. query_block 2 l2_ptp va st (λ l3_ptp. query_page l3_ptp va st))
]
