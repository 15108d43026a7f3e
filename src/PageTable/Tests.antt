-- ===== src/PageTable/Tests.antt =====
-- A walk through four tables, and the theorems at it.
use kingdo_micro_kernel.Prelude.{
  ℕ, ◌+◌, ◌*◌, ◌^◌, ◌≡◌, refl, none, [], ◌==◌, if◌then◌else◌, done, arith,
}
use kingdo_micro_kernel.Buddy.Init.{kbase}
use kingdo_micro_kernel.PageTable.{
  PageTables, page_entry, index_at, vmr_prot_to_ap, ap_to_vmr_prot, table_entry, user_pte,
}
use kingdo_micro_kernel.PageTable.Entry.{
  IsPageEntry, page_entry-IsPageEntry, ap_to_vmr_prot-vmr_prot_to_ap,
}

-- A page that the user may read and execute.
page_entry-IsPageEntry_example :
    (entry : ℕ) × (page_entry 0x12_3000 5 user_pte ≡ done entry)
    × IsPageEntry 0x12_3000 5 user_pte entry
page_entry-IsPageEntry_example =
    page_entry-IsPageEntry 0x12_3000 5 user_pte (omega arith) (omega arith)

ap_to_vmr_prot-vmr_prot_to_ap_example : ap_to_vmr_prot (vmr_prot_to_ap 2) ≡ 3
ap_to_vmr_prot-vmr_prot_to_ap_example = ap_to_vmr_prot-vmr_prot_to_ap 2

-- Tables at the physical pages 1 to 4; the last maps the page 0x123000 for the user.
abbrev table : ℕ → ℕ
table k = kbase + k * 4096

abbrev tables : PageTables
tables = record {
  ent = λ t i.
      if t == table 4
      then 3 + 4 * 4 + 64 * 3 + 256 * 3 + 1024 + 2048 + 0x12_3000 + 2 ^ 53
      else if t == table 3
      then table_entry 0x4000
      else if t == table 2
      then table_entry 0x3000
      else table_entry 0x2000;
  region = record {
    start_addr = 0;
    size = 0;
    page_arrry = 0;
    page_num = 0;
    free_lists = λ _. record { nodes = []; nr_free = 0 };
    pages = λ _. record { allocated = 0; order = 0; slab = none };
  };
  rss = none;
}

mapped : IsPageEntry 0x12_3000 5 user_pte (tables.ent (table 4) (index_at 3 0x40_0042))
unfolding vmr_prot_to_ap index_at
mapped = record {
  width = omega arith;
  valid_page = refl;
  page = refl;
  memory = refl;
  shared = refl;
  accessed = (refl, refl);
  access = refl;
  kernel_exec = refl;
  user_exec = refl;
}
