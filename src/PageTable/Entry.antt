-- ===== src/PageTable/Entry.antt =====
-- What an entry says: the page and the permissions that it was made from.
use kingdo_micro_kernel.Prelude.{
  ℕ, ◌+◌, ◌-◌, ◌*◌, ◌/◌, ◌%◌, ◌^◌, ◌<◌, ◌≡◌, refl, ap, ◌∙◌, Bool, false, not, ◌&&◌, ◌==◌,
  if◌then◌else◌, done, arith,
}
use kingdo_micro_kernel.PageTable.{
  pte, set_pte_flags, page_entry, index_at, offset_at, vmr_prot_to_ap, ap_to_vmr_prot, paddr_in_pte,
  vmr_exec, vmr_read, vmr_write, vmr_device, vmr_nocache, user_pte, kernel_pte,
}

-- The fields of an entry, as the hardware reads them.
abbrev pub pxn_of : ℕ → Bool
pxn_of entry = (entry / 2 ^ 53) % 2 == 1

abbrev pub uxn_of : ℕ → Bool
uxn_of entry = (entry / 2 ^ 54) % 2 == 1

abbrev pub ap_of : ℕ → ℕ
ap_of entry = (entry / 64) % 4

abbrev pub attr_of : ℕ → ℕ
attr_of entry = (entry / 4) % 8

abbrev pub sh_of : ℕ → ℕ
sh_of entry = (entry / 256) % 4

abbrev pub af_of : ℕ → ℕ
af_of entry = (entry / 1024) % 2

abbrev pub ng_of : ℕ → ℕ
ng_of entry = (entry / 2048) % 2

-- The index of the memory attributes: device, normal without a cache, or normal memory.
abbrev pub attr_for : ℕ → ℕ
attr_for flags = if vmr_device flags then 0 else if vmr_nocache flags then 3 else 4

abbrev pub sh_for : ℕ → ℕ
sh_for flags = if vmr_device flags then 0 else 3

-- The entry of a page at `pa`, mapped with `flags` for the kernel or for the user.
pub record IsPageEntry (pa flags kind entry : ℕ) : Type 0 where
  pub width : entry < 2 ^ 64
  pub valid_page : entry % 4 ≡ 3
  pub page : paddr_in_pte entry ≡ pa - pa % 4096
  pub memory : attr_of entry ≡ attr_for flags
  pub shared : sh_of entry ≡ sh_for flags
  pub accessed : (af_of entry ≡ 1) × (ng_of entry ≡ 1)
  pub access : ap_of entry ≡ vmr_prot_to_ap flags
  pub kernel_exec : pxn_of entry ≡ not (kind == kernel_pte && vmr_exec flags)
  pub user_exec : uxn_of entry ≡ not (kind == user_pte && vmr_exec flags)

-- An entry of a page with its fields in their widths.
module _ {attr ap sh pfn pxn uxn : ℕ} (attr_in : attr < 8) (ap_in : ap < 4) (sh_in : sh < 4)
    (pfn_in : pfn < 2 ^ 36) (pxn_in : pxn < 2) (uxn_in : uxn < 2) where
  abbrev entry : ℕ
  entry =
      1
      + 2 * 1
      + 4 * attr
      + 64 * ap
      + 256 * sh
      + 1024 * 1
      + 2048 * 1
      + 2 ^ 12 * pfn
      + 2 ^ 53 * pxn
      + 2 ^ 54 * uxn

  fields :
      (entry < 2 ^ 64)
      × (entry % 4 ≡ 3)
      × (paddr_in_pte entry ≡ pfn * 4096)
      × (ap_of entry ≡ ap)
      × (attr_of entry ≡ attr)
      × (sh_of entry ≡ sh)
      × (af_of entry ≡ 1)
      × (ng_of entry ≡ 1)
      × ((entry / 2 ^ 53) % 2 ≡ pxn)
      × ((entry / 2 ^ 54) % 2 ≡ uxn)
  fields = (
    omega arith,
    omega arith,
    omega arith,
    omega arith,
    omega arith,
    omega arith,
    omega arith,
    omega arith,
    omega arith,
    omega arith,
  )

abbrev pxn_for : ℕ → ℕ → ℕ
pxn_for flags kind = if kind == kernel_pte then if not (vmr_exec flags) then 1 else 0 else 1

abbrev uxn_for : ℕ → ℕ → ℕ
uxn_for flags kind = if kind == kernel_pte then 1 else if not (vmr_exec flags) then 1 else 0

-- For a physical address below 2 ^ 48 and either kind, the entry that map_range_in_pgtbl_common
-- builds is a valid page entry of 64 bits that has the page of the address, the accessed and the
-- not-global bit, the memory attributes that the flags ask for (device, without a cache or normal,
-- and shared unless it is a device), and the access bits of the flags; the kernel may execute it
-- just where it is a kernel entry with VMR_EXEC, the user just where it is a user entry with
-- VMR_EXEC.
pub page_entry-IsPageEntry :
    (pa flags kind : ℕ)
    → pa < 2 ^ 48
    → kind < 2
    → (entry : ℕ) × (page_entry pa flags kind ≡ done entry) × IsPageEntry pa flags kind entry
unfolding page_entry set_pte_flags pte
page_entry-IsPageEntry pa flags kind small kind_in =
    let fine : (not (kind == user_pte) && not (kind == kernel_pte)) ≡ false = ground arith in
    let ap_in : vmr_prot_to_ap flags < 4 = unfold vmr_prot_to_ap in (ground arith) in
    let (width, valid, page, access, attr, sh, af, ng, pxn, uxn) =
      fields {attr = attr_for flags} {ap = vmr_prot_to_ap flags} {sh = sh_for flags}
        {pfn = (pa / 4096) % 2 ^ 36} {pxn = pxn_for flags kind} {uxn = uxn_for flags kind}
        (ground arith) ap_in (ground arith) (omega arith) (ground arith) (ground arith) in
    (
      _,
      rw fine refl,
      record {
        width = width;
        valid_page = valid;
        page = page ∙ omega arith;
        memory = attr;
        shared = sh;
        accessed = (af, ng);
        access = access;
        kernel_exec = ap (λ (b : ℕ). b == 1) pxn ∙ ground arith;
        user_exec = ap (λ (b : ℕ). b == 1) uxn ∙ ground arith;
      },
    )

-- __ap_to_vmr_prot gives back the read and write bits that __vmr_prot_to_ap was given, where
-- writing brings reading with it.
pub ap_to_vmr_prot-vmr_prot_to_ap :
    (prot : ℕ)
    → ap_to_vmr_prot (vmr_prot_to_ap prot)
      ≡ (if vmr_write prot then 3 else if vmr_read prot then 1 else 0)
unfolding vmr_prot_to_ap ap_to_vmr_prot
ap_to_vmr_prot-vmr_prot_to_ap prot = ground arith

-- An address below 2 ^ 48 is the sum of its four table indices, each at its shift, and of its
-- offset in the page.
pub index_at-offset_at :
    (va : ℕ)
    → va < 2 ^ 48
    → index_at 0 va * 2 ^ 39
        + index_at 1 va * 2 ^ 30
        + index_at 2 va * 2 ^ 21
        + index_at 3 va * 2 ^ 12
        + offset_at 3 va
      ≡ va
unfolding index_at offset_at
index_at-offset_at va small = omega arith
