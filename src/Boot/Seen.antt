-- ===== src/Boot/Seen.antt =====
-- The boot tables as the kernel sees them, and their entries as its walk reads them.
use kingdo_micro_kernel.Prelude.{
  ℕ, ◌+◌, ◌*◌, ◌/◌, ◌%◌, ◌^◌, ◌≤◌, ◌<◌, ◌≡◌, ◌≢◌, refl, ◌⊎◌, inl, inr, true, false, none, ltb,
  if◌then◌else◌, ◌==◌, done, arith, dec_lt,
}
use kingdo_micro_kernel.Buddy.{MemRegion}
use kingdo_micro_kernel.Buddy.Init.{phys_to_virt}
use kingdo_micro_kernel.PageTable.{
  PageTables, next_ptp, index_at, paddr_in_pte, follow, get_next_ptp,
}
use kingdo_micro_kernel.Boot.{
  size_2m, size_1g, high, normal_block, device_block, local_block, table_at, Tables, Places,
}

-- The tables as the kernel sees them, at their addresses in its half.
abbrev pub seen : ℕ → Places → Tables → MemRegion → PageTables
seen l0_at places t r = record {
  ent = λ p i.
      if p == phys_to_virt l0_at
      then t.l0 i
      else if p == phys_to_virt places.l1_at
      then t.l1 i
      else if p == phys_to_virt places.l2_at
      then t.l2 i
      else 0;
  region = r;
  rss = none;
}

-- The three tables are different pages of the first 4 GB.
pub record ArePages (l0_at : ℕ) (places : Places) : Type 0 where
  pub in_memory : (l0_at < 2 ^ 32) × (places.l1_at < 2 ^ 32) × (places.l2_at < 2 ^ 32)
  pub on_page : (l0_at % 4096 ≡ 0) × (places.l1_at % 4096 ≡ 0) × (places.l2_at % 4096 ≡ 0)
  pub different : (l0_at ≢ places.l1_at) × (l0_at ≢ places.l2_at) × (places.l1_at ≢ places.l2_at)

pub get_next_ptp-valid :
    (st : PageTables) (cur level va e : ℕ)
    → cur ≢ 0
    → level ≤ 3
    → st.ent cur (index_at level va) ≡ e
    → e % 2 ≡ 1
    → get_next_ptp cur level va false st
      ≡ done
          (next_ptp ((e / 2) % 2 == 1) (phys_to_virt (paddr_in_pte e)) (cur, index_at level va), st)
unfolding get_next_ptp follow
get_next_ptp-valid st cur level va e not_null in_range entry valid =
    let there : (cur == 0) ≡ false = ground (arith, not_null) in
    let known : ltb 3 level ≡ false = ground arith in
    let valid' : (e % 2 == 0) ≡ false = ground (arith, valid) in
    rw (there, known, entry, valid') refl

-- A table entry leads to its table, a block entry gives its block.
pub table_entry-at :
    (p : ℕ)
    → p < 2 ^ 32
    → p % 4096 ≡ 0
    → (table_at p % 2 ≡ 1) × (((table_at p / 2) % 2 == 1) ≡ true) × (paddr_in_pte (table_at p) ≡ p)
table_entry-at p small aligned = (omega arith, ground arith, omega arith)

-- The attributes of a block.
abbrev pub IsAttributes : ℕ → Type 0
IsAttributes bits = (bits ≡ normal_block) ⊎ ((bits ≡ device_block) ⊎ (bits ≡ local_block))

pub block_entry :
    (p bits : ℕ)
    → p < 2 ^ 32
    → p % size_2m ≡ 0
    → IsAttributes bits
    → ((p + bits) % 2 ≡ 1) × ((((p + bits) / 2) % 2 == 1) ≡ false) × (paddr_in_pte (p + bits) ≡ p)
block_entry p bits small aligned attributes =
    (omega (arith, attributes), ground (arith, attributes), omega (arith, attributes))

-- The block that an address lies in, and its attributes.
abbrev pub start_of : ℕ → ℕ
start_of a = if ltb a (2 ^ 30) then a / size_2m * size_2m else a / size_1g * size_1g

abbrev pub bits_of : ℕ → ℕ
bits_of a =
    if ltb a 0x3f00_0000 then normal_block else if ltb a (2 ^ 30) then device_block else local_block

pub bits_of-IsAttributes : (a : ℕ) → IsAttributes (bits_of a)
bits_of-IsAttributes a = elim (dec_lt a 0x3f00_0000) [
  | yes low ↦ inl (ground arith)
  | no high ↦ elim (dec_lt a (2 ^ 30)) [
    | yes mid ↦ inr (inl (ground arith))
    | no top ↦ inr (inr (ground arith))
  ]
]
