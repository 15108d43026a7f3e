-- ===== src/Boot.antt =====
-- arch/aarch64/boot/raspi3/init/mmu.c: the page tables that the processor starts with.
--
-- The addresses of the six tables are the linker's: they are the record Places. No two operands of
-- `|` in an entry have a bit in common where the tables are aligned, so `|` is a sum.
pub mod Fill
pub mod Linear
pub mod Seen
pub mod Walk
mod Tests
use kingdo_micro_kernel.Prelude.{
  ℕ, zero, suc, ◌+◌, ◌-◌, ◌*◌, ◌/◌, ◌%◌, ◌^◌, Bool, true, false, ltb, ◌==◌, if◌then◌else◌, update,
  Run, done, stop, out_of_fuel, ◌>>=◌,
}

abbrev pub kernel_vaddr : ℕ
kernel_vaddr = 0xffff_ff00_0000_0000

abbrev pub physmem_start : ℕ
physmem_start = 0

abbrev pub peripheral_base : ℕ
peripheral_base = 0x3f00_0000

abbrev pub shared_peripheral_end : ℕ
shared_peripheral_end = 0x4000_0000

abbrev pub physmem_end : ℕ
physmem_end = 0xffff_ffff

abbrev pub is_valid : ℕ
is_valid = 1

abbrev pub is_table : ℕ
is_table = 2

abbrev pub uxn : ℕ
uxn = 2 ^ 54

abbrev pub accessed : ℕ
accessed = 2 ^ 10

abbrev pub ng : ℕ
ng = 2 ^ 11

abbrev pub inner_sharable : ℕ
inner_sharable = 3 * 2 ^ 8

abbrev pub normal_memory : ℕ
normal_memory = 4 * 2 ^ 2

abbrev pub device_memory : ℕ
device_memory = 0 * 2 ^ 2

abbrev pub size_2m : ℕ
size_2m = 2 * 1024 * 1024

abbrev pub size_1g : ℕ
size_1g = 1024 * 1024 * 1024

abbrev pub l0_index : ℕ → ℕ
l0_index x = x / 2 ^ 39 % 512

abbrev pub l1_index : ℕ → ℕ
l1_index x = x / 2 ^ 30 % 512

abbrev pub l2_index : ℕ → ℕ
l2_index x = x / 2 ^ 21 % 512

abbrev pub high : ℕ → ℕ
high vaddr = vaddr + kernel_vaddr

-- The attributes of the blocks.
abbrev pub normal_block : ℕ
normal_block = uxn + accessed + ng + inner_sharable + normal_memory + is_valid

abbrev pub device_block : ℕ
device_block = uxn + accessed + ng + inner_sharable + device_memory + is_valid

abbrev pub local_block : ℕ
local_block = uxn + accessed + ng + device_memory + is_valid

abbrev pub table_at : ℕ → ℕ
table_at address = address + is_table + is_valid + ng

-- `boot_ttbr0_l0` to `boot_ttbr0_l2`, or those of ttbr1.
pub record Tables : Type 0 where
  pub l0 : ℕ → ℕ
  pub l1 : ℕ → ℕ
  pub l2 : ℕ → ℕ

-- The addresses of the tables below the first.
pub record Places : Type 0 where
  pub l1_at : ℕ
  pub l2_at : ℕ

-- `for (; vaddr < limit; vaddr += step)`: `table[index(vaddr)] = vaddr | bits`
unfoldable pub fill : ℕ → ℕ → ℕ → (ℕ → ℕ) → ℕ → ℕ → (ℕ → ℕ) → Run (ℕ × (ℕ → ℕ))
fill zero limit step index bits vaddr table = stop out_of_fuel
fill (suc fuel) limit step index bits vaddr table =
    let rest =
      fill fuel limit step index bits (vaddr + step) (update table (index vaddr) (vaddr + bits)) in
    if ltb vaddr limit then rest else done (vaddr, table)

-- The part of `init_kernel_pt` on the tables of ttbr1.
unfoldable pub init_ttbr1 : Places → Tables → Run Tables
init_ttbr1 places t =
    let l0 = update t.l0 (l0_index (high physmem_start)) (table_at places.l1_at) in
    let l1 = update t.l1 (l1_index (high physmem_start)) (table_at places.l2_at) in
    fill 513 peripheral_base size_2m (λ v. l2_index (high v)) normal_block physmem_start t.l2
    >>= λ (v, l2).
        fill 513 shared_peripheral_end size_2m (λ v. l2_index (high v)) device_block v l2
        >>= λ (v', l2').
            fill 513 physmem_end size_1g (λ v. l1_index (high v)) local_block v' l1 >>= λ (_, l1').
            done (record { l0 = l0; l1 = l1'; l2 = l2' })

-- The part on the tables of ttbr0.
unfoldable pub init_ttbr0 : Places → Tables → Run Tables
init_ttbr0 places t =
    let l0 = update t.l0 (l0_index physmem_start) (table_at places.l1_at) in
    let l1 = update t.l1 (l1_index physmem_start) (table_at places.l2_at) in
    fill 513 size_2m size_2m l2_index normal_block physmem_start t.l2 >>= λ (v, l2).
    fill 513 shared_peripheral_end size_2m l2_index device_block v l2 >>= λ (_, l2').
    done (record { l0 = l0; l1 = l1; l2 = l2' })

-- The tables of ttbr1, and those of ttbr0.
unfoldable pub init_kernel_pt : Places → Places → Tables → Tables → Run (Tables × Tables)
unfolding init_ttbr1 init_ttbr0
init_kernel_pt places1 places0 t1 t0 =
    init_ttbr1 places1 t1 >>= λ t1'. init_ttbr0 places0 t0 >>= λ t0'. done (t1', t0')
