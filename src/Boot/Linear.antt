-- ===== src/Boot/Linear.antt =====
-- The boot tables map the physical memory linearly: into the kernel's half, and onto itself.
use kingdo_micro_kernel.Prelude.{
  ℕ, ◌+◌, ◌*◌, ◌≤◌, ◌<◌, ◌≡◌, refl, ◌∙◌, inl, inr, update, update_self, update_ne, done, arith,
}
use kingdo_micro_kernel.Boot.{
  size_2m, size_1g, l1_index, l2_index, high, normal_block, device_block, local_block, table_at,
  Tables, Places, init_ttbr1, init_ttbr0, init_kernel_pt,
}
use kingdo_micro_kernel.Boot.Fill.{fill-Filled}

-- The tables of ttbr1: the first GB in blocks of 2 MB, then three blocks of 1 GB.
pub record IsHigh (places : Places) (t t' : Tables) : Type 0 where
  pub l0_entry : t'.l0 510 ≡ table_at places.l1_at
  pub l1_entry : t'.l1 0 ≡ table_at places.l2_at
  pub memory : (k : ℕ) → k < 504 → t'.l2 k ≡ k * size_2m + normal_block
  pub peripherals : (k : ℕ) → 504 ≤ k → k < 512 → t'.l2 k ≡ k * size_2m + device_block
  pub local : (k : ℕ) → 1 ≤ k → k < 4 → t'.l1 k ≡ k * size_1g + local_block
  pub no_more : (k : ℕ) → 4 ≤ k → t'.l1 k ≡ t.l1 k

init_ttbr1-IsHigh :
    (places : Places) (t : Tables)
    → (t' : Tables) × (init_ttbr1 places t ≡ done t') × IsHigh places t t'
unfolding init_ttbr1
init_ttbr1-IsHigh places t =
    let l1 = update t.l1 0 (table_at places.l2_at) in
    let (l2, e, f) =
      fill-Filled 0x3f00_0000 size_2m normal_block (λ v. l2_index (high v)) 504 513 0 t.l2
        (omega arith) (omega arith) (λ k less. omega arith) (λ k a b. omega arith) in
    let (l2', e', f') =
      fill-Filled 0x4000_0000 size_2m device_block (λ v. l2_index (high v)) 8 513 504 l2
        (omega arith) (omega arith) (λ k less. omega arith) (λ k a b. omega arith) in
    let (l1', e'', f'') =
      fill-Filled 0xffff_ffff size_1g local_block (λ v. l1_index (high v)) 3 513 1 l1 (omega arith)
        (omega arith) (λ k less. omega arith) (λ k a b. omega arith) in
    (
      record { l0 = update t.l0 510 (table_at places.l1_at); l1 = l1'; l2 = l2' },
      rw (e, e', e'') refl,
      record {
        l0_entry = update_self t.l0 510 (table_at places.l1_at);
        l1_entry = f''.outside 0 (inl (omega arith)) ∙ update_self t.l1 0 (table_at places.l2_at);
        memory = λ k less. f'.outside k (inl less) ∙ f.inside k (omega arith) less;
        peripherals = λ k a b. f'.inside k a b;
        local = λ k a b. f''.inside k a b;
        no_more = λ k a.
            f''.outside k (inr a)
            ∙ update_ne t.l1 0 (table_at places.l2_at) k (λ e. omega (arith, a, e));
      },
    )

-- The tables of ttbr0: the first GB in blocks of 2 MB.
pub record IsLow (places : Places) (t t' : Tables) : Type 0 where
  pub l0_entry : t'.l0 0 ≡ table_at places.l1_at
  pub l1_entry : t'.l1 0 ≡ table_at places.l2_at
  pub memory : t'.l2 0 ≡ normal_block
  pub peripherals : (k : ℕ) → 1 ≤ k → k < 512 → t'.l2 k ≡ k * size_2m + device_block
  pub no_more : (k : ℕ) → 1 ≤ k → (t'.l0 k ≡ t.l0 k) × (t'.l1 k ≡ t.l1 k)

init_ttbr0-IsLow :
    (places : Places) (t : Tables)
    → (t' : Tables) × (init_ttbr0 places t ≡ done t') × IsLow places t t'
unfolding init_ttbr0
init_ttbr0-IsLow places t =
    let (l2, e, f) =
      fill-Filled size_2m size_2m normal_block l2_index 1 513 0 t.l2 (omega arith) (omega arith)
        (λ k less. omega arith) (λ k a b. omega arith) in
    let (l2', e', f') =
      fill-Filled 0x4000_0000 size_2m device_block l2_index 511 513 1 l2 (omega arith) (omega arith)
        (λ k less. omega arith) (λ k a b. omega arith) in
    (
      record {
        l0 = update t.l0 0 (table_at places.l1_at);
        l1 = update t.l1 0 (table_at places.l2_at);
        l2 = l2';
      },
      rw (e, e') refl,
      record {
        l0_entry = update_self t.l0 0 (table_at places.l1_at);
        l1_entry = update_self t.l1 0 (table_at places.l2_at);
        memory = f'.outside 0 (inl (omega arith)) ∙ f.inside 0 (omega arith) (omega arith);
        peripherals = λ k a b. f'.inside k a b;
        no_more = λ k a. (
          update_ne t.l0 0 (table_at places.l1_at) k (λ e. omega (arith, a, e)),
          update_ne t.l1 0 (table_at places.l2_at) k (λ e. omega (arith, a, e)),
        );
      },
    )

-- init_kernel_pt ends, and writes: in the tables of ttbr1 the entries 510 of the first and 0 of
-- the second that lead on, 504 blocks of normal and 8 of device memory that cover the first GB,
-- and three device blocks for the next three; in those of ttbr0 the entries 0 that lead on, one
-- block of normal memory and 511 of device memory; no other entry of the second tables.
pub init_kernel_pt-IsHigh :
    (places1 places0 : Places) (t1 t0 : Tables)
    → (t1' : Tables) × (t0' : Tables) × (init_kernel_pt places1 places0 t1 t0 ≡ done (t1', t0'))
      × IsHigh places1 t1 t1'
      × IsLow places0 t0 t0'
unfolding init_kernel_pt
init_kernel_pt-IsHigh places1 places0 t1 t0 =
    let (t1', e1, h) = init_ttbr1-IsHigh places1 t1 in
    let (t0', e0, l) = init_ttbr0-IsLow places0 t0 in (t1', t0', rw (e1, e0) refl, h, l)
