-- ===== src/Slab/Pool/Clients.antt =====
-- What clients of the slab allocator see: blocks that do not overlap, through any calls.
use native.Mathlib.Nat.{mul-le-mul_right}
use native.Mathlib.Decide.{dec_lt}
use kingdo_micro_kernel.Prelude.{
  ℕ, ◌+◌, ◌*◌, ◌^◌, ◌≤◌, ◌<◌, ◌≡◌, ◌≢◌, refl, sym, ap, subst, ◌∙◌, ◌⊎◌, inl, inr, false, ◌||◌, ltb,
  Option, none, some, List, arith, ℕ_discrete, update, Run, done, stop,
}
use kingdo_micro_kernel.Buddy.Layout.{IsLayout}
use kingdo_micro_kernel.Buddy.Tiling.{IsTiled}
use kingdo_micro_kernel.Slab.{SlabPool, size_to_slab_order, slab_alloc, slab_free, init_slab}
use kingdo_micro_kernel.Slab.Blocks.{IsBlock}
use kingdo_micro_kernel.Slab.Fresh.{IsSlabOrder, size_to_slab_order-IsSlabOrder}
use kingdo_micro_kernel.Slab.Pool.{
  IsOrder, address, IsPool, order_at, cells_of, IsBlock-range, IsChunk-apart,
}
use kingdo_micro_kernel.Slab.Pool.Serve.{Serves, served, no_memory, slab_alloc_order-Serves}
use kingdo_micro_kernel.Slab.Pool.Free.{slab_free-IsPool}

-- Blocks of one slab.
IsBlock-apart :
    {s size b c : ℕ} → IsBlock s size b → IsBlock s size c → b ≢ c → (b + size ≤ c) ⊎ (c + size ≤ b)
IsBlock-apart {size} k l ne = elim (dec_lt k.index l.index) [
  | yes less ↦
      let next : k.index + 1 ≤ l.index = omega arith in
      inl (omega (arith, k.place, l.place, mul-le-mul_right size next))
  | no more ↦ elim (ℕ_discrete k.index l.index) [
    | yes same ↦ absurd (ne (omega (arith, k.place, l.place, ap (λ (t : ℕ). t * size) same)))
    | no other ↦
        let next : l.index + 1 ≤ k.index = omega arith in
        inr (omega (arith, k.place, l.place, mul-le-mul_right size next))
  ]
]

-- In a pool that is well formed, two blocks in use do not overlap.
pub used-apart :
    {base n b c o k : ℕ} {used : ℕ → Option ℕ} {st : SlabPool}
    → IsPool base n used st
    → used b ≡ some o
    → used c ≡ some k
    → b ≢ c
    → (b + 2 ^ o ≤ c) ⊎ (c + 2 ^ k ≤ b)
used-apart {base} {b} {c} {o} {k} {st} pool eb ec ne =
    let (p, l, oe, kb) = pool.heap.in_slab b o eb in
    let (q, m, ke, kc) = pool.heap.in_slab c k ec in
    elim (ℕ_discrete p q) [
      | yes same ↦
          let orders : o ≡ k = sym oe ∙ ap (λ (p : ℕ). order_at st (address base p)) same ∙ ke in
          rw orders (
            IsBlock-apart (subst (λ o. IsBlock (address base p) (2 ^ o) b) orders kb)
              (subst (λ q. IsBlock (address base q) (2 ^ k) c) (sym same) kc) ne)
      | no other ↦
          let rb = IsBlock-range (subst IsOrder oe (pool.heap.local p l).slab.order_in) kb in
          let rc = IsBlock-range (subst IsOrder ke (pool.heap.local q m).slab.order_in) kc in
          elim (IsChunk-apart pool.heap.tiled (pool.heap.chunk p l) (pool.heap.chunk q m) other) [
            | inl above ↦ inl (omega (arith, rb, rc, above))
            | inr below ↦ inr (omega (arith, rb, rc, below))
          ]
    ]

-- On a tiled region, init_slab leaves a well-formed pool in which no block is in use.
pub init_slab-IsPool :
    {base n : ℕ} {head : ℕ → ℕ} (st : SlabPool)
    → IsTiled base n head n st.region
    → IsPool base n (λ _. none) (init_slab st)
unfolding init_slab
init_slab-IsPool {head} st t = record {
  head = head;
  live = λ _. false;
  free = λ _. List.[];
  heap = record {
    tiled = t;
    chunk = λ p l. absurd (ground (arith, l));
    local = λ p l. absurd (ground (arith, l));
    in_slab = λ b o e. absurd (ground (arith, e));
  };
  sorted = record {
    listed = λ o s i h. absurd (ground (arith, rw (empty o i) at h));
    placed = λ p l some_free. absurd (ground (arith, l));
    once = λ o i. rw (empty o i) tt;
  };
}
  where
    empty : (o : ℕ) → IsOrder o → cells_of (init_slab st) o ≡ List.[]
    empty o i = let fine : (ltb o 6 || ltb 11 o) ≡ false = ground (arith, i) in rw fine refl

-- In a well-formed pool of a region that ends on a 4 MB boundary, and for a size from 1 to 2048,
-- slab_alloc returns, for the least order whose blocks hold the size: either the address of a
-- block that was not in use, in a pool that is well formed with that block, of that order, in use
-- and the others as before; or NULL with nothing changed, and then the container of the order has
-- no current slab and every free list from order 5 on is empty.
pub slab_alloc-Serves :
    {base n : ℕ} {used : ℕ → Option ℕ} {st : SlabPool} (size : ℕ)
    → IsLayout base n
    → IsPool base n used st
    → 0 < size
    → size ≤ 2048
    → (o : ℕ) × IsSlabOrder size o
      × (size_to_slab_order size ≡ done (some o))
      × Serves base n used o st (slab_alloc size st)
unfolding slab_alloc
slab_alloc-Serves {st} size lay pool pos fits =
    let (o, e, i) = size_to_slab_order-IsSlabOrder size pos fits in
    (o, i, e, rw e (slab_alloc_order-Serves lay i.in_range st pool))

-- A call of a client: it asks for 1 to 2048 bytes, or gives a block back that it has. `used` are the
-- blocks that clients have, with the orders of their sizes.
pub data IsCall : (ℕ → Option ℕ) → SlabPool → (ℕ → Option ℕ) → SlabPool → Type 0 where
  gets :
      {used : ℕ → Option ℕ} {st st' : SlabPool} (size b o : ℕ)
      → 0 < size
      → size ≤ 2048
      → size_to_slab_order size ≡ done (some o)
      → slab_alloc size st ≡ done (some b, st')
      → IsCall used st (update used b (some o)) st'
  gets_none :
      {used : ℕ → Option ℕ} {st st' : SlabPool} (size : ℕ)
      → 0 < size
      → size ≤ 2048
      → slab_alloc size st ≡ done (none, st')
      → IsCall used st used st'
  gives_back :
      {used : ℕ → Option ℕ} {st st' : SlabPool} (b o : ℕ)
      → used b ≡ some o
      → slab_free (some b) st ≡ done (0, st')
      → IsCall used st (update used b none) st'

-- The pools that calls lead to, from one in which no block is in use.
pub data IsReached (start : SlabPool) : (ℕ → Option ℕ) → SlabPool → Type 0 where
  first : IsReached start (λ _. none) start
  next :
      {used used' : ℕ → Option ℕ} {st st' : SlabPool}
      → IsReached start used st
      → IsCall used st used' st'
      → IsReached start used' st'

module _ {base n : ℕ} {used : ℕ → Option ℕ} {st : SlabPool} where
  served-IsPool :
      {o b : ℕ} {st' : SlabPool}
      → Serves base n used o st (done (some b, st'))
      → IsPool base n (update used b (some o)) st'
  served-IsPool (served b unused pool) = pool

  not_served : {o : ℕ} {st' : SlabPool} → Serves base n used o st (done (none, st')) → st ≡ st'
  not_served (no_memory e empty) = refl

abbrev order_or : Run (Option ℕ) → ℕ
order_or (done (some o)) = o
order_or (done none) = 0
order_or (stop e) = 0

same_run :
    {base n o : ℕ} {used : ℕ → Option ℕ} {st : SlabPool} {m k : Run (Option ℕ × SlabPool)}
    → m ≡ k
    → Serves base n used o st m
    → Serves base n used o st k
same_run {base} {n} {o} {used} {st} e s = subst (Serves base n used o st) e s

module _ {base n : ℕ} (lay : IsLayout base n) where
  -- A call leaves the pool well formed.
  pub call-IsPool :
      {used used' : ℕ → Option ℕ} {st st' : SlabPool}
      → IsPool base n used st
      → IsCall used st used' st'
      → IsPool base n used' st'
  call-IsPool {used} {st} {st'} pool (gets size b o pos fits e run) =
      let (k, i, ke, s) = slab_alloc-Serves size lay pool pos fits in
      let same : k ≡ o = ap order_or (sym ke ∙ e) in
      served-IsPool {st = st}
        (subst (λ o. Serves base n used o st (done (some b, st'))) same (same_run run s))
  call-IsPool {used} pool (gets_none size pos fits run) =
      let (k, i, ke, s) = slab_alloc-Serves size lay pool pos fits in
      subst (IsPool base n used) (not_served (same_run run s)) pool
  call-IsPool {used} pool (gives_back b o u run) =
      let (st'', e, pool') = slab_free-IsPool lay pool u in
      subst (IsPool base n (update used b none)) (ap (pool_or st'') (sym e ∙ run)) pool'
    where
      pool_or : SlabPool → Run (ℕ × SlabPool) → SlabPool
      pool_or d (done (err, st)) = st
      pool_or d (stop e) = d

  -- So it is with the pools that calls lead to.
  pub reached-IsPool :
      {start : SlabPool} {used : ℕ → Option ℕ} {st : SlabPool}
      → IsPool base n (λ _. none) start
      → IsReached start used st
      → IsPool base n used st
  reached-IsPool pool first = pool
  reached-IsPool pool (next r c) = call-IsPool (reached-IsPool pool r) c

  module _ {head : ℕ → ℕ} (st0 : SlabPool) (t : IsTiled base n head n st0.region) where
    -- From a tiled region that ends on a 4 MB boundary, after init_slab and any sequence of calls
    -- of slab_alloc with sizes from 1 to 2048, with or without success, and of slab_free of blocks
    -- in use, two blocks in use do not overlap.
    pub reached-apart :
        {used : ℕ → Option ℕ} {st : SlabPool} {b c o k : ℕ}
        → IsReached (init_slab st0) used st
        → used b ≡ some o
        → used c ≡ some k
        → b ≢ c
        → (b + 2 ^ o ≤ c) ⊎ (c + 2 ^ k ≤ b)
    reached-apart r = used-apart (reached-IsPool (init_slab-IsPool st0 t) r)
