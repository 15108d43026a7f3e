-- ===== src/Slab/Fresh.antt =====
-- A new slab: the loop that links its blocks, and the sizes it serves.
use kingdo_micro_kernel.Prelude.{
  ℕ, zero, suc, ◌+◌, ◌-◌, ◌*◌, ◌/◌, ◌^◌, ◌≤◌, ◌<◌, ◌≡◌, ◌≢◌, refl, sym, ap, subst, ◌∙◌, ◌⊎◌, inl,
  inr, true, false, Option, none, some, List, [], ◌∷◌, ltb, ltb→lt, leb, ◌==◌, ◌||◌, update,
  update_self, update_ne, has, length, NoDup, done, ◌>>=◌, arith, Bool-cases,
}
use native.Mathlib.Nat.{mul-div_cancel, pow-le-pow_right}
use kingdo_micro_kernel.Prelude.Arith.{two_pow_pos, two_pow_add}
use kingdo_micro_kernel.Buddy.{page_to_virt}
use kingdo_micro_kernel.Slab.{
  SlabPool, SlabHeader, SlabContainer, slab_size, min_slab_block_order, max_slab_block_order,
  raise_order, size_to_slab_order, link_blocks, make_slab, set_slabs, slab_pages_count,
}
use kingdo_micro_kernel.Slab.Blocks.{IsChain, IsBlock, IsSlab}

-- `order` is the least slab order whose blocks hold `size` bytes.
pub record IsSlabOrder (size order : ℕ) : Type 0 where
  pub in_range : (min_slab_block_order ≤ order) × (order ≤ max_slab_block_order)
  pub holds : size ≤ 2 ^ order
  pub least : (order ≡ min_slab_block_order) ⊎ (2 ^ (order - 1) < size)

raise_order-IsSlabOrder :
    (fuel size order : ℕ)
    → size ≤ 2 ^ 11
    → 11 < order + fuel
    → 6 ≤ order
    → order ≤ 11
    → (order ≡ 6) ⊎ (2 ^ (order - 1) < size)
    → (o : ℕ) × (raise_order fuel size order ≡ done o) × IsSlabOrder size o
unfolding raise_order
raise_order-IsSlabOrder zero size order fits enough low high before = absurd (omega arith)
raise_order-IsSlabOrder (suc fuel) size order fits enough low high before =
    elim (Bool-cases (ltb (2 ^ order) size)) [
      | inl more ↦
          let less : order ≢ 11 =
            λ e. omega (arith, ltb→lt (2 ^ order) size more, ap (λ (k : ℕ). 2 ^ k) e) in
          let e : order + 1 - 1 ≡ order = omega arith in
          let rest =
            raise_order-IsSlabOrder fuel size (order + 1) fits (omega arith) (omega arith)
              (omega arith) (inr (rw e (ground arith))) in
          rw more rest
      | inr found ↦
          rw found
            (order, refl, record { in_range = (low, high); holds = ground arith; least = before })
    ]

-- For a size from 1 to 2048, size_to_slab_order ends, with an order from 6 to 11 whose blocks hold
-- the size, the least one that does.
pub size_to_slab_order-IsSlabOrder :
    (size : ℕ)
    → 0 < size
    → size ≤ 2048
    → (o : ℕ) × (size_to_slab_order size ≡ done (some o)) × IsSlabOrder size o
unfolding size_to_slab_order
size_to_slab_order-IsSlabOrder size pos fits =
    let (o, e, i) =
      raise_order-IsSlabOrder 6 size 6 fits (omega arith) (omega arith) (omega arith) (inl refl) in
    let test : (leb size 0 || ltb 2048 size) ≡ false = ground arith in (o, rw (test, e) refl, i)

-- The addresses from `block` on, `size` apart.
unfoldable pub blocks_from : ℕ → ℕ → ℕ → List ℕ
blocks_from block size zero = []
blocks_from block size (suc k) = block ∷ blocks_from (block + size) size k

length-blocks_from : (block size k : ℕ) → length (blocks_from block size k) ≡ k
unfolding blocks_from
length-blocks_from block size zero = refl
length-blocks_from block size (suc k) = ground (arith, length-blocks_from (block + size) size k)

has-blocks_from :
    (block size k b : ℕ)
    → has b (blocks_from block size k) ≡ true
    → (i : ℕ) × (i < k) × (b ≡ block + i * size)
unfolding blocks_from
has-blocks_from block size zero b h = absurd (ground arith)
has-blocks_from block size (suc k) b h = elim (Bool-cases (block == b)) [
  | inl first ↦ (0, omega arith, ground arith)
  | inr later ↦
      let (i, less, e) = has-blocks_from (block + size) size k b (ground (arith, later)) in
      (suc i, omega arith, omega (arith, e))
]

pub has-blocks_from_of :
    (block size k i : ℕ) → i < k → has (block + i * size) (blocks_from block size k) ≡ true
unfolding blocks_from
has-blocks_from_of block size zero i less = absurd (omega arith)
has-blocks_from_of block size (suc k) zero less = ground arith
has-blocks_from_of block size (suc k) (suc i) less =
    let e : block + suc i * size ≡ block + size + i * size = omega arith in
    let rest = has-blocks_from_of (block + size) size k i (omega arith) in
    ground (arith, rw (← e) at rest)

blocks_from-NoDup : (block size k : ℕ) → 0 < size → NoDup (blocks_from block size k)
unfolding blocks_from
blocks_from-NoDup block size zero pos = tt
blocks_from-NoDup block size (suc k) pos = (
  elim (Bool-cases (has block (blocks_from (block + size) size k))) [
    | inl again ↦ absurd (omega (arith, has-blocks_from (block + size) size k block again))
    | inr once ↦ once
  ],
  blocks_from-NoDup (block + size) size k pos,
)

last_outside :
    (size block s a : ℕ)
    → 0 < size
    → block + size ≤ s + slab_size
    → (a < block) ⊎ (s + slab_size ≤ a)
    → block ≢ a
last_outside size block s a pos fits (inl low) e = omega (arith, low, e)
last_outside size block s a pos fits (inr high) e = omega (arith, high, e)

-- The loop links `suc k` blocks, the last of which ends the slab.
link_blocks-IsChain :
    (k fuel s size block : ℕ) (next : ℕ → Option ℕ)
    → 0 < size
    → k < fuel
    → s ≤ block
    → block + suc k * size ≡ s + slab_size
    → (next' : ℕ → Option ℕ) × (link_blocks fuel s size block next ≡ done next')
      × IsChain next' (some block) (blocks_from block size (suc k))
      × ((a : ℕ) → (a < block) ⊎ (s + slab_size ≤ a) → next' a ≡ next a)
unfolding link_blocks blocks_from
link_blocks-IsChain k zero s size block next pos enough above last = absurd (omega arith)
link_blocks-IsChain zero (suc fuel) s size block next pos enough above last =
    let ends : ltb block (s + slab_size - size) ≡ false = ground arith in
    (
      update next block none,
      rw ends refl,
      (refl, ground arith),
      λ a out. update_ne next block none a (last_outside size block s a pos (omega arith) out),
    )
link_blocks-IsChain (suc k) (suc fuel) s size block next pos enough above last =
    let goes : ltb block (s + slab_size - size) ≡ true = ground arith in
    let (next', e, chain, same) =
      link_blocks-IsChain k fuel s size (block + size) (update next block (some (block + size))) pos
        (omega arith) (omega arith) (omega (arith, last)) in
    let here : next' block ≡ some (block + size) =
      same block (inl (omega arith)) ∙ update_self next block (some (block + size)) in
    (
      next',
      rw (goes, e) refl,
      (refl, rw here chain),
      λ a out.
          same a (elim out [ inl low ↦ inl (omega arith) | inr high ↦ inr high ])
          ∙ update_ne next block (some (block + size)) a
              (last_outside size block s a pos (omega (arith, last)) out),
    )

-- The number of blocks of a slab, the one of the header included.
abbrev pub total_at : ℕ → ℕ
total_at order = slab_size / 2 ^ order

module _ (order : ℕ) (in_range : (6 ≤ order) × (order ≤ 11)) where
  parts : slab_size ≡ 2 ^ (17 - order) * 2 ^ order
  parts =
      let e : 17 - order + order ≡ 17 = omega arith in
      sym (ap (λ (k : ℕ). 2 ^ k) e) ∙ two_pow_add (17 - order) order

  total_lem : total_at order ≡ 2 ^ (17 - order)
  total_lem =
      ap (λ (t : ℕ). t / 2 ^ order) parts ∙ mul-div_cancel (2 ^ (17 - order)) (two_pow_pos order)

  -- The size divides that of the slab.
  pub whole_blocks : total_at order * 2 ^ order ≡ slab_size
  whole_blocks = ap (λ (t : ℕ). t * 2 ^ order) total_lem ∙ sym parts

  pub some_blocks : 64 ≤ total_at order
  some_blocks =
      rw total_lem (pow-le-pow_right {n = 2} (omega arith) {i = 6} {j = 17 - order} (omega arith))

  abbrev pub fresh_blocks : ℕ → List ℕ
  fresh_blocks s = blocks_from (s + 2 ^ order) (2 ^ order) (total_at order - 1)

  linked :
      (s : ℕ) (next : ℕ → Option ℕ)
      → (next' : ℕ → Option ℕ) × (link_blocks (total_at order) s (2 ^ order) (s + 2 ^ order) next
          ≡ done next')
        × IsChain next' (some (s + 2 ^ order)) (fresh_blocks s)
        × ((a : ℕ) → (a < s) ⊎ (s + slab_size ≤ a) → next' a ≡ next a)
  linked s next =
      let count : total_at order - 1 ≡ suc (total_at order - 2) = omega (arith, some_blocks) in
      let two : total_at order ≡ suc (suc (total_at order - 2)) = omega (arith, some_blocks) in
      let (next', e, chain, same) =
        link_blocks-IsChain (total_at order - 2) (total_at order) s (2 ^ order) (s + 2 ^ order) next
          (two_pow_pos order) (omega (arith, some_blocks)) (omega arith)
          (omega (arith, whole_blocks, ap (λ (t : ℕ). t * 2 ^ order) two)) in
      (
        next',
        e,
        subst
            (λ k. IsChain next' (some (s + 2 ^ order)) (blocks_from (s + 2 ^ order) (2 ^ order) k))
            (sym count) chain,
        λ a out. same a (elim out [ inl low ↦ inl (omega arith) | inr high ↦ inr high ]),
      )

  IsBlock-fresh : (s b : ℕ) → has b (fresh_blocks s) ≡ true → IsBlock s (2 ^ order) b
  IsBlock-fresh s b h =
      let (i, less, e) = has-blocks_from (s + 2 ^ order) (2 ^ order) (total_at order - 1) b h in
      record {
        index = suc i;
        place = omega (arith, e);
        not_header = omega arith;
        inside = omega (arith, some_blocks);
      }

  abbrev pub header : ℕ → SlabHeader
  header s = record {
    order = order;
    next_free_block = some (s + 2 ^ order);
    free_block_count = total_at order - 1;
    total_block_count = total_at order;
  }

  IsSlab-fresh :
      (s : ℕ) (st : SlabPool)
      → st.headers s ≡ header s
      → IsChain st.next (some (s + 2 ^ order)) (fresh_blocks s)
      → IsSlab s (fresh_blocks s) st
  IsSlab-fresh s st e chain = record {
    order_in = rw e in_range;
    total = rw e refl;
    chain = rw e chain;
    counted = rw e (sym (length-blocks_from (s + 2 ^ order) (2 ^ order) (total_at order - 1)));
    once = blocks_from-NoDup (s + 2 ^ order) (2 ^ order) (total_at order - 1) (two_pow_pos order);
    blocks = λ b h. rw e (IsBlock-fresh s b h);
  }

  -- the pool with the new slab
  abbrev pub made : ℕ → (ℕ → Option ℕ) → SlabPool → SlabPool
  made page next' st =
      let s = page_to_virt st.region page in
      record {
        headers = update st.headers s (header s);
        next = next';
        containers = update st.containers order (record (st.containers order) { current = some s });
        region = set_slabs slab_pages_count page (some s) st.region;
      }

  -- What make_slab returns, and what it leaves of the blocks of other slabs.
  pub make_slab_lem :
      (page : ℕ) (st : SlabPool)
      → (next' : ℕ → Option ℕ) × (make_slab order page st ≡ done (made page next' st))
        × IsSlab
            (page_to_virt st.region page)
            (fresh_blocks (page_to_virt st.region page))
            (made page next' st)
        × ((a : ℕ)
            → (a < page_to_virt st.region page) ⊎ (page_to_virt st.region page + slab_size ≤ a)
            → next' a ≡ st.next a)
  unfolding make_slab
  make_slab_lem page st =
      let s = page_to_virt st.region page in
      let (next', e, chain, same) = linked s st.next in
      (
        next',
        ap (λ r. r >>= λ n. done (made page n st)) e,
        IsSlab-fresh s (made page next' st) (update_self st.headers s (header s)) chain,
        same,
      )

  -- For an order from 6 to 11, the loop of alloc_slab_from_buddy ends, and the slab it makes on a
  -- page is current in its container: its free blocks are all its blocks but the first, each on
  -- the chain once, and as many as free_block_count says.
  pub make_slab-IsSlab :
      (page : ℕ) (st : SlabPool)
      → (st' : SlabPool) × (make_slab order page st ≡ done st')
        × ((st'.containers order).current ≡ some (page_to_virt st.region page))
        × (st'.region
            ≡ set_slabs slab_pages_count page (some (page_to_virt st.region page)) st.region)
        × IsSlab (page_to_virt st.region page) (fresh_blocks (page_to_virt st.region page)) st'
  make_slab-IsSlab page st =
      let (next', e, slab, _) = make_slab_lem page st in
      (
        made page next' st,
        e,
        ap (λ (c : SlabContainer). c.current) (update_self st.containers order _),
        refl,
        slab,
      )
