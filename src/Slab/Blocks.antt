-- ===== src/Slab/Blocks.antt =====
-- The free blocks of one slab, as a chain of `next` words.
use kingdo_micro_kernel.Prelude.{
  ℕ, ◌+◌, ◌-◌, ◌*◌, ◌/◌, ◌≤◌, ◌<◌, ◌≡◌, refl, sym, ap, subst, inl, inr, true, false, Option, none,
  some, List, [], ◌∷◌, ◌==◌, update, update_self, has, length, NoDup, done, arith, Bool-cases,
}
use native.Mathlib.Nat.{add-mul-div_right, div-eq_of_lt}
use kingdo_micro_kernel.Prelude.Arith.{two_pow_pos}
use kingdo_micro_kernel.Slab.{
  SlabPool, slab_size, slab_order_to_size, min_slab_block_order, max_slab_block_order,
  slab_get_free_block, slab_put_block,
}

-- The `next` words lead from `block` through the list to NULL.
abbrev pub IsChain : (ℕ → Option ℕ) → Option ℕ → List ℕ → Type 0
IsChain next block [] = block ≡ none
IsChain next block (b ∷ l) = (block ≡ some b) × IsChain next (next b) l

-- A block of the slab at `s`, other than the one that the header lies in.
pub record IsBlock (s size b : ℕ) : Type 0 where
  pub index : ℕ
  pub place : b ≡ s + index * size
  pub not_header : 0 < index
  pub inside : index < slab_size / size

-- The slab at `s` has the free blocks `l`.
pub record IsSlab (s : ℕ) (l : List ℕ) (st : SlabPool) : Type 0 where
  pub order_in :
      (min_slab_block_order ≤ (st.headers s).order) × ((st.headers s).order ≤ max_slab_block_order)
  pub total : (st.headers s).total_block_count ≡ slab_size / slab_order_to_size (st.headers s).order
  pub chain : IsChain st.next (st.headers s).next_free_block l
  pub counted : (st.headers s).free_block_count ≡ length l
  pub once : NoDup l
  pub blocks : (b : ℕ) → has b l ≡ true → IsBlock s (slab_order_to_size (st.headers s).order) b

-- A word that the chain does not pass may change.
IsChain-update :
    (next : ℕ → Option ℕ) (l : List ℕ) (block : Option ℕ) (p : ℕ) (v : Option ℕ)
    → has p l ≡ false
    → IsChain next block l
    → IsChain (update next p v) block l
IsChain-update next [] block p v out c = c
IsChain-update next (b ∷ l) block p v out c =
    let e : update next p v b ≡ next b = ground arith in
    (c.0, rw e (IsChain-update next l (next b) p v (ground arith) c.1))

-- The pool after the first free block, `b`, has been taken.
abbrev pub without : ℕ → ℕ → SlabPool → SlabPool
without s b st = record st {
  headers = update st.headers s (record (st.headers s) {
    free_block_count = (st.headers s).free_block_count - 1;
    next_free_block = st.next b;
  });
}

pub without-IsSlab :
    {s b : ℕ} {l : List ℕ} {st : SlabPool} → IsSlab s (b ∷ l) st → IsSlab s l (without s b st)
without-IsSlab {s} {b} {l} {st} i = record {
  order_in = rw (update_self st.headers s) i.order_in;
  total = rw (update_self st.headers s) i.total;
  chain = rw (update_self st.headers s) i.chain.1;
  counted = rw (update_self st.headers s) (omega (arith, i.counted));
  once = i.once.1;
  blocks = λ b h. rw (update_self st.headers s) (i.blocks b (ground arith));
}

-- In a slab that has free blocks, slab_get_free_block reaches no BUG_ON and returns the first of
-- the chain, a block of the slab other than that of the header; the others are left on the chain,
-- which free_block_count counts and on which the block is no more.
pub slab_get_free_block-IsSlab :
    {s b : ℕ} {l : List ℕ} {st : SlabPool}
    → IsSlab s (b ∷ l) st
    → (slab_get_free_block s st ≡ done (b, without s b st))
      × IsSlab s l (without s b st)
      × IsBlock s (slab_order_to_size (st.headers s).order) b
      × (has b l ≡ false)
unfolding slab_get_free_block
slab_get_free_block-IsSlab {s} {b} {l} {st} i =
    let some_free : ((st.headers s).free_block_count == 0) ≡ false = ground (arith, i.counted) in
    (rw (some_free, i.chain.0) refl, without-IsSlab i, i.blocks b (ground arith), i.once.0)

abbrev pub size_at : ℕ → SlabPool → ℕ
size_at s st = slab_order_to_size (st.headers s).order

module _ {s b : ℕ} {l : List ℕ} {st : SlabPool} (i : IsSlab s l st) where
  -- An address in the block `b` is rounded down to it.
  pub round_to_block :
      (offset : ℕ) (block : IsBlock s (size_at s st) b)
      → offset < size_at s st
      → s + (b + offset - s) / size_at s st * size_at s st ≡ b
  round_to_block offset block small =
      let shift : b + offset - s ≡ offset + block.index * size_at s st =
        omega (arith, block.place) in
      let q : (b + offset - s) / size_at s st ≡ block.index = omega (
        arith,
        block.place,
        add-mul-div_right offset block.index {z = size_at s st} (two_pow_pos (st.headers s).order),
        div-eq_of_lt small,
        ap (λ (t : ℕ). t / size_at s st) shift,
      ) in
      rw q (sym block.place)

  -- In a slab whose chain leads through some free blocks, slab_put_block of an address inside a
  -- block of the slab that is not among them puts that block, from its beginning, in front of the
  -- chain, and free_block_count stays the number of blocks on it.
  pub slab_put_block-IsSlab :
      (offset : ℕ)
      → IsBlock s (size_at s st) b
      → offset < size_at s st
      → has b l ≡ false
      → IsSlab s (b ∷ l) (slab_put_block s (b + offset) st)
  unfolding slab_put_block
  slab_put_block-IsSlab offset block small out =
      let e = round_to_block offset block small in
      record {
        order_in = rw (update_self st.headers s) i.order_in;
        total = rw (update_self st.headers s) i.total;
        chain = rw (update_self st.headers s) (
            subst
              (λ k.
                (some k ≡ some b)
                × IsChain (update st.next k (st.headers s).next_free_block)
                    (update st.next k (st.headers s).next_free_block b) l)
              (sym e)
              (
                refl,
                rw (update_self st.next b) (
                    IsChain-update st.next l (st.headers s).next_free_block b
                      (st.headers s).next_free_block out i.chain),
              ));
        counted = rw (update_self st.headers s) (omega (arith, i.counted));
        once = (out, i.once);
        blocks = λ b' h. rw (update_self st.headers s) (elim (Bool-cases (b == b')) [
          | inl new ↦ let same : b ≡ b' = ground arith in rw (← same) block
          | inr old ↦ i.blocks b' (ground (arith, old))
        ]);
      }
