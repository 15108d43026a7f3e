-- ===== src/Slab/Pool/Make.antt =====
-- A new slab in the pool.
use kingdo_micro_kernel.Prelude.{
  ℕ, suc, ◌+◌, ◌-◌, ◌*◌, ◌^◌, ◌≤◌, ◌<◌, ◌≡◌, ◌≢◌, refl, sym, ap, subst, ◌∙◌, inl, inr, Bool, true,
  false, Option, none, some, List, ◌∷◌, has, arith, ℕ_discrete, update, update_self, update_ne,
  Bool-cases, Option-cases,
}
use kingdo_micro_kernel.Prelude.Arith.{two_pow_pos}
use kingdo_micro_kernel.Buddy.{MemRegion, page_to_virt}
use kingdo_micro_kernel.Buddy.Layout.{IsLayout, page_to_virt_lem}
use kingdo_micro_kernel.Buddy.Get.{Granted}
use kingdo_micro_kernel.Buddy.Kept.{SameSlabs}
use kingdo_micro_kernel.Slab.{SlabPool, SlabHeader, slab_size}
use kingdo_micro_kernel.Slab.Blocks.{IsBlock, IsSlab}
use kingdo_micro_kernel.Slab.Fresh.{fresh_blocks, made, total_at, has-blocks_from_of, some_blocks}
use kingdo_micro_kernel.Slab.Alloc.{Marks, set_slabs-Marks}
use kingdo_micro_kernel.Slab.Pool.{
  IsOrder, address, IsHeap, IsLocal, IsChunk, IsSorted, IsPool, cells, cells-none, cells_of,
  order_at, count_at, IsChunk-apart, IsBlock-range,
}
use kingdo_micro_kernel.Slab.Pool.Frame.{IsOutside, Touches, Touches-IsHeap}
use kingdo_micro_kernel.Slab.Pool.Lists.{header-SameBut, Moves, Moves-IsSorted}
use kingdo_micro_kernel.Slab.Pool.Region.{tiled', new_chunk, old_chunk, not_new}

module _ {base n p : ℕ} {head : ℕ → ℕ} {live : ℕ → Bool} {free : ℕ → List ℕ} {used : ℕ → Option ℕ}
    {st : SlabPool} {r : MemRegion} (lay : IsLayout base n)
    (h : IsHeap base n head live free used st) (g : Granted base n st.region head 5 p r)
    (same : SameSlabs st.region r) (o : ℕ) (i : IsOrder o) where
  at_address : page_to_virt r p ≡ address base p
  at_address = page_to_virt_lem lay p g.tiled.at (omega (arith, g.inside))

  abbrev live' : ℕ → Bool
  live' = update live p true

  abbrev free' : ℕ → List ℕ
  free' = update free p (fresh_blocks o i (address base p))

  module _ (next' : ℕ → Option ℕ) where
    abbrev pub with_slab : SlabPool
    with_slab = made o i p next' (record st { region = r })

    marks : Marks 32 p (some (address base p)) r with_slab.region
    marks =
        subst (λ a. Marks 32 p (some a) r with_slab.region) at_address
          (set_slabs-Marks 32 p (some (page_to_virt r p)) r)

    header_else : (t : ℕ) → address base p ≢ t → with_slab.headers t ≡ st.headers t
    header_else t ne = update_ne st.headers (page_to_virt r p) _ t (λ e. ne (sym at_address ∙ e))

    chunk' : (q : ℕ) → live' q ≡ true → IsChunk base n g.head' with_slab.region q
    chunk' q l = elim (ℕ_discrete p q) [
      | yes e ↦ subst (IsChunk base n g.head' with_slab.region) e (new_chunk g same marks)
      | no ne ↦ old_chunk g same marks h.tiled q (h.chunk q (sym (update_ne live p true q ne) ∙ l))
    ]

    -- No block in use lies there.
    unused : (b k : ℕ) → address base p ≤ b → b < address base p + slab_size → used b ≢ some k
    unused b k low high u =
        let (q, l, oe, block) = h.in_slab b k u in
        let range = IsBlock-range (subst IsOrder oe (h.local q l).slab.order_in) block in
        let c = old_chunk g same marks h.tiled q (h.chunk q l) in
        elim (not_new g same marks h.tiled q (h.chunk q l) q (omega arith) (omega arith)) [
          | inl below ↦
              elim (IsChunk-apart (tiled' g same marks) c (new_chunk g same marks)
                (λ e. omega (arith, below, e))) [
                  | inl apart ↦ omega (arith, range, low, apart, two_pow_pos k)
                  | inr apart ↦ omega (arith, below, apart)
                ]
          | inr above ↦ omega (arith, range, high, above)
        ]

    new_order : order_at with_slab (address base p) ≡ o
    new_order =
        subst (λ a. order_at with_slab a ≡ o) at_address
          (ap (λ (h : SlabHeader). h.order) (update_self st.headers (page_to_virt r p) _))

    all_free :
        (b : ℕ)
        → IsBlock (address base p) (2 ^ o) b
        → has b (fresh_blocks o i (address base p)) ≡ true
    all_free b k =
        let less : k.index - 1 < total_at o - 1 = omega (arith, k.inside, k.not_header) in
        let count : k.index ≡ suc (k.index - 1) = omega (arith, k.not_header) in
        let e : address base p + 2 ^ o + (k.index - 1) * 2 ^ o ≡ b =
          omega (arith, k.place, ap (λ (t : ℕ). t * 2 ^ o) count) in
        rw e at
          (has-blocks_from_of (address base p + 2 ^ o) (2 ^ o) (total_at o - 1) (k.index - 1) less)

    new-IsLocal :
        IsSlab (page_to_virt r p) (fresh_blocks o i (page_to_virt r p)) with_slab
        → IsLocal base p (fresh_blocks o i (address base p)) used with_slab
    new-IsLocal slab = record {
      slab = subst (λ a. IsSlab a (fresh_blocks o i a) with_slab) at_address slab;
      state = λ b k.
          let k' : IsBlock (address base p) (2 ^ o) b =
            subst (λ o. IsBlock (address base p) (2 ^ o) b) new_order k in
          let range = IsBlock-range i k' in
          rw (all_free b k') (elim (Option-cases (used b)) [
            | inl e ↦ e
            | inr (k, e) ↦
                absurd (unused b k (omega (arith, range)) (omega (arith, range, two_pow_pos o)) e)
          ]);
    }

    new-Touches :
        IsSlab (page_to_virt r p) (fresh_blocks o i (page_to_virt r p)) with_slab
        → ((a : ℕ) → IsOutside (page_to_virt r p) a → next' a ≡ st.next a)
        → Touches base n g.head' p live live' free free' used used st with_slab
    new-Touches slab outside = record {
      headers_else = header_else;
      next_else = λ a out. outside a (subst (λ s. IsOutside s a) (sym at_address) out);
      used_else = λ b out. refl;
      live_else = λ q ne. update_ne live p true q ne;
      free_else = λ q ne. update_ne free p _ q ne;
      tiled = tiled' g same marks;
      chunk = chunk';
      apart = λ q l ne.
          IsChunk-apart (tiled' g same marks) (chunk' p (update_self live p true)) (chunk' q l) ne;
      local = λ _. rw (update_self free p (fresh_blocks o i (address base p))) (new-IsLocal slab);
      local_used = λ b o' low high u. absurd (unused b o' low high u);
    }

    new_count : count_at with_slab (address base p) ≢ 0
    new_count =
        let e : count_at with_slab (address base p) ≡ total_at o - 1 =
          subst (λ a. count_at with_slab a ≡ total_at o - 1) at_address
            (ap (λ (h : SlabHeader). h.free_block_count)
              (update_self st.headers (page_to_virt r p) _)) in
        omega (arith, e, some_blocks o i)

    -- The page begins no slab yet.
    not_live : live p ≢ true
    not_live l = ground (arith, g.was_free p, (h.chunk p l).own, (h.chunk p l).is_head)

    module _ (v : IsSorted base live st) (no_current : (st.containers o).current ≡ none) where
      new_cells : cells_of with_slab o ≡ address base p ∷ cells_of st o
      new_cells =
          ap cells (update_self st.containers o _)
          ∙ ap (λ a. a ∷ (st.containers o).partial_list) at_address
          ∙ ap (λ l. address base p ∷ l) (sym (cells-none (st.containers o) no_current))

      not_held : (k : ℕ) → IsOrder k → has (address base p) (cells_of st k) ≡ false
      not_held k j = elim (Bool-cases (has (address base p) (cells_of st k))) [
        | inl held ↦
            let l = v.listed k (address base p) j held in
            let e : l.page ≡ p = omega (arith, l.place) in absurd (not_live (rw e at l.is_live))
        | inr e ↦ e
      ]

      new-Moves : Moves base o (address base p) live live' st with_slab
      new-Moves = record {
        but = header-SameBut header_else;
        others = λ k ne. ap cells (update_ne st.containers o _ k ne);
        same_live = λ q ne. update_ne live p true q (λ e. ne (ap (address base) (sym e)));
        home = λ k j ne. not_held k j;
        same_members = λ t ne. rw new_cells (ground arith);
        no_copy = rw new_cells (not_held o i, v.once o i);
        if_held = λ _. record {
          page = p;
          is_live = update_self live p true;
          place = refl;
          order_eq = new_order;
          some_free = new_count;
        };
        if_free = λ q l e some_free. (new_order, rw new_cells (ground arith));
      }

      pub new-IsPool :
          IsSlab (page_to_virt r p) (fresh_blocks o i (page_to_virt r p)) with_slab
          → ((a : ℕ) → IsOutside (page_to_virt r p) a → next' a ≡ st.next a)
          → IsPool base n used with_slab
      new-IsPool slab outside = record {
        head = g.head';
        live = live';
        free = free';
        heap = Touches-IsHeap h (new-Touches slab outside);
        sorted = Moves-IsSorted v new-Moves;
      }
