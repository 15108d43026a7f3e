-- ===== src/Slab/Pool/Serve.antt =====
-- `__slab_alloc` in the pool, from the current slab.
use kingdo_micro_kernel.Prelude.{
  ℕ, ◌≡◌, ◌≢◌, refl, sym, ap, subst, ◌∙◌, inl, inr, true, false, ◌==◌, ◌||◌, ltb, if◌then◌else◌,
  Option, none, some, List, [], ◌∷◌, has, length, arith, update, update_self, update_ne, Bool-cases,
  Option-cases, Run, done, ◌>>=◌, NoDup,
}
use kingdo_micro_kernel.Buddy.Layout.{IsLayout}
use kingdo_micro_kernel.Buddy.Get.{AllEmpty}
use kingdo_micro_kernel.Slab.{
  SlabPool, SlabHeader, slab_page_order, set_current, alloc_from_current, slab_alloc_order,
}
use kingdo_micro_kernel.Slab.Blocks.{IsSlab, without, slab_get_free_block-IsSlab}
use kingdo_micro_kernel.Slab.Pool.{
  IsOrder, address, IsHeap, IsPool, IsHeap-containers, cells, cells-some, cells_of, usage, order_at,
  count_at,
}
use kingdo_micro_kernel.Slab.Pool.Lists.{Moves, Moves-IsSorted, held_at_home, header-SameBut}
use kingdo_micro_kernel.Slab.Pool.Take.{take-IsHeap}
use kingdo_micro_kernel.Slab.Pool.Alloc.{
  NewSlab, exhausted, fresh, alloc_slab_from_buddy-NewSlab, set_new_current_slab-IsPool,
}

length-zero : (l : List ℕ) → length l ≡ 0 → l ≡ []
length-zero [] e = refl
length-zero (b ∷ l) e = absurd (omega (arith, e))

-- What `__slab_alloc` does: there is no memory, and nothing changes, or a block that was not in use is
-- in use from then on.
pub data Serves (base n : ℕ) (used : ℕ → Option ℕ) (o : ℕ) (st : SlabPool)
    : Run (Option ℕ × SlabPool) → Type 0 where
  no_memory :
      (st.containers o).current ≡ none
      → AllEmpty slab_page_order st.region
      → Serves base n used o st (done (none, st))
  served :
      {st' : SlabPool} (b : ℕ)
      → used b ≡ none
      → IsPool base n (update used b (some o)) st'
      → Serves base n used o st (done (some b, st'))

-- The first free block of the current slab is taken.
module _ {base n o : ℕ} {used : ℕ → Option ℕ} {st : SlabPool} (i : IsOrder o)
    (pool : IsPool base n used st) (p b : ℕ) (rest : List ℕ) (is_live : pool.live p ≡ true)
    (current : (st.containers o).current ≡ some (address base p))
    (oe : order_at st (address base p) ≡ o) (e : pool.free p ≡ b ∷ rest) where
  abbrev after : SlabPool
  after = without (address base p) b st

  first : IsSlab (address base p) (b ∷ rest) st
  first = rw e at (pool.heap.local p is_live).slab

  was_unused : used b ≡ none
  was_unused =
      (pool.heap.local p is_live).state b (first.blocks b (ground arith))
      ∙ ap (λ l. usage (has b l) (order_at st (address base p))) e
      ∙ ground arith

  after-IsHeap :
      IsHeap base n pool.head pool.live (update pool.free p rest) (update used b (some o)) after
  after-IsHeap =
      subst
        (λ k.
          IsHeap base n pool.head pool.live (update pool.free p rest) (update used b (some k))
            after)
        oe (take-IsHeap pool.heap is_live e)

  count_after : count_at after (address base p) ≡ length rest
  count_after =
      ap (λ (h : SlabHeader). h.free_block_count) (update_self st.headers (address base p) _)
      ∙ omega (arith, first.counted)

  same_order : order_at after (address base p) ≡ o
  same_order = ap (λ (h : SlabHeader). h.order) (update_self st.headers (address base p) _) ∙ oe

  header_else : (t : ℕ) → address base p ≢ t → after.headers t ≡ st.headers t
  header_else t ne = update_ne st.headers (address base p) _ t ne

  home : (k : ℕ) → IsOrder k → o ≢ k → has (address base p) (cells_of st k) ≡ false
  home k j ne = held_at_home pool.sorted (address base p) k j (λ same. ne (sym oe ∙ same))

  before : cells_of st o ≡ address base p ∷ (st.containers o).partial_list
  before = cells-some (st.containers o) (address base p) current

  once : NoDup (address base p ∷ (st.containers o).partial_list)
  once = rw before at (pool.sorted.once o i)

  -- It has more.
  kept-Moves :
      count_at after (address base p) ≢ 0
      → Moves base o (address base p) pool.live pool.live st after
  kept-Moves some_free = record {
    but = header-SameBut header_else;
    others = λ k ne. refl;
    same_live = λ q ne. refl;
    home = home;
    same_members = λ t ne. refl;
    no_copy = pool.sorted.once o i;
    if_held = λ _. record {
      page = p;
      is_live = is_live;
      place = refl;
      order_eq = same_order;
      some_free = some_free;
    };
    if_free = λ q l at more. (same_order, rw before (ground arith));
  }

  -- It was the last.
  dropped-Moves :
      count_at after (address base p) ≡ 0
      → Moves base o (address base p) pool.live pool.live st (set_current o none after)
  dropped-Moves full =
      let now : cells_of (set_current o none after) o ≡ (st.containers o).partial_list =
        ap cells (update_self st.containers o _) in
      record {
        but = header-SameBut header_else;
        others = λ k ne. ap cells (update_ne st.containers o _ k ne);
        same_live = λ q ne. refl;
        home = home;
        same_members = λ t ne. rw (now, before) (ground arith);
        no_copy = rw now once.1;
        if_held = λ h. absurd (ground (arith, once.0, now));
        if_free = λ q l at more. absurd (more full);
      }

  kept-IsPool : count_at after (address base p) ≢ 0 → IsPool base n (update used b (some o)) after
  kept-IsPool some_free = record {
    head = pool.head;
    live = pool.live;
    free = update pool.free p rest;
    heap = after-IsHeap;
    sorted = Moves-IsSorted pool.sorted (kept-Moves some_free);
  }

  dropped-IsPool :
      count_at after (address base p) ≡ 0
      → IsPool base n (update used b (some o)) (set_current o none after)
  dropped-IsPool full = record {
    head = pool.head;
    live = pool.live;
    free = update pool.free p rest;
    heap = IsHeap-containers _ after-IsHeap;
    sorted = Moves-IsSorted pool.sorted (dropped-Moves full);
  }

  no_next : rest ≡ [] → (after.headers (address base p)).next_free_block ≡ none
  no_next last =
      let now : IsSlab (address base p) rest after =
        rw (update_self pool.free p rest) at (after-IsHeap.local p is_live).slab in
      rw last at now.chain

  alloc_from_current-Serves :
      {st0 : SlabPool}
      → IsLayout base n
      → Serves base n used o st0 (alloc_from_current o (some (address base p)) st)
  unfolding alloc_from_current
  alloc_from_current-Serves lay = elim (Bool-cases (count_at after (address base p) == 0)) [
    | inl full ↦
        let none_left : count_at after (address base p) ≡ 0 = ground (arith, full) in
        let (st', e', pool') = set_new_current_slab-IsPool after lay i (dropped-IsPool none_left) in
        rw
          (
            (slab_get_free_block-IsSlab first).0,
            full,
            no_next (length-zero rest (sym count_after ∙ none_left)),
            e',
          )
          (served b was_unused pool')
    | inr more ↦
        rw ((slab_get_free_block-IsSlab first).0, more)
          (served b was_unused (kept-IsPool (ground (arith, more))))
  ]

module _ {base n o : ℕ} {used : ℕ → Option ℕ} (lay : IsLayout base n) (i : IsOrder o) where
  module _ (st0 st : SlabPool) (pool : IsPool base n used st) where
    current-Serves :
        (s : ℕ)
        → (st.containers o).current ≡ some s
        → Serves base n used o st0 (alloc_from_current o (some s) st)
    current-Serves s current =
        let held : has s (cells_of st o) ≡ true =
          rw (cells-some (st.containers o) s current) (ground arith) in
        let l = pool.sorted.listed o s i held in
        rw l.place (
          chain_of l.page (pool.free l.page) l.is_live (current ∙ ap some l.place)
            (rw l.place at l.order_eq) (rw l.place at l.some_free) refl)
      where
        chain_of :
            (p : ℕ) (l : List ℕ)
            → pool.live p ≡ true
            → (st.containers o).current ≡ some (address base p)
            → order_at st (address base p) ≡ o
            → count_at st (address base p) ≢ 0
            → pool.free p ≡ l
            → Serves base n used o st0 (alloc_from_current o (some (address base p)) st)
        chain_of p [] is_live current oe some_free e =
            absurd (some_free ((pool.heap.local p is_live).slab.counted ∙ ap length e))
        chain_of p (b ∷ rest) is_live current oe some_free e =
            alloc_from_current-Serves i pool p b rest is_live current oe e lay

  module _ (st : SlabPool) (pool : IsPool base n used st) where
    fresh-Serves :
        {m : Run (ℕ × SlabPool)}
        → (st.containers o).current ≡ none
        → NewSlab base n used o st m
        → Serves base n used o st (
            m >>= λ (err, st').
            (if err == 0
              then alloc_from_current o (st'.containers o).current st'
              else done (none, st')))
    fresh-Serves none_yet (exhausted empty) = no_memory none_yet empty
    fresh-Serves none_yet (fresh {st'} s pool' current) =
        rw current (current-Serves st st' pool' s current)

    -- A block of the current slab, of a new one, or none.
    pub slab_alloc_order-Serves : Serves base n used o st (slab_alloc_order o st)
    unfolding slab_alloc_order
    slab_alloc_order-Serves =
        let fine : (ltb o 6 || ltb 11 o) ≡ false = ground (arith, i) in
        elim (Option-cases (st.containers o).current) [
          | inl e ↦ rw (fine, e) (fresh-Serves e (alloc_slab_from_buddy-NewSlab lay i pool e))
          | inr (s, e) ↦ rw (fine, e) (current-Serves st st pool s e)
        ]
