-- ===== src/Slab/Pool/Release.antt =====
-- `put_slab_to_buddy` in the pool, and the end of `__slab_free` after it.
use kingdo_micro_kernel.Prelude.{
  ℕ, ◌+◌, ◌-◌, ◌^◌, ◌≤◌, ◌<◌, ◌≡◌, ◌≢◌, refl, sym, ap, subst, ◌∙◌, inl, inr, Bool, true, false,
  ◌==◌, if◌then◌else◌, Option, none, some, List, [], ◌∷◌, has, remove, has-remove_ne,
  has-remove_self, remove-NoDup, arith, update, update_self, update_ne, Bool-cases, NoDup, done,
  ◌>>=◌,
}
use kingdo_micro_kernel.Buddy.{MemRegion, buddy_free_pages}
use kingdo_micro_kernel.Buddy.Layout.{IsLayout, virt_to_page_lem}
use kingdo_micro_kernel.Buddy.Tiling.{IsTiled}
use kingdo_micro_kernel.Slab.{
  SlabPool, SlabContainer, slab_size, put_slab_to_buddy, forget_slab, set_current, set_partial,
  get_from_partial_list,
}
use kingdo_micro_kernel.Slab.Blocks.{IsBlock}
use kingdo_micro_kernel.Slab.Fresh.{total_at}
use kingdo_micro_kernel.Slab.Pool.{
  IsOrder, address, IsChunk, IsChunk-apart, IsHeap-containers, IsPool, cells, cells-none,
  cells-some, cells_of, order_at, count_at, in_slab_at,
}
use kingdo_micro_kernel.Slab.Pool.Frame.{Touches, Touches-IsHeap}
use kingdo_micro_kernel.Slab.Pool.Lists.{Moves, Moves-IsSorted, held_at_home, header-SameBut}
use kingdo_micro_kernel.Slab.Pool.Emptied.{all_back, Frees-chunk, unmarked}

-- `forget_slab` where the container has the current slab `c` and the partial list `l`.
abbrev forget_from : ℕ → ℕ → Option ℕ → List ℕ → SlabPool → SlabPool
forget_from o s c l st =
    let (first, st') = get_from_partial_list o l st in
    let other = set_partial o (remove s l) st in
    elim c [ none ↦ other | some t ↦ if t == s then set_current o first st' else other ]

-- The slab leaves its container, and nothing else changes.
record Leaves (o s : ℕ) (st st' : SlabPool) : Type 0 where
  left : cells_of st' o ≡ remove s (cells_of st o)
  others : (k : ℕ) → o ≢ k → cells_of st' k ≡ cells_of st k
  same : st' ≡ record st { containers = st'.containers }

-- The first of the partial list takes the place of a current slab.
forget_from-Leaves :
    (o s : ℕ) (c : Option ℕ) (l : List ℕ) (st : SlabPool)
    → (st.containers o).current ≡ c
    → (st.containers o).partial_list ≡ l
    → Leaves o s st (forget_from o s c l st)
unfolding get_from_partial_list
forget_from-Leaves o s none l st e el = record {
  left =
      ap cells (update_self st.containers o _)
      ∙ cells-none _ e
      ∙ ap (remove s) (sym (cells-none (st.containers o) e ∙ el));
  others = λ k ne. ap cells (update_ne st.containers o _ k ne);
  same = refl;
}
forget_from-Leaves o s (some t) l st e el = elim (Bool-cases (t == s)) [
  | inr other ↦ rw other (record {
    left =
        ap cells (update_self st.containers o _)
        ∙ cells-some _ t e
        ∙ sym (
            ap (remove s) (cells-some (st.containers o) t e ∙ ap (λ l. t ∷ l) el)
            ∙ ground (arith, other));
    others = λ k ne. ap cells (update_ne st.containers o _ k ne);
    same = refl;
  })
  | inl is_current ↦ rw is_current (current_leaves l el is_current)
]
  where
    before : cells_of st o ≡ t ∷ (st.containers o).partial_list
    before = cells-some (st.containers o) t e

    current_leaves :
        (l : List ℕ)
        → (st.containers o).partial_list ≡ l
        → (t == s) ≡ true
        → Leaves o s st
            (set_current o (get_from_partial_list o l st).0 (get_from_partial_list o l st).1)
    current_leaves [] el is_current = record {
      left =
          ap cells (update_self st.containers o _)
          ∙ el
          ∙ sym (ap (remove s) (before ∙ ap (λ l. t ∷ l) el) ∙ ground (arith, is_current));
      others = λ k ne. ap cells (update_ne st.containers o _ k ne);
      same = refl;
    }
    current_leaves (u ∷ rest) el is_current = record {
      left =
          ap cells (update_self (set_partial o rest st).containers o _)
          ∙ ap (λ (c : SlabContainer). u ∷ c.partial_list) (update_self st.containers o _)
          ∙ sym (ap (remove s) (before ∙ ap (λ l. t ∷ l) el) ∙ ground (arith, is_current));
      others = λ k ne. ap cells (
          update_ne (set_partial o rest st).containers o _ k ne ∙ update_ne st.containers o _ k ne);
      same = refl;
    }

forget_slab-Leaves : (o s : ℕ) (st : SlabPool) → Leaves o s st (forget_slab o s st)
unfolding forget_slab
forget_slab-Leaves o s st =
    forget_from-Leaves o s (st.containers o).current (st.containers o).partial_list st refl refl

module _ {base n o : ℕ} {used : ℕ → Option ℕ} {st : SlabPool} (lay : IsLayout base n)
    (i : IsOrder o) (pool : IsPool base n used st) (p : ℕ) (is_live : pool.live p ≡ true)
    (oe : order_at st (address base p) ≡ o)
    (full : count_at st (address base p) ≡ total_at o - 1) where
  chunk : IsChunk base n pool.head st.region p
  chunk = pool.heap.chunk p is_live

  -- None of its blocks is in use.
  unused : (b k : ℕ) → address base p ≤ b → b < address base p + slab_size → used b ≢ some k
  unused b k low high u =
      let (ke, block) = in_slab_at p b k pool.heap is_live low high u in
      let block' : IsBlock (address base p) (2 ^ order_at st (address base p)) b = rw ke block in
      let local = pool.heap.local p is_live in
      let back = all_back local.slab (rw oe full) block' in
      ground (arith, local.state b block', back, u)

  abbrev live' : ℕ → Bool
  live' = update pool.live p false

  module _ (r' : MemRegion) (head' : ℕ → ℕ) (t' : IsTiled base n head' n r')
      (keeps : (q : ℕ)
        → IsChunk base n pool.head st.region q
        → p ≢ q
        → IsChunk base n head' r' q) where
    abbrev given_back : SlabPool
    given_back = record st { region = r' }

    apart_from : (q : ℕ) → live' q ≡ true → p ≢ q
    apart_from q l e = ground (arith, l, update_self pool.live p false, ap live' e)

    was_live : (q : ℕ) → live' q ≡ true → pool.live q ≡ true
    was_live q l = sym (update_ne pool.live p false q (apart_from q l)) ∙ l

    gone : Touches base n head' p pool.live live' pool.free pool.free used used st given_back
    gone = record {
      headers_else = λ t ne. refl;
      next_else = λ a out. refl;
      used_else = λ b out. refl;
      live_else = λ q ne. update_ne pool.live p false q ne;
      free_else = λ q ne. refl;
      tiled = t';
      chunk = λ q l. keeps q (pool.heap.chunk q (was_live q l)) (apart_from q l);
      apart = λ q l ne. IsChunk-apart pool.heap.tiled chunk (pool.heap.chunk q (was_live q l)) ne;
      local = λ l. absurd (apart_from p l refl);
      local_used = λ b k low high u. absurd (unused b k low high u);
    }

    abbrev forgotten : SlabPool
    forgotten = forget_slab o (address base p) given_back

    gone-Moves :
        Moves base o
          (address base p)
          pool.live
          live'
          st
          (record given_back { containers = forgotten.containers })
    gone-Moves =
        let leaves = forget_slab-Leaves o (address base p) given_back in
        let now = leaves.left in
        record {
          but = header-SameBut (λ t ne. refl);
          others = leaves.others;
          same_live = λ q ne. update_ne pool.live p false q (λ e. ne (ap (address base) (sym e)));
          home =
              λ k j ne. held_at_home pool.sorted (address base p) k j (λ same. ne (sym oe ∙ same));
          same_members =
              λ t ne. ap (has t) now ∙ has-remove_ne (address base p) t (cells_of st o) ne;
          no_copy =
              subst NoDup (sym now)
                (remove-NoDup (address base p) (cells_of st o) (pool.sorted.once o i));
          if_held = λ h. absurd (
              ground (
                arith,
                sym h
                    ∙ ap (has (address base p)) now
                    ∙ has-remove_self (address base p) (cells_of st o) (pool.sorted.once o i),
              ));
          if_free = λ q l at more. absurd (apart_from q l (omega (arith, at)));
        }

    forgotten-IsPool : IsPool base n used forgotten
    forgotten-IsPool = rw (forget_slab-Leaves o (address base p) given_back).same (record {
      head = head';
      live = live';
      free = pool.free;
      heap = IsHeap-containers _ (Touches-IsHeap pool.heap gone);
      sorted = Moves-IsSorted pool.sorted gone-Moves;
    })

  gives_back :
      (r' : MemRegion)
      → buddy_free_pages p (unmarked lay pool.heap.tiled chunk) ≡ done r'
      → put_slab_to_buddy (address base p) st ≡ done (record st { region = r' })
  unfolding put_slab_to_buddy
  gives_back r' run =
      let local = pool.heap.local p is_live in
      let found = virt_to_page_lem lay p pool.heap.tiled.at (omega (arith, chunk.inside)) in
      let all : ((st.headers (address base p)).free_block_count
            == (st.headers (address base p)).total_block_count - 1)
          ≡ true =
        ground (arith, full, local.slab.total, oe) in
      rw (put_slab_to_buddy, found, all, run) refl

  -- The slab with all its blocks back is given to the buddy allocator.
  pub release-IsPool :
      (st' : SlabPool) × ((put_slab_to_buddy (address base p) st >>= λ st'.
      done (forget_slab o (address base p) st'))
        ≡ done st')
      × IsPool base n used st'
  release-IsPool =
      let (r', run, head', t', keeps) = Frees-chunk lay pool.heap.tiled chunk in
      (
        forget_slab o (address base p) (record st { region = r' }),
        ap (λ m. m >>= λ st'. done (forget_slab o (address base p) st')) (gives_back r' run),
        forgotten-IsPool r' head' t' keeps,
      )
