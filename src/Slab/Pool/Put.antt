-- ===== src/Slab/Pool/Put.antt =====
-- `slab_put_block` in the pool, and the slab that had no free block before.
use kingdo_micro_kernel.Prelude.{
  ℕ, suc, ◌^◌, ◌≡◌, ◌≢◌, refl, sym, ap, subst, ◌∙◌, inl, inr, true, false, ◌==◌, if◌then◌else◌,
  Option, none, some, List, [], ◌∷◌, ◌++◌, has, arith, ℕ_discrete, update, update_self, update_ne,
  Bool-cases, Run, done, stop, hang, NoDup,
}
use kingdo_micro_kernel.Slab.{
  SlabPool, SlabHeader, SlabContainer, set_partial, slab_put_block, append_partial,
}
use kingdo_micro_kernel.Slab.Blocks.{IsBlock}
use kingdo_micro_kernel.Slab.Pool.{
  IsOrder, address, IsHeap, IsListed, IsPool, IsHeap-containers, cells, cells-some, cells_of, usage,
  order_at, count_at,
}
use kingdo_micro_kernel.Slab.Pool.Lists.{Moves, Moves-IsSorted, held_at_home, header-SameBut}
use kingdo_micro_kernel.Slab.Pool.Take.{put-IsHeap}

-- At the end of a list that does not have it.
has-append_last : (s t : ℕ) (l : List ℕ) → s ≢ t → has t (l ++ s ∷ []) ≡ has t l
has-append_last s t [] ne = ground arith
has-append_last s t (x ∷ l) ne = ground (arith, has-append_last s t l ne)

has-append_self : (s : ℕ) (l : List ℕ) → has s (l ++ s ∷ []) ≡ true
has-append_self s [] = ground arith
has-append_self s (x ∷ l) = ground (arith, has-append_self s l)

append_last-NoDup : (s : ℕ) (l : List ℕ) → NoDup l → has s l ≡ false → NoDup (l ++ s ∷ [])
append_last-NoDup s [] d out = (refl, tt)
append_last-NoDup s (x ∷ l) d out = (
  has-append_last s x l (ground (arith, out)) ∙ d.0,
  append_last-NoDup s l d.1 (ground (arith, out)),
)

cells-append :
    (s : ℕ) (c : Option ℕ) (l : List ℕ)
    → cells (record { current = c; partial_list = l ++ s ∷ [] })
      ≡ cells (record { current = c; partial_list = l }) ++ s ∷ []
cells-append s none l = refl
cells-append s (some c) l = refl

-- the check of `append_partial`
unless_current :
    (s : ℕ) (c : Option ℕ) (st : SlabPool)
    → c ≢ some s
    → (elim c as (λ _. Run SlabPool) [
      | none ↦ done st
      | some t ↦ if t == s then stop hang else done st
    ])
      ≡ done st
unless_current s none st ne = refl
unless_current s (some t) st ne =
    let other : (t == s) ≡ false = elim (ℕ_discrete t s) [
      | yes e ↦ absurd (ne (ap some e))
      | no ne' ↦ ground arith
    ] in
    rw other refl

module _ {base n o b : ℕ} {used : ℕ → Option ℕ} {st : SlabPool} (i : IsOrder o)
    (pool : IsPool base n used st) (p : ℕ) (is_live : pool.live p ≡ true)
    (oe : order_at st (address base p) ≡ o) (block : IsBlock (address base p) (2 ^ o) b)
    (in_use : used b ≡ some o) where
  abbrev pub after_put : SlabPool
  after_put = slab_put_block (address base p) b st

  not_free : has b (pool.free p) ≡ false
  not_free =
      let e : used b ≡ usage (has b (pool.free p)) (order_at st (address base p)) =
        (pool.heap.local p is_live).state b (rw oe block) in
      elim (Bool-cases (has b (pool.free p))) [
        | inl inside ↦ absurd (ground (arith, e, inside, in_use))
        | inr out ↦ out
      ]

  pub put-IsHeap_after :
      IsHeap base n pool.head pool.live
        (update pool.free p (b ∷ pool.free p))
        (update used b none)
        after_put
  put-IsHeap_after = put-IsHeap pool.heap is_live (rw oe block) not_free

  pub count_put : count_at after_put (address base p) ≡ suc (count_at st (address base p))
  unfolding slab_put_block
  count_put =
      ap (λ (h : SlabHeader). h.free_block_count) (update_self st.headers (address base p) _)
      ∙ omega arith

  pub order_put : order_at after_put (address base p) ≡ o
  unfolding slab_put_block
  order_put = ap (λ (h : SlabHeader). h.order) (update_self st.headers (address base p) _) ∙ oe

  header_else : (t : ℕ) → address base p ≢ t → after_put.headers t ≡ st.headers t
  unfolding slab_put_block
  header_else t ne = update_ne st.headers (address base p) _ t ne

  pub same_containers : after_put.containers ≡ st.containers
  unfolding slab_put_block
  same_containers = refl

  pub home_put : (k : ℕ) → IsOrder k → o ≢ k → has (address base p) (cells_of st k) ≡ false
  home_put k j ne = held_at_home pool.sorted (address base p) k j (λ same. ne (sym oe ∙ same))

  put-IsListed : IsListed base pool.live after_put o (address base p)
  put-IsListed = record {
    page = p;
    is_live = is_live;
    place = refl;
    order_eq = order_put;
    some_free = omega (arith, count_put);
  }

  -- The slab had free blocks, and stays where it is.
  pub put-IsPool :
      count_at st (address base p) ≢ 0
      → (pool' : IsPool base n (update used b none) after_put) × (pool'.live p ≡ true)
  put-IsPool some_free = (
    record {
      head = pool.head;
      live = pool.live;
      free = update pool.free p (b ∷ pool.free p);
      heap = put-IsHeap_after;
      sorted = Moves-IsSorted {o = o} {s = address base p} pool.sorted (record {
        but = header-SameBut header_else;
        others = λ k ne. rw same_containers refl;
        same_live = λ q ne. refl;
        home = home_put;
        same_members = λ t ne. rw same_containers refl;
        no_copy = rw same_containers (pool.sorted.once o i);
        if_held = λ _. put-IsListed;
        if_free = λ q l at more. (
          order_put,
          rw same_containers (
              subst (λ k. has (address base p) (cells_of st k) ≡ true) oe
                (pool.sorted.placed p is_live some_free)),
        );
      });
    },
    is_live,
  )

  abbrev appended : SlabPool
  appended = set_partial o ((after_put.containers o).partial_list ++ address base p ∷ []) after_put

  module _ (full : count_at st (address base p) ≡ 0) where
    not_held : has (address base p) (cells_of st o) ≡ false
    not_held = elim (Bool-cases (has (address base p) (cells_of st o))) [
      | inl held ↦ absurd ((pool.sorted.listed o (address base p) i held).some_free full)
      | inr out ↦ out
    ]

    more_cells : cells_of appended o ≡ cells_of st o ++ address base p ∷ []
    more_cells =
        ap cells (update_self after_put.containers o _)
        ∙ cells-append (address base p) (after_put.containers o).current
            (after_put.containers o).partial_list
        ∙ ap (λ (cs : ℕ → SlabContainer). cells (cs o) ++ address base p ∷ []) same_containers

    appended-Moves : Moves base o (address base p) pool.live pool.live st appended
    appended-Moves = record {
      but = header-SameBut header_else;
      others = λ k ne. ap cells (
          update_ne after_put.containers o _ k ne
          ∙ ap (λ (cs : ℕ → SlabContainer). cs k) same_containers);
      same_live = λ q ne. refl;
      home = home_put;
      same_members = λ t ne. rw more_cells (has-append_last (address base p) t (cells_of st o) ne);
      no_copy =
          rw more_cells
            (append_last-NoDup (address base p) (cells_of st o) (pool.sorted.once o i) not_held);
      if_held = λ _. record {
        page = p;
        is_live = is_live;
        place = refl;
        order_eq = order_put;
        some_free = omega (arith, count_put);
      };
      if_free = λ q l at more.
          (order_put, rw more_cells (has-append_self (address base p) (cells_of st o)));
    }

    appends : append_partial o (address base p) after_put ≡ done appended
    unfolding append_partial
    appends = unless_current (address base p) (after_put.containers o).current appended (λ e.
        let now = ap (λ (cs : ℕ → SlabContainer). (cs o).current) (sym same_containers) ∙ e in
        ground (arith, rw (cells-some (st.containers o) (address base p) now) at not_held))

    pub append_partial-IsPool :
        (st' : SlabPool) × (append_partial o (address base p) after_put ≡ done st')
        × IsPool base n (update used b none) st'
    append_partial-IsPool = (
      appended,
      appends,
      record {
        head = pool.head;
        live = pool.live;
        free = update pool.free p (b ∷ pool.free p);
        heap = IsHeap-containers _ put-IsHeap_after;
        sorted = Moves-IsSorted pool.sorted appended-Moves;
      },
    )
