-- ===== src/Slab/Pool/Alloc.antt =====
-- `__slab_alloc` in the pool.
use kingdo_micro_kernel.Prelude.{
  ℕ, ◌≡◌, refl, ap, ◌==◌, if◌then◌else◌, Option, none, some, List, [], ◌∷◌, arith, ℕ_discrete,
  update_self, Run, done, ◌>>=◌, OnDone, holds,
}
use kingdo_micro_kernel.Buddy.{MemRegion}
use kingdo_micro_kernel.Buddy.Layout.{IsLayout}
use kingdo_micro_kernel.Buddy.Get.{Gets, AllEmpty, out_of_memory, granted, buddy_get_pages-Gets}
use kingdo_micro_kernel.Buddy.Kept.{SameSlabs, buddy_get_pages-Same}
use kingdo_micro_kernel.Slab.{
  SlabPool, SlabContainer, slab_page_order, enomem, slab_on, alloc_slab_from_buddy, set_current,
  set_partial, get_from_partial_list, replace_current, set_new_current_slab,
}
use kingdo_micro_kernel.Slab.Fresh.{make_slab_lem}
use kingdo_micro_kernel.Slab.Pool.{IsOrder, IsPool}
use kingdo_micro_kernel.Slab.Pool.Lists.{IsPool-containers}
use kingdo_micro_kernel.Slab.Pool.Make.{new-IsPool}

-- A new slab is current, with no block in use; or no chunk is free, and nothing changes.
pub data NewSlab (base n : ℕ) (used : ℕ → Option ℕ) (o : ℕ) (st : SlabPool)
    : Run (ℕ × SlabPool) → Type 0 where
  exhausted : AllEmpty slab_page_order st.region → NewSlab base n used o st (done (enomem, st))
  fresh :
      {st' : SlabPool} (s : ℕ)
      → IsPool base n used st'
      → (st'.containers o).current ≡ some s
      → NewSlab base n used o st (done (0, st'))

module _ {base n o : ℕ} {used : ℕ → Option ℕ} {st : SlabPool} (lay : IsLayout base n)
    (i : IsOrder o) (pool : IsPool base n used st)
    (no_current : (st.containers o).current ≡ none) where
  NewSlab-of :
      {m : Run (Option ℕ × MemRegion)}
      → Gets base n st.region pool.head slab_page_order m
      → OnDone (λ (_, r). SameSlabs st.region r) m
      → NewSlab base n used o st (m >>= λ (page, r). slab_on o page (record st { region = r }))
  unfolding slab_on
  NewSlab-of (out_of_memory empty) same = exhausted empty
  NewSlab-of (granted {p} {s' = r} g) (holds same) =
      let (next', e, slab, outside) = make_slab_lem o i p (record st { region = r }) in
      rw e (
        fresh _ (new-IsPool lay pool.heap g same o i next' pool.sorted no_current slab outside)
          (ap (λ (c : SlabContainer). c.current) (update_self st.containers o _)))

  pub alloc_slab_from_buddy-NewSlab : NewSlab base n used o st (alloc_slab_from_buddy o st)
  unfolding alloc_slab_from_buddy
  alloc_slab_from_buddy-NewSlab =
      NewSlab-of (buddy_get_pages-Gets pool.heap.tiled slab_page_order (omega arith))
        (buddy_get_pages-Same slab_page_order st.region)

abbrev pub Renews : ℕ → ℕ → (ℕ → Option ℕ) → Run SlabPool → Type 0
Renews base n used m = (st' : SlabPool) × (m ≡ done st') × IsPool base n used st'

module _ {base n o : ℕ} {used : ℕ → Option ℕ} (st : SlabPool) (lay : IsLayout base n)
    (i : IsOrder o) (pool : IsPool base n used (set_current o none st)) where
  renewed :
      {m : Run (ℕ × SlabPool)}
      → NewSlab base n used o (set_current o none st) m
      → Renews base n used
          (m >>= λ (err, st'). done (if err == 0 then st' else set_current o none st'))
  renewed (exhausted empty) = (
    set_current o none (set_current o none st),
    refl,
    IsPool-containers _ (λ k. elim (ℕ_discrete o k) [ yes e ↦ ground arith | no ne ↦ ground arith ])
        pool,
  )
  renewed (fresh {st'} s p e) = (st', refl, p)

  -- set_new_current_slab where the partial list is `l`
  abbrev new_current : List ℕ → Run SlabPool
  new_current l =
      let (s, st') = get_from_partial_list o l st in
      let st'' = set_current o s st' in
      elim s [ some _ ↦ done st'' | none ↦ replace_current o st'' ]

  replaced : (l : List ℕ) → (st.containers o).partial_list ≡ l → Renews base n used (new_current l)
  unfolding get_from_partial_list replace_current
  replaced [] e = renewed (
      alloc_slab_from_buddy-NewSlab lay i pool
        (ap (λ (c : SlabContainer). c.current) (update_self st.containers o _)))
  replaced (s ∷ rest) e = (
    set_current o (some s) (set_partial o rest st),
    refl,
    IsPool-containers _
        (λ k. elim (ℕ_discrete o k) [ yes e' ↦ ground (arith, e) | no ne ↦ ground arith ]) pool,
  )

  pub set_new_current_slab-IsPool : Renews base n used (set_new_current_slab o st)
  unfolding set_new_current_slab
  set_new_current_slab-IsPool = replaced (st.containers o).partial_list refl
