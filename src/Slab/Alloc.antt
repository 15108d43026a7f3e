-- ===== src/Slab/Alloc.antt =====
-- A slab from the buddy allocator, and what `__slab_alloc` does where it gives none.
use kingdo_micro_kernel.Prelude.{
  ℕ, zero, suc, ◌+◌, ◌≤◌, ◌<◌, ◌≡◌, refl, ap, subst, ◌∙◌, ◌⊎◌, inl, inr, Option, some, update_self,
  update_ne, Run, done, ◌>>=◌, arith, ℕ_discrete,
}
use kingdo_micro_kernel.Buddy.{Page, MemRegion, put_page, page_to_virt}
use kingdo_micro_kernel.Buddy.Tiling.{IsTiled, order_of, allocated_of}
use kingdo_micro_kernel.Buddy.Get.{
  Gets, Granted, AllEmpty, out_of_memory, granted, buddy_get_pages-Gets,
}
use kingdo_micro_kernel.Slab.{
  SlabPool, set_slabs, alloc_slab_from_buddy, enomem, slab_page_order, slab_pages_count, slab_on,
}
use kingdo_micro_kernel.Slab.Blocks.{IsSlab}
use kingdo_micro_kernel.Slab.Fresh.{fresh_blocks, make_slab-IsSlab}

-- The pages point to the slab; the rest of the region stays.
pub record Marks (k page : ℕ) (v : Option ℕ) (r r' : MemRegion) : Type 0 where
  pub marked : (q : ℕ) → page ≤ q → q < page + k → (r'.pages q).slab ≡ v
  pub same_order : (q : ℕ) → order_of r' q ≡ order_of r q
  pub same_allocated : (q : ℕ) → allocated_of r' q ≡ allocated_of r q
  pub same_lists : r'.free_lists ≡ r.free_lists
  pub same_start : r'.start_addr ≡ r.start_addr
  pub same_size : r'.size ≡ r.size
  pub same_num : r'.page_num ≡ r.page_num
  pub same_else : (q : ℕ) → (q < page) ⊎ (page + k ≤ q) → (r'.pages q).slab ≡ (r.pages q).slab

set_slabs-outside :
    (k page : ℕ) (v : Option ℕ) (r : MemRegion) (q : ℕ)
    → q < page
    → (set_slabs k page v r).pages q ≡ r.pages q
unfolding set_slabs
set_slabs-outside zero page v r q below = refl
set_slabs-outside (suc k) page v r q below =
    let e = update_ne r.pages page (record (r.pages page) { slab = v }) q (omega arith) in
    set_slabs-outside k (page + 1) v (put_page page (record (r.pages page) { slab = v }) r) q
      (omega arith)
    ∙ e

pub set_slabs-Marks :
    (k page : ℕ) (v : Option ℕ) (r : MemRegion) → Marks k page v r (set_slabs k page v r)
unfolding set_slabs
set_slabs-Marks zero page v r = record {
  marked = λ q l u. absurd (omega arith);
  same_order = λ q. refl;
  same_allocated = λ q. refl;
  same_lists = refl;
  same_start = refl;
  same_size = refl;
  same_num = refl;
  same_else = λ q out. refl;
}
set_slabs-Marks (suc k) page v r =
    let v' : Page = record (r.pages page) { slab = v } in
    let r' = put_page page v' r in
    let m = set_slabs-Marks k (page + 1) v r' in
    let here : (set_slabs k (page + 1) v r').pages page ≡ v' =
      set_slabs-outside k (page + 1) v r' page (omega arith) ∙ update_self r.pages page v' in
    record {
      marked = λ q l u. elim (ℕ_discrete page q) [
        | yes e ↦
            subst (λ t. ((set_slabs k (page + 1) v r').pages t).slab ≡ v) e
              (ap (λ (w : Page). w.slab) here)
        | no ne ↦ m.marked q (omega arith) (omega arith)
      ];
      same_order = λ q. m.same_order q ∙ ground arith;
      same_allocated = λ q. m.same_allocated q ∙ ground arith;
      same_lists = m.same_lists;
      same_start = m.same_start;
      same_size = m.same_size;
      same_num = m.same_num;
      same_else = λ q out. elim out [
        | inl low ↦
            ap (λ (w : Page). w.slab)
              (set_slabs-outside k (page + 1) v r' q (omega arith)
                ∙ update_ne r.pages page v' q (omega arith))
        | inr high ↦
            m.same_else q (inr (omega arith))
            ∙ ap (λ (w : Page). w.slab) (update_ne r.pages page v' q (omega arith))
      ];
    }

-- What `alloc_slab_from_buddy` does on a tiled region: no chunk is free, and nothing changes, or a
-- chunk is handed out and becomes the current slab, whose blocks but the first are free.
pub data Allocs (base n : ℕ) (head : ℕ → ℕ) (order : ℕ) (in_range : (6 ≤ order) × (order ≤ 11))
    (st : SlabPool) : Run (ℕ × SlabPool) → Type 0 where
  exhausted :
      AllEmpty slab_page_order st.region → Allocs base n head order in_range st (done (enomem, st))
  fresh :
      {st' : SlabPool} (page : ℕ) (region : MemRegion)
      → Granted base n st.region head slab_page_order page region
      → Marks slab_pages_count page (some (page_to_virt region page)) region st'.region
      → (st'.containers order).current ≡ some (page_to_virt region page)
      → IsSlab
          (page_to_virt region page)
          (fresh_blocks order in_range (page_to_virt region page))
          st'
      → Allocs base n head order in_range st (done (0, st'))

module _ {base n : ℕ} {head : ℕ → ℕ} (order : ℕ) (in_range : (6 ≤ order) × (order ≤ 11))
    (st : SlabPool) where
  slab_on-Allocs :
      {r : Run (Option ℕ × MemRegion)}
      → Gets base n st.region head slab_page_order r
      → Allocs base n head order in_range st
          (r >>= λ (page, r'). slab_on order page (record st { region = r' }))
  unfolding slab_on
  slab_on-Allocs (out_of_memory empty) = exhausted empty
  slab_on-Allocs (granted {p} {s'} g) =
      let (st', e, current, region, slab) =
        make_slab-IsSlab order in_range p (record st { region = s' }) in
      rw e (
        fresh p s' g (rw region (set_slabs-Marks slab_pages_count p (some (page_to_virt s' p)) s'))
          current slab)

  -- On a tiled region and for an order from 6 to 11, alloc_slab_from_buddy returns: either ENOMEM
  -- with nothing changed, and then every free list from order 5 on is empty; or 0, with a chunk of
  -- 32 pages handed out as the theorem on buddy_get_pages says, whose pages point to the slab at
  -- its address, the slab current in its container, and the chain of its free blocks leading
  -- through all blocks but the first.
  pub alloc_slab_from_buddy-Allocs :
      IsTiled base n head n st.region
      → Allocs base n head order in_range st (alloc_slab_from_buddy order st)
  unfolding alloc_slab_from_buddy
  alloc_slab_from_buddy-Allocs t =
      slab_on-Allocs (buddy_get_pages-Gets t slab_page_order (omega arith))
