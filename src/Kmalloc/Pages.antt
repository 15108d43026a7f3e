-- ===== src/Kmalloc/Pages.antt =====
-- Requests that the buddy allocator serves.
use kingdo_micro_kernel.Prelude.{
  ℕ, ◌+◌, ◌*◌, ◌^◌, ◌≤◌, ◌<◌, ◌≡◌, refl, sym, ap, subst, ◌∙◌, false, Option, none, some, ◌==◌, Run,
  done, stop, ◌>>=◌, arith,
}
use kingdo_micro_kernel.Prelude.Arith.{two_pow_pos}
use kingdo_micro_kernel.Buddy.{
  page_size, chunk_size, MemRegion, buddy_get_pages, buddy_free_pages, page_to_virt, virt_to_page,
  get_free_pages_nums_from_buddy,
}
use kingdo_micro_kernel.Buddy.Layout.{IsLayout, page_to_virt_lem, virt_to_page_lem}
use kingdo_micro_kernel.Buddy.Tiling.{IsTiled}
use kingdo_micro_kernel.Buddy.Get.{
  Gets, Granted, AllEmpty, out_of_memory, granted, buddy_get_pages-Gets,
}
use kingdo_micro_kernel.Buddy.Account.{free_pages-get, get-free_pages, Granted-of}
use kingdo_micro_kernel.Slab.{SlabPool}
use kingdo_micro_kernel.Kmalloc.{page_address, get_pages, free_pages, kmalloc, kfree, zero_size_ptr}
use kingdo_micro_kernel.Kmalloc.Sizes.{IsPageOrder, kmalloc_sized-large}

-- NULL, where no chunk of the least order that holds the size is free; or the address of such a chunk.
pub data Gives (base n : ℕ) (head : ℕ → ℕ) (size : ℕ) (st : SlabPool)
    : Run (Option ℕ × SlabPool) → Type 0 where
  no_pages :
      (order : ℕ)
      → IsPageOrder size order
      → AllEmpty order st.region
      → Gives base n head size st (done (none, st))
  some_pages :
      (order p : ℕ) (r : MemRegion)
      → IsPageOrder size order
      → Granted base n st.region head order p r
      → Gives base n head size st (done (some ((base + p) * page_size), record st { region = r }))

-- The page of the address is in no slab.
abbrev pub InNoSlab : ℕ → SlabPool → Type 0
InNoSlab addr st = (p : ℕ) → virt_to_page st.region addr ≡ some p → (st.region.pages p).slab ≡ none

free_pages-page :
    (addr page : ℕ) (st : SlabPool)
    → virt_to_page st.region addr ≡ some page
    → free_pages addr st
      ≡ (buddy_free_pages page st.region >>= λ r. done (record st { region = r }))
unfolding free_pages
free_pages-page addr page st e =
    ap
      (λ o. elim o as (λ _. Run SlabPool) [
        | none ↦ done st
        | some page ↦ buddy_free_pages page st.region >>= λ r. done (record st { region = r })
      ])
      e

abbrev pub with_size : ℕ → Option ℕ × SlabPool → Run (Option ℕ × (ℕ × SlabPool))
with_size size (addr, st) = done (addr, (size, st))

-- The size is not passed on by kmalloc.
pub drop_size :
    (size : ℕ) (m : Run (Option ℕ × SlabPool))
    → ((m >>= λ x. with_size size x) >>= λ x. done (x.0, x.1.1)) ≡ m
drop_size size (done x) = refl
drop_size size (stop e) = refl

module _ (size : ℕ) (st : SlabPool) (big : 2048 < size) (fits : size ≤ 2 ^ 22) where
  kmalloc-large :
      (order : ℕ) × IsPageOrder size order
      × (kmalloc size st ≡ (
          buddy_get_pages order st.region >>= λ (page, r).
          done (page_address r page, record st { region = r })))
  unfolding kmalloc get_pages
  kmalloc-large =
      let (order, i, e) = kmalloc_sized-large size 0 st big fits in
      let test : (size == 0) ≡ false = ground arith in
      (order, i, rw (test, e) (drop_size (chunk_size order) (get_pages order st)))

  module _ {base n : ℕ} {head : ℕ → ℕ} (lay : IsLayout base n)
      (t : IsTiled base n head n st.region) where
    Gives-of :
        (order : ℕ)
        → IsPageOrder size order
        → {m : Run (Option ℕ × MemRegion)} → Gets base n st.region head order m
        → Gives base n head size st
            (m >>= λ (page, r). done (page_address r page, record st { region = r }))
    Gives-of order i (out_of_memory empty) = no_pages order i empty
    Gives-of order i (granted {p} {s' = r} g) =
        rw (page_to_virt_lem lay p g.tiled.at (omega (arith, g.inside, two_pow_pos order)))
          (some_pages order p r i g)

    -- On a tiled region that ends on a 4 MB boundary, and for a size above 2048 and up to 4 MB:
    -- kmalloc returns the address of a chunk of the least order that holds the size, handed out as
    -- the theorem on buddy_get_pages says, with nothing else changed; or NULL with nothing
    -- changed, and then every free list from that order on is empty.
    pub kmalloc-Gives : Gives base n head size st (kmalloc size st)
    kmalloc-Gives =
        let (order, i, e) = kmalloc-large in
        rw e (Gives-of order i (buddy_get_pages-Gets t order (omega (arith, i.in_range))))

    -- The pages come back, where the run returned an address.
    abbrev Freed : Run (Option ℕ × SlabPool) → Type 0
    Freed (done (some addr, st')) =
        InNoSlab addr st'
        → (st'' : SlabPool) × (kfree addr st' ≡ done st'')
          × (get_free_pages_nums_from_buddy st''.region ≡ get_free_pages_nums_from_buddy st.region)
    Freed (done (none, st')) = Unit
    Freed (stop e) = Unit

    Freed-page :
        (order p : ℕ) (r : MemRegion)
        → order < 11
        → buddy_get_pages order st.region ≡ done (some p, r)
        → Freed (done (some (page_to_virt r p), record st { region = r }))
    unfolding kfree
    Freed-page order p r lt e no_slab =
        let g = Granted-of t order lt e in
        let p_in : p < n = omega (arith, g.inside, two_pow_pos order) in
        let there = page_to_virt_lem lay p g.tiled.at p_in in
        let back : virt_to_page r (page_to_virt r p) ≡ some p =
          ap (virt_to_page r) there ∙ virt_to_page_lem lay p g.tiled.at p_in in
        let not_zero : (page_to_virt r p == zero_size_ptr) ≡ false = ground (arith, there) in
        let (r'', f, c) = get-free_pages order p r lay t lt e in
        (
          record st { region = r'' },
          rw (not_zero, back, no_slab p back)
              (free_pages-page (page_to_virt r p) p (record st { region = r }) back
                ∙ ap (λ m. m >>= λ r. done (record st { region = r })) f),
          c,
        )

    -- On a tiled region that ends on a 4 MB boundary, and for a size above 2048 and up to 4 MB:
    -- where kmalloc has returned an address, whose page is in no slab, kfree of it returns, and
    -- get_free_pages_nums_from_buddy gives what it gave before.
    pub kfree-kmalloc :
        (addr : ℕ) (st' : SlabPool)
        → kmalloc size st ≡ done (some addr, st')
        → InNoSlab addr st'
        → (st'' : SlabPool) × (kfree addr st' ≡ done st'')
          × (get_free_pages_nums_from_buddy st''.region ≡ get_free_pages_nums_from_buddy st.region)
    kfree-kmalloc addr st' e =
        let (order, i, large) = kmalloc-large in
        let lt : order < 11 = omega (arith, i.in_range) in
        let (p, r, run, cost) = free_pages-get t order lt in
        subst Freed
          (sym (
              ap (λ m. m >>= λ (page, r). done (page_address r page, record st { region = r })) run)
            ∙ sym large
            ∙ e)
          (elim p
              as (λ p.
                buddy_get_pages order st.region ≡ done (p, r)
                → Freed (done (page_address r p, record st { region = r }))) [
                  | none ↦ λ _. tt
                  | some page ↦ λ run. Freed-page order page r lt run
                ]
            run)
