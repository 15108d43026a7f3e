-- ===== src/Buddy/Account.antt =====
-- What a client of the buddy allocator may rely on, over several calls.
use kingdo_micro_kernel.Prelude.{
  ℕ, ◌+◌, ◌*◌, ◌^◌, ◌≤◌, ◌<◌, ◌≡◌, refl, ap, subst, zero, suc, ◌⊎◌, inl, inr, Option, none, some,
  Run, done, stop, arith, dec_lt,
}
use kingdo_micro_kernel.Prelude.Arith.{two_pow_add, two_pow_pos}
use kingdo_micro_kernel.Buddy.{
  buddy_max_order, wrap64, page_size, FreeList, MemRegion, buddy_get_pages, buddy_free_pages,
  get_free_pages_nums_from_buddy, get_free_mem_size_from_buddy, sum_free, sum_free_size,
  page_to_virt, virt_to_page,
}
use kingdo_micro_kernel.Buddy.Layout.{IsLayout, IsAt}
use kingdo_micro_kernel.Buddy.Tiling.{IsTiled, allocated_of}
use kingdo_micro_kernel.Buddy.Get.{Gets, Granted, out_of_memory, granted, buddy_get_pages-Gets}
use kingdo_micro_kernel.Buddy.Free.{Frees, Returned, returned, buddy_free_pages-Frees}
use kingdo_micro_kernel.Buddy.Count.{
  Costs, nothing, taken, stopped, Gains, gained, buddy_get_pages-Costs, buddy_free_pages-Gains,
  free_pages,
}

-- The pages that a request of `order` takes.
abbrev pub handed : Option ℕ → ℕ → ℕ
handed none order = 0
handed (some p) order = 2 ^ order

-- What `Gets` says of a run, by the run's own value.
abbrev WhenGranted :
    (base n : ℕ) (s : MemRegion) (head : ℕ → ℕ) (order : ℕ) → Run (Option ℕ × MemRegion) → Type 0
WhenGranted base n s head order (done (none, s')) = Unit
WhenGranted base n s head order (done (some p, s')) = Granted base n s head order p s'
WhenGranted base n s head order (stop e) = Unit

when_granted :
    {base n order : ℕ} {s : MemRegion} {head : ℕ → ℕ} {r : Run (Option ℕ × MemRegion)}
    → Gets base n s head order r
    → WhenGranted base n s head order r
when_granted (out_of_memory e) = tt
when_granted (granted g) = g

Returned-of :
    {base n p : ℕ} {s : MemRegion} {head : ℕ → ℕ} {r : Run MemRegion}
    → Frees base n s head p r
    → (s' : MemRegion) × (r ≡ done s') × Returned base n s head p s'
Returned-of (returned {s'} g) = (s', refl, g)

sum_free-empty :
    (k : ℕ) (lists : ℕ → FreeList)
    → ((o : ℕ) → o < k → (lists o).nr_free ≡ 0)
    → sum_free k lists ≡ 0
unfolding sum_free
sum_free-empty zero lists h = refl
sum_free-empty (suc k) lists h =
    rw (h k (omega arith)) (omega (arith, sum_free-empty k lists (λ o lt. h o (omega arith))))

-- A request for one page, where a page is free.
pub record TakesPage (base n : ℕ) (s : MemRegion) (head : ℕ → ℕ) (r : Run (Option ℕ × MemRegion))
    : Type 0 where
  pub page : ℕ
  pub s' : MemRegion
  pub run : r ≡ done (some page, s')
  pub granted_page : Granted base n s head 0 page s'
  pub cost : free_pages s' + 1 ≡ free_pages s

TakesPage-of :
    {base n : ℕ} {s : MemRegion} {head : ℕ → ℕ} {r : Run (Option ℕ × MemRegion)}
    → 0 < free_pages s
    → Gets base n s head 0 r
    → Costs 1 s r
    → TakesPage base n s head r
unfolding get_free_pages_nums_from_buddy
TakesPage-of {s} some_free (out_of_memory empty) c =
    absurd (
      omega (arith, sum_free-empty buddy_max_order s.free_lists (λ o lt. empty o (omega arith) lt)))
TakesPage-of some_free (granted {p} {s'} g) (taken e) = record {
  page = p;
  s' = s';
  run = refl;
  granted_page = g;
  cost = e;
}

pub buddy_get_pages-TakesPage :
    {base n : ℕ} {s : MemRegion} {head : ℕ → ℕ}
    → IsTiled base n head n s
    → 0 < free_pages s
    → TakesPage base n s head (buddy_get_pages 0 s)
buddy_get_pages-TakesPage {s} t some_free =
    TakesPage-of some_free (buddy_get_pages-Gets t 0 (omega arith))
      (buddy_get_pages-Costs 0 s (omega arith))

module _ {base n : ℕ} {s : MemRegion} {head : ℕ → ℕ} (t : IsTiled base n head n s) (order : ℕ)
    (lt : order < buddy_max_order) where
  pub Granted-of :
      {p : ℕ} {s' : MemRegion}
      → buddy_get_pages order s ≡ done (some p, s')
      → Granted base n s head order p s'
  Granted-of e =
      subst (WhenGranted base n s head order) e (when_granted (buddy_get_pages-Gets t order lt))

  counted :
      {r : Run (Option ℕ × MemRegion)}
      → Gets base n s head order r
      → Costs (2 ^ order) s r
      → (p : Option ℕ) × (s' : MemRegion) × (r ≡ done (p, s'))
        × (free_pages s' + handed p order ≡ free_pages s)
  counted (out_of_memory empty) c = (none, s, refl, omega arith)
  counted (granted {p} {s'} g) (taken e) = (some p, s', refl, e)

  -- On a tiled region and for an order below 11, buddy_get_pages returns, and the number of free
  -- pages falls by the size of the chunk that it hands out, and by nothing where it returns NULL.
  pub free_pages-get :
      (p : Option ℕ) × (s' : MemRegion) × (buddy_get_pages order s ≡ done (p, s'))
      × (get_free_pages_nums_from_buddy s' + handed p order ≡ get_free_pages_nums_from_buddy s)
  unfolding get_free_pages_nums_from_buddy
  free_pages-get = counted (buddy_get_pages-Gets t order lt) (buddy_get_pages-Costs order s lt)

-- Two chunks that buddy_get_pages hands out one after the other, on a tiled region and for orders
-- below 11, have no page in common.
pub get-get_disjoint :
    {base n : ℕ} {s : MemRegion} {head : ℕ → ℕ} (order order' p p' : ℕ) (s' s'' : MemRegion)
    → IsTiled base n head n s
    → order < buddy_max_order
    → order' < buddy_max_order
    → buddy_get_pages order s ≡ done (some p, s')
    → buddy_get_pages order' s' ≡ done (some p', s'')
    → (p + 2 ^ order ≤ p') ⊎ (p' + 2 ^ order' ≤ p)
get-get_disjoint {base} {n} {s} {head} order order' p p' s' s'' t lt lt' e e' = elim (dec_lt p' p) [
  | yes below ↦ elim (dec_lt p (p' + 2 ^ order')) [
    | yes c ↦ absurd (clash p (omega arith) (omega (arith, two_pow_pos order)) (omega arith) c)
    | no c ↦ inr (omega arith)
  ]
  | no above ↦ elim (dec_lt p' (p + 2 ^ order)) [
    | yes c ↦ absurd (clash p' (omega arith) c (omega arith) (omega (arith, two_pow_pos order')))
    | no c ↦ inl (omega arith)
  ]
]
  where
    g : Granted base n s head order p s'
    g = Granted-of t order lt e

    g' : Granted base n s' g.head' order' p' s''
    g' = Granted-of g.tiled order' lt' e'

    clash : (q : ℕ) → p ≤ q → q < p + 2 ^ order → p' ≤ q → q < p' + 2 ^ order' → ⊥
    clash q a b a' b' = ground (arith, g.now_owned q (omega (arith, g.inside)), g'.was_free q a' b')

abbrev WhenTaken : ℕ → MemRegion → Run (Option ℕ × MemRegion) → Type 0
WhenTaken cost s (done (none, s')) = Unit
WhenTaken cost s (done (some p, s')) = free_pages s' + cost ≡ free_pages s
WhenTaken cost s (stop e) = Unit

when_taken :
    {cost : ℕ} {s : MemRegion} {r : Run (Option ℕ × MemRegion)}
    → Costs cost s r
    → WhenTaken cost s r
when_taken (nothing e) = tt
when_taken (taken e) = e
when_taken stopped = tt

gained_of :
    {base n p g : ℕ} {s : MemRegion} {head : ℕ → ℕ} {r : Run MemRegion}
    → Frees base n s head p r
    → Gains g s r
    → (s' : MemRegion) × (r ≡ done s') × (free_pages s' ≡ free_pages s + g)
gained_of (returned {s'} r) (gained e) = (s', refl, e)

-- On a tiled region that ends on a 4 MB boundary, freeing the chunk that buddy_get_pages has just
-- returned succeeds, and the number of free pages that get_free_pages_nums_from_buddy reports is
-- the one from before the request.
pub get-free_pages :
    {base n : ℕ} {s : MemRegion} {head : ℕ → ℕ} (order p : ℕ) (s' : MemRegion)
    → IsLayout base n
    → IsTiled base n head n s
    → order < buddy_max_order
    → buddy_get_pages order s ≡ done (some p, s')
    → (s'' : MemRegion) × (buddy_free_pages p s' ≡ done s'')
      × (get_free_pages_nums_from_buddy s'' ≡ get_free_pages_nums_from_buddy s)
unfolding get_free_pages_nums_from_buddy
get-free_pages {base} {n} {s} {head} order p s' lay t lt e =
    let (s'', f, c) =
      gained_of (buddy_free_pages-Frees g.tiled in_region g.is_head owned_now lay)
        (buddy_free_pages-Gains p s' (omega (arith, g.order_eq))) in
    (s'', f, omega (arith, c, cost, ap (λ (k : ℕ). 2 ^ k) g.order_eq))
  where
    g : Granted base n s head order p s'
    g = Granted-of t order lt e

    in_region : p < n
    in_region = omega (arith, g.inside, two_pow_pos order)

    owned_now : allocated_of s' p ≡ 1
    owned_now = ground (arith, g.now_owned p in_region, g.is_head, two_pow_pos order)

    cost : free_pages s' + 2 ^ order ≡ free_pages s
    cost = subst (WhenTaken (2 ^ order) s) e (when_taken (buddy_get_pages-Costs order s lt))

-- In a region at its place below 2 ^ 64, virt_to_page of the address of a page of the region, plus
-- an offset inside the page, is that page, and of an address before the first page or behind the
-- last it is NULL.
pub virt_to_page-page_to_virt :
    {base n : ℕ} {s : MemRegion} (p offset : ℕ)
    → (base + n) * page_size < 2 ^ 64
    → IsAt base n s
    → p < n
    → offset < page_size
    → (virt_to_page s (page_to_virt s p + offset) ≡ some p)
      × ((ptr : ℕ)
          → (ptr < page_to_virt s 0) ⊎ (page_to_virt s 0 + n * page_size ≤ ptr)
          → virt_to_page s ptr ≡ none)
unfolding page_to_virt virt_to_page
virt_to_page-page_to_virt {base} {n} {s} p offset fits at h small =
    let here : wrap64 (s.start_addr + p * page_size) ≡ (base + p) * page_size = ground arith in
    let first : wrap64 (s.start_addr + 0 * page_size) ≡ base * page_size = ground arith in
    (rw here (ground arith), λ ptr out. let o = rw first at out in ground (arith, o))

mem_size-sum : (k : ℕ) (lists : ℕ → FreeList) → sum_free_size k lists ≡ page_size * sum_free k lists
unfolding sum_free_size sum_free
mem_size-sum zero lists = refl
mem_size-sum (suc k) lists =
    omega (arith, mem_size-sum k lists, ap (λ (t : ℕ). (lists k).nr_free * t) (two_pow_add 12 k))

-- get_free_mem_size_from_buddy is 4096 times get_free_pages_nums_from_buddy.
pub mem_size-free_pages :
    (s : MemRegion) → get_free_mem_size_from_buddy s ≡ page_size * get_free_pages_nums_from_buddy s
unfolding get_free_mem_size_from_buddy get_free_pages_nums_from_buddy
mem_size-free_pages s = mem_size-sum buddy_max_order s.free_lists
