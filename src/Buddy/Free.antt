-- ===== src/Buddy/Free.antt =====
-- `buddy_free_pages` and `merge_chunk` on a tiled region.
use kingdo_micro_kernel.Prelude.{
  ℕ, zero, suc, ◌+◌, ◌^◌, ◌≤◌, ◌<◌, ◌≡◌, ◌≢◌, refl, sym, ◌∙◌, inl, inr, true, false, ◌||◌, ◌&&◌,
  ltb, leb, ◌==◌, not, Run, done, ◌>>=◌, arith, Bool-cases, ℕ_discrete,
}
use kingdo_micro_kernel.Buddy.{
  buddy_max_order, MemRegion, page_in_list, join, merge_loop, merge_chunk, buddy_free_pages,
  add_free, set_allocated,
}
use kingdo_micro_kernel.Buddy.Layout.{IsLayout, merge_pair_cases}
use kingdo_micro_kernel.Buddy.Tiling.{
  IsTiled, InChunk, Keeps, Keeps-pages, Keeps-trans, order_of, allocated_of, owned,
}
use kingdo_micro_kernel.Buddy.Tiling.Join.{
  join-IsTiled, join-Keeps, buddy_listed, order-join_low, allocated-join, low_begins,
}
use kingdo_micro_kernel.Buddy.Tiling.Moves.{add_free-IsTiled, unmark-IsTiled}

-- The free chunk that the merging ends with, off its list, all else being as in `s`.
pub record Merged (base n : ℕ) (s : MemRegion) (head : ℕ → ℕ) (c : ℕ) (s' : MemRegion)
    : Type 0 where
  pub head' : ℕ → ℕ
  pub tiled : IsTiled base n head' c s'
  pub in_region : c < n
  pub is_head : head' c ≡ c
  pub free : allocated_of s' c ≢ 1
  pub keeps : Keeps n s head s' head'

pub data Merges (base n : ℕ) (s : MemRegion) (head : ℕ → ℕ) : Run (ℕ × MemRegion) → Type 0 where
  merged :
      {c : ℕ} {s' : MemRegion} → Merged base n s head c s' → Merges base n s head (done (c, s'))

Merges_after :
    {base n : ℕ} {s s' : MemRegion} {head head' : ℕ → ℕ} {r : Run (ℕ × MemRegion)}
    → Keeps n s head s' head'
    → Merges base n s' head' r
    → Merges base n s head r
Merges_after k (merged m) = merged (record {
  head' = m.head';
  tiled = m.tiled;
  in_region = m.in_region;
  is_head = m.is_head;
  free = m.free;
  keeps = Keeps-trans k m.keeps;
})

module _ {base n : ℕ} (lay : IsLayout base n) where
  merge_loop-Merges :
      (fuel chunk : ℕ) (s : MemRegion) (head : ℕ → ℕ)
      → IsTiled base n head chunk s
      → chunk < n
      → head chunk ≡ chunk
      → allocated_of s chunk ≢ 1
      → 10 < order_of s chunk + fuel
      → Merges base n s head (merge_loop fuel chunk s)
  unfolding merge_loop page_in_list
  merge_loop-Merges zero chunk s head t h is free enough = absurd (omega (arith, k.small))
    where
      k : InChunk base n s chunk chunk
      k = rw is at (t.covers chunk h)
  merge_loop-Merges (suc fuel) chunk s head t h is free enough =
      elim (Bool-cases ((s.free_lists order).nr_free == 0 || order == 10)) [
        | inl ends ↦ rw ends same
        | inr goes ↦ elim (merge_pair_cases lay t.at chunk order (small goes) k.inside k.aligned) [
          | inl no_buddy ↦ rw (goes, no_buddy) same
          | inr (low, buddy, e, pair) ↦
              elim (Bool-cases
                ((s.pages buddy).allocated == 1 || not ((s.pages buddy).order == order))) [
                  | inl busy ↦ rw (goes, e, busy) same
                  | inr idle ↦
                      let few = small goes in
                      let free_buddy : allocated_of s buddy ≢ 1 = ground (arith, idle) in
                      let order_buddy : order_of s buddy ≡ order = ground (arith, idle) in
                      let in_list = buddy_listed t few is refl order_buddy free free_buddy pair in
                      let (low_in, low_head, low_free) =
                        low_begins t few is refl order_buddy free free_buddy pair in
                      rw (goes, e, idle, in_list)
                        (Merges_after (join-Keeps t few is refl order_buddy free free_buddy pair) (
                          merge_loop-Merges fuel low (join order low buddy s) _
                            (join-IsTiled t few is refl order_buddy free free_buddy pair) low_in
                            low_head
                            (rw (allocated-join t few is refl order_buddy free free_buddy pair low)
                              low_free)
                            (rw (order-join_low t few is refl order_buddy free free_buddy pair)
                              (omega arith))))
                ]
        ]
      ]
    where
      order : ℕ
      order = order_of s chunk

      k : InChunk base n s chunk chunk
      k = rw is at (t.covers chunk h)

      small : ((s.free_lists order).nr_free == 0 || order == 10) ≡ false → order < 10
      small goes = ground (arith, goes, k.small)

      same : Merges base n s head (done (chunk, s))
      same = merged (record {
        head' = head;
        tiled = t;
        in_region = h;
        is_head = is;
        free = free;
        keeps = Keeps-pages n head refl;
      })

  -- `merge_chunk` returns, and leaves a tiling in which its result is the one chunk off the lists.
  pub merge_chunk-Merges :
      (chunk : ℕ) (s : MemRegion) (head : ℕ → ℕ)
      → IsTiled base n head chunk s
      → chunk < n
      → head chunk ≡ chunk
      → allocated_of s chunk ≢ 1
      → Merges base n s head (merge_chunk chunk s)
  unfolding merge_chunk
  merge_chunk-Merges chunk s head t h is free =
      merge_loop-Merges buddy_max_order chunk s head t h is free (omega arith)

-- The chunk that begins at `p` is free in `s'`, and no other page changes hands.
pub record Returned (base n : ℕ) (s : MemRegion) (head : ℕ → ℕ) (p : ℕ) (s' : MemRegion)
    : Type 0 where
  pub head' : ℕ → ℕ
  pub tiled : IsTiled base n head' n s'
  pub now_owned :
      (q : ℕ)
      → q < n
      → owned s' head' q ≡ (owned s head q && not (leb p q && ltb q (p + 2 ^ order_of s p)))
  pub same_chunk :
      (q : ℕ)
      → q < n
      → owned s' head' q ≡ true
      → (head' q ≡ head q) × (order_of s' (head q) ≡ order_of s (head q))

pub data Frees (base n : ℕ) (s : MemRegion) (head : ℕ → ℕ) (p : ℕ) : Run MemRegion → Type 0 where
  returned : {s' : MemRegion} → Returned base n s head p s' → Frees base n s head p (done s')

module _ {base n p : ℕ} {s : MemRegion} {head : ℕ → ℕ} (t : IsTiled base n head n s) (h : p < n)
    (is : head p ≡ p) (own : allocated_of s p ≡ 1) where
  abbrev given : MemRegion
  given = set_allocated p 0 s

  in_chunk : (q : ℕ) → p ≤ q → q < p + 2 ^ order_of s p → head q ≡ p
  in_chunk q a b = t.whole p q h (rw is a) (rw is b) ∙ is

  span : (q : ℕ) → q < n → head q ≡ p → (p ≤ q) × (q < p + 2 ^ order_of s p)
  span q lt e = let k : InChunk base n s p q = rw e at (t.covers q lt) in (k.above, k.below)

  owned-given :
      (q : ℕ)
      → q < n
      → owned given head q ≡ (owned s head q && not (leb p q && ltb q (p + 2 ^ order_of s p)))
  owned-given q lt = elim (ℕ_discrete (head q) p) [
    | yes e ↦ ground (arith, span q lt e)
    | no ne ↦ ground (arith, in_chunk q)
  ]

  same-given : (q : ℕ) → owned given head q ≡ true → order_of given (head q) ≡ order_of s (head q)
  same-given q o = ground arith

  merged-Frees :
      {r : Run (ℕ × MemRegion)}
      → Merges base n given head r
      → Frees base n s head p (r >>= λ (m, s'). done (add_free (order_of s' m) m s'))
  merged-Frees (merged {c} {s'} m) = returned (record {
    head' = m.head';
    tiled = add_free-IsTiled m.tiled m.in_region m.is_head refl k.small m.free;
    now_owned = λ q lt. m.keeps.same_owned q lt ∙ owned-given q lt;
    same_chunk = λ q lt o.
        let o' : owned given head q ≡ true = sym (m.keeps.same_owned q lt) ∙ o in
        (m.keeps.same_head q lt o', m.keeps.same_order q lt o' ∙ same-given q o');
  })
    where
      k : InChunk base n s' c c
      k = rw m.is_head at (m.tiled.covers c m.in_region)

  -- On a tiled region that ends on a 4 MB boundary, buddy_free_pages of a page that begins a chunk
  -- handed out returns without reaching BUG_ON: exactly the pages of that chunk become free, the
  -- chunks still handed out stay as they were, and the region stays tiled.
  pub buddy_free_pages-Frees : IsLayout base n → Frees base n s head p (buddy_free_pages p s)
  unfolding buddy_free_pages
  buddy_free_pages-Frees lay =
      merged-Frees
        (merge_chunk-Merges lay p given head (unmark-IsTiled t h is own) h is (ground arith))
