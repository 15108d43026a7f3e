-- ===== src/Buddy/Kept.antt =====
-- No operation of the buddy allocator writes the `slab` words of the pages, which the slab allocator
-- keeps in them.
use kingdo_micro_kernel.Prelude.{
  ℕ, zero, suc, ◌+◌, ◌-◌, ◌^◌, ◌≡◌, refl, ◌∙◌, Option, none, some, List, [], ◌∷◌, ◌||◌, ltb, leb,
  ◌==◌, not, Run, OnDone, holds, stops, OnDone-bind, OnDone-if, Option-cases, inl, inr, arith,
}
use kingdo_micro_kernel.Buddy.{
  MemRegion, buddy_max_order, page_in_list, take_first, halve, split_loop, split_chunk, hand_out,
  after_split, buddy_get_pages, merge_pair, lower_chunk, join, merge_loop, merge_chunk,
  buddy_free_pages, set_allocated, set_order,
}

abbrev pub slab_of : MemRegion → ℕ → Option ℕ
slab_of s q = (s.pages q).slab

abbrev pub SameSlabs : MemRegion → MemRegion → Type 0
SameSlabs s s' = (q : ℕ) → slab_of s' q ≡ slab_of s q

-- The region that a run returns has the same slab words.
abbrev Same : {A : Type 0} → MemRegion → Run (A × MemRegion) → Type 0
Same s m = OnDone (λ (_, s'). SameSlabs s s') m

set_order-SameSlabs : (p o : ℕ) (s : MemRegion) → SameSlabs s (set_order p o s)
set_order-SameSlabs p o s q = ground arith

set_allocated-SameSlabs : (p a : ℕ) (s : MemRegion) → SameSlabs s (set_allocated p a s)
set_allocated-SameSlabs p a s q = ground arith

take_first-Same : (o : ℕ) (l : List ℕ) (s : MemRegion) → Same s (take_first o l s)
unfolding take_first
take_first-Same o [] s = stops
take_first-Same o (p ∷ l) s = holds (λ q. refl)

module _ (s s' : MemRegion) (k : SameSlabs s s') where
  halve-Same : (o : ℕ) (c : Option ℕ) → Same s (halve o c s')
  unfolding halve
  halve-Same o none = holds k
  halve-Same o (some c) = holds (λ q.
      set_order-SameSlabs (c + 2 ^ (o - 1)) (o - 1) (set_order c (o - 1) s') q
      ∙ set_order-SameSlabs c (o - 1) s' q
      ∙ k q)

  hand_out-Same : (o p : ℕ) → Same s (hand_out o p s')
  unfolding hand_out
  hand_out-Same o p =
      OnDone-if ((s'.pages p).allocated == 1 || not ((s'.pages p).order == o)) stops
        (holds (λ q. set_allocated-SameSlabs p 1 s' q ∙ k q))

  after_split-Same : (o : ℕ) (p : Option ℕ) → Same s (after_split o p s')
  unfolding after_split
  after_split-Same o none = holds k
  after_split-Same o (some p) = hand_out-Same o p

split_loop-Same : (fuel o : ℕ) (s : MemRegion) → Same s (split_loop fuel o s)
unfolding split_loop
split_loop-Same zero o s = stops
split_loop-Same (suc fuel) o s = OnDone-if (ltb o 1 || leb buddy_max_order o) (holds (λ q. refl)) (
    OnDone-if ((s.free_lists o).nr_free == 0)
      (OnDone-bind _ (split_loop-Same fuel (o + 1) s) (λ (c, s') k. halve-Same s s' k o c))
      (OnDone-bind _ (take_first-Same o (s.free_lists o).nodes s)
        (λ (c, s') k. halve-Same s s' k o (some c))))

-- The region that buddy_get_pages returns has the slab words of the one it was given.
pub buddy_get_pages-Same : (o : ℕ) (s : MemRegion) → Same s (buddy_get_pages o s)
unfolding buddy_get_pages split_chunk
buddy_get_pages-Same o s =
    OnDone-if ((s.free_lists o).nr_free == 0)
      (OnDone-bind _ (split_loop-Same (buddy_max_order + 1) (o + 1) s)
        (λ (c, s') k. after_split-Same s s' k o c))
      (OnDone-bind _ (take_first-Same o (s.free_lists o).nodes s)
        (λ (p, s') k. hand_out-Same s s' k o p))

merge_loop-Same : (fuel c : ℕ) (s s' : MemRegion) → SameSlabs s s' → Same s (merge_loop fuel c s')
unfolding merge_loop join
merge_loop-Same zero c s s' k = stops
merge_loop-Same (suc fuel) c s s' k =
    let order = (s'.pages c).order in
    OnDone-if ((s'.free_lists order).nr_free == 0 || order == buddy_max_order - 1) (holds k)
      (elim (Option-cases (merge_pair (lower_chunk s' c order) c order)) [
        | inl e ↦ rw e (holds k)
        | inr ((low, buddy), e) ↦ rw e (
            OnDone-if ((s'.pages buddy).allocated == 1 || not ((s'.pages buddy).order == order))
              (holds k)
              (OnDone-if (page_in_list buddy (s'.free_lists order).nodes)
                (merge_loop-Same fuel low s (join order low buddy s')
                  (λ q. set_order-SameSlabs low (order + 1) s' q ∙ k q))
                stops))
      ])

-- The region that buddy_free_pages returns has the slab words of the one it was given.
pub buddy_free_pages-Same :
    (p : ℕ) (s : MemRegion) → OnDone (λ s'. SameSlabs s s') (buddy_free_pages p s)
unfolding buddy_free_pages merge_chunk
buddy_free_pages-Same p s =
    OnDone-bind _
      (merge_loop-Same buddy_max_order p s (set_allocated p 0 s) (set_allocated-SameSlabs p 0 s))
      (λ (c, s') k. holds k)
