-- ===== src/Slab/Pool/Emptied.antt =====
-- A slab that has all its blocks back, and its chunk as that is given to the buddy allocator.
use kingdo_micro_kernel.Prelude.{
  ℕ, zero, suc, ◌+◌, ◌-◌, ◌*◌, ◌^◌, ◌≤◌, ◌<◌, ◌≡◌, ◌≢◌, refl, ap, ◌∙◌, ◌⊎◌, inl, inr, true, ◌==◌,
  none, List, [], ◌∷◌, has, remove, length, length-remove, has_of_has-remove, has-remove_self,
  remove-NoDup, arith, ℕ_discrete, Bool-cases, NoDup, Run, done, OnDone, holds,
}
use kingdo_micro_kernel.Buddy.{MemRegion, buddy_free_pages}
use kingdo_micro_kernel.Buddy.Layout.{IsLayout}
use kingdo_micro_kernel.Buddy.Tiling.{IsTiled, order_of, allocated_of, owned}
use kingdo_micro_kernel.Buddy.Free.{Frees, Returned, returned, buddy_free_pages-Frees}
use kingdo_micro_kernel.Buddy.Kept.{SameSlabs, buddy_free_pages-Same}
use kingdo_micro_kernel.Slab.{SlabPool, set_slabs}
use kingdo_micro_kernel.Slab.Alloc.{Marks, set_slabs-Marks}
use kingdo_micro_kernel.Slab.Blocks.{IsBlock, IsSlab}
use kingdo_micro_kernel.Slab.Fresh.{total_at, some_blocks}
use kingdo_micro_kernel.Slab.Pool.{IsChunk, IsChunk-apart, order_at, count_at}
use kingdo_micro_kernel.Slab.Pool.Region.{Marks-IsTiled}

-- Distinct numbers among `s + size`, .., `s + k * size` are at most `k`.
length_bound :
    (s size k : ℕ) (l : List ℕ)
    → NoDup l
    → ((b : ℕ) → has b l ≡ true → (i : ℕ) × (0 < i) × (i ≤ k) × (b ≡ s + i * size))
    → length l ≤ k
length_bound s size zero [] d within = omega arith
length_bound s size zero (b ∷ l) d within = absurd (omega (arith, within b (ground arith)))
length_bound s size (suc k) l d within = elim (Bool-cases (has last l)) [
  | inl inside ↦
      let rest = length_bound s size k (remove last l) (remove-NoDup last l d) (λ b h.
        lower b (has_of_has-remove b last l h)
          (λ e. ground (arith, h, has-remove_self last l d, ap (λ b. has b (remove last l)) e))) in
      omega (arith, rest, length-remove last l inside)
  | inr out ↦
      let rest =
        length_bound s size k l d
          (λ b h. lower b h (λ e. ground (arith, h, out, ap (λ b. has b l) e))) in
      omega (arith, rest)
]
  where
    last : ℕ
    last = s + suc k * size

    lower : (b : ℕ) → has b l ≡ true → b ≢ last → (i : ℕ) × (0 < i) × (i ≤ k) × (b ≡ s + i * size)
    lower b h ne =
        let (i, pos, le, e) = within b h in
        elim (ℕ_discrete i (suc k)) [
          | yes same ↦ absurd (ne (e ∙ ap (λ (i : ℕ). s + i * size) same))
          | no other ↦ (i, pos, omega arith, e)
        ]

-- Where as many blocks are free as a slab has, but that of the header, every block is.
pub all_back :
    {s b : ℕ} {l : List ℕ} {st : SlabPool}
    → IsSlab s l st
    → count_at st s ≡ total_at (order_at st s) - 1
    → IsBlock s (2 ^ order_at st s) b
    → has b l ≡ true
all_back {s} {b} {l} {st} i full k = elim (Bool-cases (has b l)) [
  | inl inside ↦ inside
  | inr out ↦
      let size = 2 ^ order_at st s in
      let few =
        length_bound s size (total_at (order_at st s) - 1) (b ∷ l) (out, i.once)
          (λ c h.
            let j : IsBlock s size c = elim (Bool-cases (b == c)) [
              | inl same ↦ let e : b ≡ c = ground arith in rw (← e) k
              | inr other ↦ i.blocks c (ground (arith, other))
            ] in
            (j.index, j.not_header, omega (arith, j.inside), j.place)) in
      absurd (omega (arith, few, full, i.counted, some_blocks (order_at st s) i.order_in))
]

module _ {base n p : ℕ} {head : ℕ → ℕ} {r : MemRegion} (lay : IsLayout base n)
    (t : IsTiled base n head n r) (c : IsChunk base n head r p) where
  abbrev pub unmarked : MemRegion
  unmarked = set_slabs 32 p none r

  m : Marks 32 p none r unmarked
  m = set_slabs-Marks 32 p none r

  -- The chunk of another slab stays.
  module _ {r' : MemRegion} (f : Returned base n unmarked head p r') (same : SameSlabs unmarked r')
      (q : ℕ) (d : IsChunk base n head r q) (ne : p ≢ q) where
    still_owned : owned r' f.head' q ≡ true
    still_owned =
        let own : allocated_of unmarked (head q) ≡ 1 = rw d.is_head (m.same_allocated q ∙ d.own) in
        let order : order_of unmarked p ≡ 5 = m.same_order p ∙ c.order_eq in
        let apart = IsChunk-apart t c d ne in
        f.now_owned q (omega (arith, d.inside))
        ∙ rw (order, own)
            (elim apart [ inl above ↦ ground (arith, above) | inr below ↦ ground (arith, below) ])

    same_head : f.head' q ≡ q
    same_head = (f.same_chunk q (omega (arith, d.inside)) still_owned).0 ∙ d.is_head

    outside : (k : ℕ) → q ≤ k → k < q + 32 → (k < p) ⊎ (p + 32 ≤ k)
    outside k low high = elim (IsChunk-apart t c d ne) [
      | inl above ↦ inr (omega (arith, above))
      | inr below ↦ inl (omega (arith, below))
    ]

    kept_chunk : IsChunk base n f.head' r' q
    kept_chunk = record {
      inside = d.inside;
      is_head = same_head;
      order_eq =
          rw d.is_head at (f.same_chunk q (omega (arith, d.inside)) still_owned).1
          ∙ m.same_order q
          ∙ d.order_eq;
      own = ground (arith, rw same_head at still_owned);
      marked = λ k low high. same k ∙ m.same_else k (outside k low high) ∙ d.marked k low high;
    }

  pub Frees-chunk :
      (r' : MemRegion) × (buddy_free_pages p unmarked ≡ done r')
      × (head' : ℕ → ℕ) × IsTiled base n head' n r'
      × ((q : ℕ) → IsChunk base n head r q → p ≢ q → IsChunk base n head' r' q)
  Frees-chunk =
      of
        (buddy_free_pages-Frees (Marks-IsTiled m t) (omega (arith, c.inside)) c.is_head
          (m.same_allocated p ∙ c.own) lay)
        (buddy_free_pages-Same p unmarked)
    where
      of :
          {run : Run MemRegion}
          → Frees base n unmarked head p run
          → OnDone (λ r'. SameSlabs unmarked r') run
          → (r' : MemRegion) × (run ≡ done r')
            × (head' : ℕ → ℕ) × IsTiled base n head' n r'
            × ((q : ℕ) → IsChunk base n head r q → p ≢ q → IsChunk base n head' r' q)
      of (returned {s' = r'} f) (holds same) =
          (r', refl, f.head', f.tiled, λ q d ne. kept_chunk f same q d ne)
