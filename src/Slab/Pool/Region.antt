-- ===== src/Slab/Pool/Region.antt =====
-- The chunks of the slabs as the region changes: `page->slab` written, a chunk handed out.
use kingdo_micro_kernel.Prelude.{
  ℕ, ◌+◌, ◌≤◌, ◌<◌, ◌≡◌, ◌∙◌, ◌⊎◌, inl, inr, true, Option, some, arith, dec_lt,
}
use kingdo_micro_kernel.Buddy.{MemRegion}
use kingdo_micro_kernel.Buddy.Tiling.{IsTiled, InChunk-of, order_of, owned}
use kingdo_micro_kernel.Buddy.Get.{Granted}
use kingdo_micro_kernel.Buddy.Kept.{SameSlabs}
use kingdo_micro_kernel.Slab.Alloc.{Marks}
use kingdo_micro_kernel.Slab.Pool.{address, IsChunk, start}

-- The `slab` words do not matter to the buddy allocator.
pub Marks-IsTiled :
    {base n k page : ℕ} {head : ℕ → ℕ} {v : Option ℕ} {r r' : MemRegion}
    → Marks k page v r r'
    → IsTiled base n head n r
    → IsTiled base n head n r'
Marks-IsTiled {head} {r} {r'} m t = record {
  at = omega (arith, m.same_start, m.same_size, m.same_num, t.at);
  covers = λ q h.
      let k = t.covers q h in
      InChunk-of (order_of r (head q)) (m.same_order (head q)) k.above k.below k.small k.inside
        k.aligned;
  whole = λ q p h a b. t.whole q p h a (rw (m.same_order (head q)) at b);
  inner = λ q h ne. rw (m.same_allocated q) (t.inner q h ne);
  listed = λ o p h e.
      let f = t.listed o p h (rw m.same_lists at e) in
      record {
        in_region = f.in_region;
        is_head = f.is_head;
        order_eq = m.same_order p ∙ f.order_eq;
        unallocated = rw (m.same_allocated p) f.unallocated;
        not_loose = f.not_loose;
      };
  complete = λ p h is free ne.
      rw (m.same_lists, m.same_order p) (t.complete p h is (rw (m.same_allocated p) at free) ne);
  once = λ o h. rw m.same_lists (t.once o h);
  counted = λ o h. rw m.same_lists (t.counted o h);
}

module _ {base n p : ℕ} {head : ℕ → ℕ} {s r r' : MemRegion} (g : Granted base n s head 5 p r)
    (same : SameSlabs s r) (m : Marks 32 p (some (address base p)) r r') where
  pub tiled' : IsTiled base n g.head' n r'
  tiled' = Marks-IsTiled m g.tiled

  -- the chunk of the new slab
  pub new_chunk : IsChunk base n g.head' r' p
  new_chunk = record {
    inside = g.inside;
    is_head = g.is_head;
    order_eq = m.same_order p ∙ g.order_eq;
    own = m.same_allocated p ∙ ground (arith, g.now_owned p, g.is_head, g.inside);
    marked = m.marked;
  }

  -- that of a slab made before
  module _ (t : IsTiled base n head n s) (q : ℕ) (c : IsChunk base n head s q) where
    was_owned : (k : ℕ) → q ≤ k → k < q + 32 → owned s head k ≡ true
    was_owned k low high = ground (arith, start t c k low high, c.own)

    old_head : g.head' q ≡ q
    old_head =
        (g.same_chunk q (omega (arith, c.inside)) (was_owned q (omega arith) (omega arith))).0
        ∙ c.is_head

    pub not_new : (k : ℕ) → q ≤ k → k < q + 32 → (k < p) ⊎ (p + 32 ≤ k)
    not_new k low high = elim (dec_lt k p) [
      | yes below ↦ inl below
      | no above ↦ elim (dec_lt k (p + 32)) [
        | yes inside ↦
            absurd (ground (arith, g.was_free k (omega arith) inside, was_owned k low high))
        | no apart ↦ inr (omega arith)
      ]
    ]

    old_order : order_of r q ≡ 5
    old_order =
        let e =
          (g.same_chunk q (omega (arith, c.inside)) (was_owned q (omega arith) (omega arith))).1 in
        rw c.is_head at e ∙ c.order_eq

    pub old_chunk : IsChunk base n g.head' r' q
    old_chunk = record {
      inside = c.inside;
      is_head = old_head;
      order_eq = m.same_order q ∙ old_order;
      own = m.same_allocated q ∙ ground (arith, g.now_owned q, was_owned q, old_head, c.inside);
      marked = λ k low high. m.same_else k (not_new k low high) ∙ same k ∙ c.marked k low high;
    }
