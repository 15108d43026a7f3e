-- ===== src/Buddy/Tiling/Moves.antt =====
-- A chunk leaves its free list, enters one, is marked as handed out or as given back: the tiles stay
-- as they are.
use kingdo_micro_kernel.Prelude.{
  ℕ, ◌<◌, ◌≡◌, ◌≢◌, sym, ap, subst, ◌∙◌, refl, true, false, List, ◌∷◌, ◌&&◌, ◌==◌, ◌+◌, ◌^◌, inl,
  inr, has, arith, Bool-cases, ℕ_discrete, has-remove_ne, has-remove_self, has_of_has-remove,
  remove-NoDup, length-remove,
}
use kingdo_micro_kernel.Buddy.{buddy_max_order, MemRegion, add_free, del_free, set_allocated}
use kingdo_micro_kernel.Buddy.Tiling.{IsTiled, InChunk-of, IsFree, order_of, allocated_of, nodes_of}

module _ {base n o p : ℕ} {head : ℕ → ℕ} {s : MemRegion} (lt : o < buddy_max_order) where
  -- The first page of a list, off its list, is the loose chunk.
  pub del_free-IsTiled :
      (rest : List ℕ)
      → IsTiled base n head n s
      → nodes_of s o ≡ p ∷ rest
      → IsFree n head n s o p × IsTiled base n head p (del_free o p s)
  del_free-IsTiled rest t e = (
    f,
    record {
      at = record { at_start = t.at.at_start; at_size = t.at.at_size; at_num = t.at.at_num };
      covers = λ q h.
          let c = t.covers q h in
          InChunk-of (order_of s (head q)) refl c.above c.below c.small c.inside c.aligned;
      whole = t.whole;
      inner = t.inner;
      listed = λ o' q l h. listed_part o' q l h;
      complete = λ q h is free ne.
          ground (arith, t.complete q h is free (omega arith), has-remove_ne p q (nodes_of s o));
      once = λ o' l. ground (arith, t.once o' l, remove-NoDup p (nodes_of s o));
      counted = λ o' l. ground (arith, t.counted o' l, here, length-remove p (nodes_of s o));
    },
  )
    where
      here : has p (nodes_of s o) ≡ true
      here = rw e (ground arith)

      f : IsFree n head n s o p
      f = t.listed o p lt here

      was :
          (o' q : ℕ)
          → has q (nodes_of (del_free o p s) o') ≡ true
          → (has q (nodes_of s o') ≡ true) × (o ≡ o' → q ≢ p)
      was o' q h = (
        ground (arith, has_of_has-remove q p (nodes_of s o)),
        λ e e'. ground (arith, e, e', h, has-remove_self p (nodes_of s o) (t.once o lt)),
      )

      listed_part :
          (o' q : ℕ)
          → o' < buddy_max_order
          → has q (nodes_of (del_free o p s) o') ≡ true
          → IsFree n head p (del_free o p s) o' q
      listed_part o' q l h =
          let (old, ne) = was o' q h in
          let g = t.listed o' q l old in
          record {
            in_region = g.in_region;
            is_head = g.is_head;
            order_eq = g.order_eq;
            unallocated = g.unallocated;
            not_loose = λ e. ne (sym f.order_eq ∙ ap (order_of s) (sym e) ∙ g.order_eq) e;
          }

order-set_allocated :
    (c a : ℕ) (s : MemRegion) (p : ℕ) → order_of (set_allocated c a s) p ≡ order_of s p
order-set_allocated c a s p = ground arith

module _ {base n c : ℕ} {head : ℕ → ℕ} {s : MemRegion} where
  -- The loose chunk enters the list of its order.
  pub add_free-IsTiled :
      {o : ℕ}
      → IsTiled base n head c s
      → c < n
      → head c ≡ c
      → order_of s c ≡ o
      → o < buddy_max_order
      → allocated_of s c ≢ 1
      → IsTiled base n head n (add_free o c s)
  add_free-IsTiled {o} t h is e lt free = record {
    at = record { at_start = t.at.at_start; at_size = t.at.at_size; at_num = t.at.at_num };
    covers = λ q h.
        let c = t.covers q h in
        InChunk-of (order_of s (head q)) refl c.above c.below c.small c.inside c.aligned;
    whole = t.whole;
    inner = t.inner;
    listed = listed_part;
    complete = λ q h is free _. elim (ℕ_discrete c q) [
      | yes same ↦ ground arith
      | no ne ↦ ground (arith, t.complete q h is free (λ e. ne (sym e)))
    ];
    once = λ o' l. ground (arith, t.once o' l, fresh);
    counted = λ o' l. ground (arith, t.counted o' l);
  }
    where
      fresh : has c (nodes_of s o) ≡ false
      fresh = elim (Bool-cases (has c (nodes_of s o))) [
        | inl in_list ↦ absurd ((t.listed o c lt in_list).not_loose refl)
        | inr out ↦ out
      ]

      listed_part :
          (o' q : ℕ)
          → o' < buddy_max_order
          → has q (nodes_of (add_free o c s) o') ≡ true
          → IsFree n head n (add_free o c s) o' q
      listed_part o' q l g = elim (Bool-cases ((o == o') && (c == q))) [
        | inl new ↦ record {
          in_region = ground (arith, h);
          is_head = ground (arith, is);
          order_eq = ground (arith, e);
          unallocated = ground (arith, free);
          not_loose = ground (arith, h);
        }
        | inr old ↦
            let f = t.listed o' q l (ground arith) in
            record {
              in_region = f.in_region;
              is_head = f.is_head;
              order_eq = f.order_eq;
              unallocated = f.unallocated;
              not_loose = omega (arith, f.in_region);
            }
      ]

  -- The loose chunk is handed out.
  pub mark-IsTiled :
      IsTiled base n head c s → c < n → head c ≡ c → IsTiled base n head n (set_allocated c 1 s)
  mark-IsTiled t h is = record {
    at = record { at_start = t.at.at_start; at_size = t.at.at_size; at_num = t.at.at_num };
    covers = λ q h.
        let k = t.covers q h in
        InChunk-of (order_of s (head q)) (ground arith) k.above k.below k.small k.inside k.aligned;
    whole = λ q r h a b.
        t.whole q r h a (subst (λ k. r < head q + 2 ^ k) (order-set_allocated c 1 s (head q)) b);
    inner = λ q h ne. ground (arith, t.inner q h ne);
    listed = λ o' q l h.
        let f = t.listed o' q l h in
        record {
          in_region = f.in_region;
          is_head = f.is_head;
          order_eq = order-set_allocated c 1 s q ∙ f.order_eq;
          unallocated = ground (arith, f.unallocated, f.not_loose);
          not_loose = ground (arith, f.in_region, f.unallocated);
        };
    complete = λ q h is free ne.
        subst (λ k. has q (nodes_of s k) ≡ true) (sym (order-set_allocated c 1 s q))
          (t.complete q h is (ground arith) (ground arith));
    once = t.once;
    counted = t.counted;
  }

  -- A chunk that was handed out is the loose one.
  pub unmark-IsTiled :
      IsTiled base n head n s
      → c < n
      → head c ≡ c
      → allocated_of s c ≡ 1
      → IsTiled base n head c (set_allocated c 0 s)
  unmark-IsTiled t h is own = record {
    at = record { at_start = t.at.at_start; at_size = t.at.at_size; at_num = t.at.at_num };
    covers = λ q h.
        let k = t.covers q h in
        InChunk-of (order_of s (head q)) (ground arith) k.above k.below k.small k.inside k.aligned;
    whole = λ q r h a b.
        t.whole q r h a (subst (λ k. r < head q + 2 ^ k) (order-set_allocated c 0 s (head q)) b);
    inner = λ q h ne. ground (arith, t.inner q h ne);
    listed = λ o' q l h.
        let f = t.listed o' q l h in
        record {
          in_region = f.in_region;
          is_head = f.is_head;
          order_eq = order-set_allocated c 0 s q ∙ f.order_eq;
          unallocated = ground (arith, f.unallocated, f.not_loose);
          not_loose = ground (arith, f.in_region, f.unallocated);
        };
    complete = λ q h is free ne.
        subst (λ k. has q (nodes_of s k) ≡ true) (sym (order-set_allocated c 0 s q))
          (t.complete q h is (ground arith) (omega arith));
    once = t.once;
    counted = t.counted;
  }
