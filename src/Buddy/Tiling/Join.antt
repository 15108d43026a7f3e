-- ===== src/Buddy/Tiling/Join.antt =====
-- `merge_chunk` joins a free chunk with its free buddy: the tiling after `join`.
use native.Mathlib.Nat.{add-mod_right}
use native.Mathlib.Numerals.{add-one}
use kingdo_micro_kernel.Prelude.{
  ℕ, suc, ◌+◌, ◌*◌, ◌%◌, ◌^◌, ◌≤◌, ◌<◌, ◌≡◌, sym, ap, subst, ◌≢◌, ◌⊎◌, inl, inr, refl, true, has,
  remove, length, NoDup, arith, ◌∙◌, dec_lt, ℕ_discrete, has-remove_ne, has-remove_self,
  has_of_has-remove, remove-NoDup, length-remove,
}
use kingdo_micro_kernel.Prelude.Arith.{two_pow_suc, two_pow_pos, aligned_le, aligned_gap}
use kingdo_micro_kernel.Buddy.{buddy_max_order, MemRegion, join}
use kingdo_micro_kernel.Buddy.Layout.{IsPair}
use kingdo_micro_kernel.Buddy.Tiling.{
  InChunk-of, IsTiled, InChunk, IsFree, Keeps, order_of, allocated_of, nodes_of, regroup, owned,
}

-- The buddy of a chunk begins a chunk itself, of the same order or a smaller one.
module _ {base n chunk o low buddy loose : ℕ} {head : ℕ → ℕ} {s : MemRegion}
    (t : IsTiled base n head loose s) (is_head : head chunk ≡ chunk)
    (order_eq : order_of s chunk ≡ o) (pair : IsPair base n chunk o low buddy) where
  buddy_in_region : buddy < n
  buddy_in_region = ground (arith, two_pow_pos o, pair.halves)

  pub head-buddy : head buddy ≡ buddy
  head-buddy = elim (dec_lt o k) [
    | yes big ↦ absurd (omega (arith, order_eq, ap (order_of s) (chunk_is big)))
    | no small ↦ elim (dec_lt h buddy) [
      | yes before ↦ absurd (
          omega (
            arith,
            c.below,
            aligned_gap (2 ^ k) (base + h) (base + buddy) (two_pow_pos k) c.aligned
                (aligned_le k o (base + buddy) (omega arith) pair.buddy_aligned) (omega arith),
          ))
      | no at ↦ omega (arith, c.above)
    ]
  ]
    where
      h : ℕ
      h = head buddy

      k : ℕ
      k = order_of s h

      c : InChunk base n s h buddy
      c = t.covers buddy buddy_in_region

      low_aligned : (base + low) % 2 ^ suc o ≡ 0
      low_aligned = rw (two_pow_suc o) pair.low_aligned

      low_le : low ≤ buddy
      low_le = ground (arith, pair.halves)

      low_lt : buddy < low + 2 ^ suc o
      low_lt = ground (arith, two_pow_suc o, two_pow_pos o, pair.halves)

      start : o < k → h ≤ low
      start big = elim (dec_lt low h) [
        | yes l ↦ absurd (
            omega (
              arith,
              c.above,
              low_lt,
              aligned_gap (2 ^ suc o) (base + low) (base + h) (two_pow_pos (suc o)) low_aligned
                  (aligned_le (suc o) k (base + h) (omega arith) c.aligned) (omega arith),
            ))
        | no l ↦ omega arith
      ]

      end_aligned : (base + h + 2 ^ k) % 2 ^ k ≡ 0
      end_aligned = rw add-mod_right c.aligned

      end : o < k → low + 2 ^ suc o ≤ h + 2 ^ k
      end big = omega (
        arith,
        aligned_gap (2 ^ suc o) (base + low) (base + h + 2 ^ k) (two_pow_pos (suc o)) low_aligned
            (aligned_le (suc o) k (base + h + 2 ^ k) (omega arith) end_aligned)
            (omega (arith, c.below, low_le)),
      )

      chunk_is : o < k → h ≡ chunk
      chunk_is big =
          sym (
            t.whole buddy chunk buddy_in_region (ground (arith, start big, pair.halves))
              (ground (arith, end big, two_pow_suc o, two_pow_pos o, pair.halves)))
          ∙ is_head

-- Where page `q` lies with respect to the two halves that are joined.
data Part (low half : ℕ) (head head' : ℕ → ℕ) (q : ℕ) : Type 0 where
  joined :
      low ≤ q
      → q < low + 2 * half
      → (head q ≡ low) ⊎ (head q ≡ low + half)
      → head' q ≡ low
      → Part low half head head' q
  away : head q ≢ low → head q ≢ low + half → head' q ≡ head q → Part low half head head' q

module _ {base n chunk o low buddy : ℕ} {head : ℕ → ℕ} {s : MemRegion}
    (t : IsTiled base n head chunk s) (small : o < 10) (is_head : head chunk ≡ chunk)
    (order_chunk : order_of s chunk ≡ o) (order_buddy : order_of s buddy ≡ o)
    (free_chunk : allocated_of s chunk ≢ 1) (free_buddy : allocated_of s buddy ≢ 1)
    (pair : IsPair base n chunk o low buddy) where
  abbrev merged : ℕ → ℕ
  merged = regroup low (2 * 2 ^ o) head

  abbrev result : MemRegion
  result = join o low buddy s

  -- both halves begin free chunks of order `o`
  record IsHalf (h : ℕ) : Type 0 where
    at_head : head h ≡ h
    in_region : h < n
    order_eq : order_of s h ≡ o
    free : allocated_of s h ≢ 1

  IsHalf-chunk : IsHalf chunk
  IsHalf-chunk = record {
    at_head = is_head;
    in_region = ground (arith, two_pow_pos o, pair.in_range, pair.halves);
    order_eq = order_chunk;
    free = free_chunk;
  }

  IsHalf-buddy : IsHalf buddy
  IsHalf-buddy = record {
    at_head = head-buddy t is_head order_chunk pair;
    in_region = ground (arith, two_pow_pos o, pair.in_range, pair.halves);
    order_eq = order_buddy;
    free = free_buddy;
  }

  IsHalf-low : IsHalf low
  IsHalf-low = elim pair.halves [
    | inl (e, f) ↦ rw (← e) IsHalf-chunk
    | inr (e, f) ↦ rw (← e) IsHalf-buddy
  ]

  IsHalf-up : IsHalf (low + 2 ^ o)
  IsHalf-up = elim pair.halves [
    | inl (e, f) ↦ rw (← f) IsHalf-buddy
    | inr (e, f) ↦ rw (← f) IsHalf-chunk
  ]

  pub low_begins : (low < n) × (merged low ≡ low) × (allocated_of s low ≢ 1)
  unfolding regroup
  low_begins = (IsHalf-low.in_region, ground (arith, two_pow_pos o), IsHalf-low.free)

  inside : (h r : ℕ) → IsHalf h → h ≤ r → r < h + 2 ^ o → head r ≡ h
  inside h r f above below =
      t.whole h r f.in_region (rw f.at_head above) (rw (f.at_head, f.order_eq) below) ∙ f.at_head

  span : (h q : ℕ) → IsHalf h → q < n → head q ≡ h → (h ≤ q) × (q < h + 2 ^ o)
  span h q f lt e =
      let c : InChunk base n s h q = rw e at (t.covers q lt) in (c.above, rw f.order_eq at c.below)

  part : (q : ℕ) → q < n → Part low (2 ^ o) head merged q
  unfolding regroup
  part q h = elim (ℕ_discrete (head q) low) [
    | yes e ↦
        joined (omega (arith, span low q IsHalf-low h e)) (omega (arith, span low q IsHalf-low h e))
          (inl e) (ground (arith, span low q IsHalf-low h e))
    | no ne ↦ elim (ℕ_discrete (head q) (low + 2 ^ o)) [
      | yes e ↦
          joined (omega (arith, span (low + 2 ^ o) q IsHalf-up h e))
            (omega (arith, span (low + 2 ^ o) q IsHalf-up h e)) (inr e)
            (ground (arith, span (low + 2 ^ o) q IsHalf-up h e))
      | no nu ↦
          away ne nu (ground (arith, inside low q IsHalf-low, inside (low + 2 ^ o) q IsHalf-up))
    ]
  ]

  pub allocated-join : (p : ℕ) → allocated_of result p ≡ allocated_of s p
  unfolding join
  allocated-join p = ground arith

  order-join_ne : (p : ℕ) → p ≢ low → order_of result p ≡ order_of s p
  unfolding join
  order-join_ne p ne = ground arith

  pub order-join_low : order_of result low ≡ o + 1
  unfolding join
  order-join_low = ground arith

  size : 2 ^ (o + 1) ≡ 2 * 2 ^ o
  size = rw add-one (two_pow_suc o)

  covers-Part :
      (q : ℕ) → q < n → Part low (2 ^ o) head merged q → InChunk base n result (merged q) q
  covers-Part q h (joined a b e e') = rw e' (
      InChunk-of (o + 1) order-join_low a (rw size b) (omega arith) (rw size pair.in_range)
        (rw size pair.low_aligned))
  covers-Part q h (away l u e') =
      let c = t.covers q h in
      rw e' (
        InChunk-of (order_of s (head q)) (order-join_ne (head q) l) c.above c.below c.small c.inside
          c.aligned)

  whole-Part :
      (q r : ℕ)
      → q < n
      → Part low (2 ^ o) head merged q
      → merged q ≤ r
      → r < merged q + 2 ^ order_of result (merged q)
      → merged r ≡ merged q
  whole-Part q r h (joined a b e e') l u =
      let l' : low ≤ r = rw e' at l in
      let u' : r < low + 2 * 2 ^ o = rw (e', order-join_low, size) at u in
      rw e' (unfold regroup in (ground arith))
  whole-Part q r h (away ne nu e') l u =
      let same = t.whole q r h (rw e' at l) (rw (e', order-join_ne (head q) ne) at u) in
      rw e' (
        unfold regroup in
        (ground (arith, same, inside low r IsHalf-low, inside (low + 2 ^ o) r IsHalf-up)))

  inner-Part :
      (q : ℕ) → q < n → Part low (2 ^ o) head merged q → merged q ≢ q → allocated_of s q ≢ 1
  inner-Part q h (joined a b e e') ne = elim (ℕ_discrete (head q) q) [
    | yes f ↦ elim e [
      | inl l ↦ absurd (ne (e' ∙ sym l ∙ f))
      | inr u ↦ rw (sym f ∙ u) IsHalf-up.free
    ]
    | no f ↦ t.inner q h f
  ]
  inner-Part q h (away l u e') ne = t.inner q h (omega arith)

  stays-IsFree :
      (o' p : ℕ) → p ≢ buddy → IsFree n head chunk s o' p → IsFree n merged low result o' p
  stays-IsFree o' p ne f = go (part p f.in_region)
    where
      not_half : (head p ≡ low) ⊎ (head p ≡ low + 2 ^ o) → ⊥
      not_half e = ground (arith, e, f.not_loose, f.is_head, pair.halves)

      go : Part low (2 ^ o) head merged p → IsFree n merged low result o' p
      go (joined a b e e') = absurd (not_half e)
      go (away l u e') = record {
        in_region = f.in_region;
        is_head = e' ∙ f.is_head;
        order_eq = order-join_ne p (rw f.is_head at l) ∙ f.order_eq;
        unallocated = rw (allocated-join p) f.unallocated;
        not_loose = rw f.is_head at l;
      }

  nodes-join : nodes_of result o ≡ remove buddy (nodes_of s o)
  unfolding join
  nodes-join = ground arith

  nodes-join_at :
      (o' p : ℕ) → o ≡ o' → has p (nodes_of result o') ≡ has p (remove buddy (nodes_of s o))
  unfolding join
  nodes-join_at o' p e = ground arith

  nodes-join_ne : (o' : ℕ) → o ≢ o' → nodes_of result o' ≡ nodes_of s o'
  unfolding join
  nodes-join_ne o' ne = ground arith

  listed_part :
      (o' p : ℕ)
      → o' < buddy_max_order
      → has p (nodes_of result o') ≡ true
      → IsFree n merged low result o' p
  listed_part o' p lt h = elim (ℕ_discrete o o') [
    | yes e ↦
        let h' : has p (remove buddy (nodes_of s o)) ≡ true = sym (nodes-join_at o' p e) ∙ h in
        let f : IsFree n head chunk s o p =
          t.listed o p (omega arith) (has_of_has-remove p buddy (nodes_of s o) h') in
        let g : IsFree n merged low result o p = stays-IsFree o p (removed h') f in
        subst (λ k. IsFree n merged low result k p) e g
    | no ne ↦
        let f : IsFree n head chunk s o' p = t.listed o' p lt (rw (nodes-join_ne o' ne) at h) in
        stays-IsFree o' p (λ e. ne (sym order_buddy ∙ ap (order_of s) (sym e) ∙ f.order_eq)) f
  ]
    where
      removed : has p (remove buddy (nodes_of s o)) ≡ true → p ≢ buddy
      removed h' e =
          ground (arith, e, h', has-remove_self buddy (nodes_of s o) (t.once o (omega arith)))

  complete-Part :
      (p : ℕ)
      → p < n
      → Part low (2 ^ o) head merged p
      → merged p ≡ p
      → allocated_of s p ≢ 1
      → p ≢ low
      → has p (nodes_of result (order_of result p)) ≡ true
  complete-Part p h (joined a b e e') is free ne = absurd (ne (sym is ∙ e'))
  complete-Part p h (away l u e') is free ne =
      let e'' : head p ≡ p = sym e' ∙ is in
      let (nc, nb) = not_half (rw e'' at l) (rw e'' at u) in
      let old = t.complete p h e'' free nc in
      rw (order-join_ne p ne) (elim (ℕ_discrete o (order_of s p)) [
        | yes eo ↦
            nodes-join_at (order_of s p) p eo
            ∙ has-remove_ne buddy p (nodes_of s o) (λ e. nb (sym e))
            ∙ subst (λ k. has p (nodes_of s k) ≡ true) (sym eo) old
        | no no_eo ↦ rw (nodes-join_ne (order_of s p) no_eo) old
      ])
    where
      not_half : p ≢ low → p ≢ low + 2 ^ o → (p ≢ chunk) × (p ≢ buddy)
      not_half l u = ground (arith, pair.halves)

  once_part : (o' : ℕ) → o' < buddy_max_order → NoDup (nodes_of result o')
  once_part o' lt = elim (ℕ_discrete o o') [
    | yes e ↦
        subst (λ k. NoDup (nodes_of result k)) e
          (rw nodes-join (remove-NoDup buddy (nodes_of s o) (t.once o (omega arith))))
    | no ne ↦ rw (nodes-join_ne o' ne) (t.once o' lt)
  ]

  pub buddy_listed : has buddy (nodes_of s o) ≡ true
  buddy_listed =
      subst (λ k. has buddy (nodes_of s k) ≡ true) order_buddy
        (t.complete buddy IsHalf-buddy.in_region IsHalf-buddy.at_head free_buddy
          (ground (arith, two_pow_pos o, pair.halves)))

  counted_part :
      (o' : ℕ) → o' < buddy_max_order → (result.free_lists o').nr_free ≡ length (nodes_of result o')
  unfolding join
  counted_part o' lt =
      ground (arith, t.counted o' lt, length-remove buddy (nodes_of s o) buddy_listed)

  -- Joining the loose chunk with its free buddy keeps the tiling; the joined chunk is the loose one.
  pub join-IsTiled : IsTiled base n merged low result
  join-IsTiled = record {
    at = record {
      at_start = unfold join in t.at.at_start;
      at_size = unfold join in t.at.at_size;
      at_num = unfold join in t.at.at_num;
    };
    covers = λ q h. covers-Part q h (part q h);
    whole = λ q r h. whole-Part q r h (part q h);
    inner = λ q h ne. rw (allocated-join q) (inner-Part q h (part q h) ne);
    listed = listed_part;
    complete = λ p h is free. complete-Part p h (part p h) is (rw (allocated-join p) at free);
    once = once_part;
    counted = counted_part;
  }

  keeps_Part :
      (q : ℕ)
      → q < n
      → Part low (2 ^ o) head merged q
      → (owned result merged q ≡ owned s head q)
        × (owned s head q ≡ true
            → (merged q ≡ head q) × (order_of result (head q) ≡ order_of s (head q)))
  keeps_Part q h (joined a b (inl e) e') =
      rw (allocated-join (merged q), e, e')
        (ground (arith, IsHalf-low.free), λ own. absurd (ground (arith, IsHalf-low.free)))
  keeps_Part q h (joined a b (inr e) e') =
      rw (allocated-join (merged q), e, e')
        (
          ground (arith, IsHalf-low.free, IsHalf-up.free),
          λ own. absurd (ground (arith, IsHalf-up.free)),
        )
  keeps_Part q h (away l u e') =
      rw (allocated-join (merged q), e') (refl, λ own. (refl, order-join_ne (head q) l))

  pub join-Keeps : Keeps n s head result merged
  join-Keeps = record {
    same_owned = λ q h. (keeps_Part q h (part q h)).0;
    same_head = λ q h own. ((keeps_Part q h (part q h)).1 own).0;
    same_order = λ q h own. ((keeps_Part q h (part q h)).1 own).1;
  }
