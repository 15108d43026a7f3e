-- ===== src/Buddy/Init/Fill.antt =====
-- One chunk more: the region while it is being filled.
use kingdo_micro_kernel.Prelude.{
  ℕ, ◌+◌, ◌%◌, ◌^◌, ◌≤◌, ◌<◌, ◌≡◌, ◌≢◌, ◌⊎◌, inl, inr, sym, ap, ◌∙◌, true, false, ◌||◌, ◌&&◌, ◌==◌,
  has, length, NoDup, arith, Bool-cases, dec_lt,
}
use kingdo_micro_kernel.Prelude.Arith.{two_pow_pos}
use kingdo_micro_kernel.Buddy.{buddy_max_order, MemRegion}
use kingdo_micro_kernel.Buddy.Init.{put_chunk}
use kingdo_micro_kernel.Buddy.Layout.{IsAt}
use kingdo_micro_kernel.Buddy.Tiling.{
  IsTiled, InChunk, InChunk-of, IsFree, order_of, allocated_of, nodes_of, regroup,
}

-- The pages from `lo` to `hi` are tiled by free chunks that are listed; the others are single pages
-- of order 0 on no list.
pub record IsFilled (base n : ℕ) (head : ℕ → ℕ) (lo hi : ℕ) (s : MemRegion) : Type 0 where
  pub at : IsAt base n s
  pub covers : (q : ℕ) → q < n → InChunk base n s (head q) q
  pub whole :
      (q r : ℕ) → q < n → head q ≤ r → r < head q + 2 ^ order_of s (head q) → head r ≡ head q
  pub free : (q : ℕ) → q < n → allocated_of s q ≢ 1
  pub single : (q : ℕ) → q < n → (q < lo) ⊎ (hi ≤ q) → (head q ≡ q) × (order_of s q ≡ 0)
  pub listed :
      (o p : ℕ)
      → o < buddy_max_order
      → has p (nodes_of s o) ≡ true
      → IsFree n head n s o p × (lo ≤ p) × (p < hi)
  pub complete :
      (p : ℕ) → lo ≤ p → p < hi → p < n → head p ≡ p → has p (nodes_of s (order_of s p)) ≡ true
  pub once : (o : ℕ) → o < buddy_max_order → NoDup (nodes_of s o)
  pub counted : (o : ℕ) → o < buddy_max_order → (s.free_lists o).nr_free ≡ length (nodes_of s o)

pub IsFilled-IsTiled :
    {base n : ℕ} {head : ℕ → ℕ} {s : MemRegion}
    → IsFilled base n head 0 n s
    → IsTiled base n head n s
IsFilled-IsTiled f = record {
  at = f.at;
  covers = f.covers;
  whole = f.whole;
  inner = λ q h ne. f.free q h;
  listed = λ o p lt h. (f.listed o p lt h).0;
  complete = λ p h is free ne. f.complete p (omega arith) h h is;
  once = f.once;
  counted = f.counted;
}

module _ {base n lo hi o p : ℕ} {head : ℕ → ℕ} {s : MemRegion} (f : IsFilled base n head lo hi s)
    (small : o < buddy_max_order) (room : p + 2 ^ o ≤ n) (aligned : (base + p) % 2 ^ o ≡ 0)
    (out : (q : ℕ) → p ≤ q → q < p + 2 ^ o → (q < lo) ⊎ (hi ≤ q)) where
  abbrev grown : ℕ → ℕ
  grown = regroup p (2 ^ o) head

  abbrev result : MemRegion
  result = put_chunk o p s

  abbrev InBlock : ℕ → Type 0
  InBlock q = (p ≤ q) × (q < p + 2 ^ o)

  block_cases : (q : ℕ) → InBlock q ⊎ ((q < p) ⊎ (p + 2 ^ o ≤ q))
  block_cases q = elim (dec_lt q p) [
    | yes below ↦ inr (inl below)
    | no l ↦ elim (dec_lt q (p + 2 ^ o)) [
      | yes u ↦ inl (omega arith, u)
      | no above ↦ inr (inr (omega arith))
    ]
  ]

  grown-in : (q : ℕ) → InBlock q → grown q ≡ p
  unfolding regroup
  grown-in q b = ground arith

  grown-out : (q : ℕ) → (q < p) ⊎ (p + 2 ^ o ≤ q) → grown q ≡ head q
  unfolding regroup
  grown-out q b = ground arith

  -- a page outside the block lies in a chunk that begins outside it
  head-out : (q : ℕ) → q < n → (q < p) ⊎ (p + 2 ^ o ≤ q) → (head q < p) ⊎ (p + 2 ^ o ≤ head q)
  head-out q h b = elim (block_cases (head q)) [
    | inr away ↦ away
    | inl (l, u) ↦
        let c = f.covers q h in
        let one = f.single (head q) (omega arith) (out (head q) l u) in
        absurd (omega (arith, c.above, c.below, one, b, ap (λ (k : ℕ). 2 ^ k) one.1))
  ]

  order-result : order_of result p ≡ o
  unfolding put_chunk
  order-result = ground arith

  order-result_ne : (q : ℕ) → q ≢ p → order_of result q ≡ order_of s q
  unfolding put_chunk
  order-result_ne q ne = ground arith

  free-result : (q : ℕ) → allocated_of s q ≢ 1 → allocated_of result q ≢ 1
  unfolding put_chunk
  free-result q ne = ground arith

  in_room : (q : ℕ) → InBlock q → q < n
  in_room q b = omega arith

  covers_result : (q : ℕ) → q < n → InChunk base n result (grown q) q
  covers_result q h = elim (block_cases q) [
    | inl b ↦ rw (grown-in q b) (InChunk-of o order-result b.0 b.1 small room aligned)
    | inr b ↦
        let c = f.covers q h in
        let e = order-result_ne (head q) (omega (arith, head-out q h b, two_pow_pos o)) in
        rw (grown-out q b)
          (InChunk-of (order_of s (head q)) e c.above c.below c.small c.inside c.aligned)
  ]

  whole_out :
      (q r : ℕ)
      → q < n
      → (q < p) ⊎ (p + 2 ^ o ≤ q)
      → head q ≤ r
      → r < head q + 2 ^ order_of s (head q)
      → grown r ≡ head q
  whole_out q r h b l u =
      let e = f.whole q r h l u in
      elim (block_cases r) [
        | inl in_b ↦
            let one = f.single r (in_room r in_b) (out r in_b.0 in_b.1) in
            absurd (omega (arith, e, one.0, head-out q h b))
        | inr away ↦ grown-out r away ∙ e
      ]

  whole_result :
      (q r : ℕ)
      → q < n
      → grown q ≤ r
      → r < grown q + 2 ^ order_of result (grown q)
      → grown r ≡ grown q
  whole_result q r h l u = elim (block_cases q) [
    | inl b ↦
        let l' : p ≤ r = rw (grown-in q b) at l in
        let u' : r < p + 2 ^ o = rw (grown-in q b, order-result) at u in
        grown-in r (l', u') ∙ sym (grown-in q b)
    | inr b ↦
        let e = order-result_ne (head q) (omega (arith, head-out q h b, two_pow_pos o)) in
        whole_out q r h b (rw (grown-out q b) at l) (rw (grown-out q b, e) at u)
        ∙ sym (grown-out q b)
  ]

  IsFree-result : IsFree n grown n result o p
  IsFree-result = record {
    in_region = omega (arith, two_pow_pos o);
    is_head = grown-in p (omega arith, omega (arith, two_pow_pos o));
    order_eq = order-result;
    unallocated = free-result p (f.free p (omega (arith, two_pow_pos o)));
    not_loose = omega (arith, two_pow_pos o);
  }

  listed_out :
      (o' q : ℕ)
      → o' < buddy_max_order
      → has q (nodes_of s o') ≡ true
      → IsFree n grown n result o' q × (lo ≤ q) × (q < hi)
  listed_out o' q lt h =
      let (g, a, b) = f.listed o' q lt h in
      elim (block_cases q) [
        | inl in_b ↦ absurd (omega (arith, out q in_b.0 in_b.1))
        | inr away ↦ (
          record {
            in_region = g.in_region;
            is_head = grown-out q away ∙ g.is_head;
            order_eq = order-result_ne q (omega (arith, two_pow_pos o)) ∙ g.order_eq;
            unallocated = free-result q g.unallocated;
            not_loose = g.not_loose;
          },
          a,
          b,
        )
      ]

  has-result :
      (o' q : ℕ) → has q (nodes_of result o') ≡ ((o == o' && p == q) || has q (nodes_of s o'))
  unfolding put_chunk
  has-result o' q = ground arith

  module _ (lo' hi' : ℕ) (lo_le : lo' ≤ lo) (hi_le : hi ≤ hi')
      (with_p : (lo' ≤ p) × (p + 2 ^ o ≤ hi'))
      (exact : (q : ℕ) → lo' ≤ q → q < hi' → InBlock q ⊎ ((lo ≤ q) × (q < hi))) where
    listed_result :
        (o' q : ℕ)
        → o' < buddy_max_order
        → has q (nodes_of result o') ≡ true
        → IsFree n grown n result o' q × (lo' ≤ q) × (q < hi')
    listed_result o' q lt h = elim (Bool-cases (o == o' && p == q)) [
      | inl new ↦
          let eo : o ≡ o' = ground arith in
          let ep : p ≡ q = ground arith in
          rw (← eo, ← ep) (IsFree-result, with_p.0, omega (arith, two_pow_pos o))
      | inr old ↦
          let (g, a, b) = listed_out o' q lt (ground (arith, has-result o' q)) in
          (g, omega arith, omega arith)
    ]

    complete_result :
        (q : ℕ)
        → lo' ≤ q
        → q < hi'
        → q < n
        → grown q ≡ q
        → has q (nodes_of result (order_of result q)) ≡ true
    complete_result q l u h is = elim (block_cases q) [
      | inl b ↦
          let e : p ≡ q = sym (grown-in q b) ∙ is in
          rw (← e, order-result, has-result o p) (ground arith)
      | inr away ↦
          let old =
            f.complete q (ground (arith, exact q l u)) (ground (arith, exact q l u)) h
              (sym (grown-out q away) ∙ is) in
          rw (order-result_ne q (omega (arith, two_pow_pos o)), has-result (order_of s q) q)
            (ground arith)
    ]

    fresh : has p (nodes_of s o) ≡ false
    fresh = elim (Bool-cases (has p (nodes_of s o))) [
      | inl e ↦
          absurd (
            omega (arith, f.listed o p small e, out p (omega arith) (omega (arith, two_pow_pos o))))
      | inr e ↦ e
    ]

    once_result : (o' : ℕ) → o' < buddy_max_order → NoDup (nodes_of result o')
    unfolding put_chunk
    once_result o' lt = ground (arith, f.once o' lt, fresh)

    counted_result :
        (o' : ℕ)
        → o' < buddy_max_order
        → (result.free_lists o').nr_free ≡ length (nodes_of result o')
    unfolding put_chunk
    counted_result o' lt = ground (arith, f.counted o' lt)

    single_result :
        (q : ℕ) → q < n → (q < lo') ⊎ (hi' ≤ q) → (grown q ≡ q) × (order_of result q ≡ 0)
    single_result q h b =
        let away : (q < p) ⊎ (p + 2 ^ o ≤ q) = ground (arith, b, with_p) in
        let one = f.single q h (ground (arith, b)) in
        (grown-out q away ∙ one.0, order-result_ne q (omega (arith, two_pow_pos o)) ∙ one.1)

    pub put_chunk-IsFilled : IsFilled base n grown lo' hi' result
    put_chunk-IsFilled = record {
      at =
          unfold put_chunk in
          (record { at_start = f.at.at_start; at_size = f.at.at_size; at_num = f.at.at_num });
      covers = covers_result;
      whole = whole_result;
      free = λ q h. free-result q (f.free q h);
      single = single_result;
      listed = listed_result;
      complete = complete_result;
      once = once_result;
      counted = counted_result;
    }
