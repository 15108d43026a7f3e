-- ===== src/Buddy/Tiling/Split.antt =====
-- `split_chunk` cuts a free chunk in two: the tiling after `halve`.
use native.Mathlib.Nat.{add_assoc, add-mod_right}
use kingdo_micro_kernel.Prelude.{
  ℕ, suc, ◌+◌, ◌*◌, ◌%◌, ◌^◌, ◌≤◌, ◌<◌, ◌≡◌, sym, ap, ◌≢◌, inl, inr, refl, true, false, has, arith,
  ◌∙◌, dec_lt, ℕ_discrete, Bool-cases,
}
use kingdo_micro_kernel.Prelude.Arith.{two_pow_suc, two_pow_pos, aligned_half}
use kingdo_micro_kernel.Buddy.{buddy_max_order, MemRegion, add_free, set_order}
use kingdo_micro_kernel.Buddy.Tiling.{
  InChunk-of, head_head, IsTiled, InChunk, IsFree, Keeps, order_of, allocated_of, nodes_of, regroup,
  owned,
}

-- The state after the cut of `chunk` into two chunks of order `o`.
abbrev pub halved : ℕ → ℕ → MemRegion → MemRegion
halved o chunk s = add_free o (chunk + 2 ^ o) (set_order (chunk + 2 ^ o) o (set_order chunk o s))

-- Where page `q` lies with respect to the cut of the chunk that begins at `chunk`.
data Part (chunk half : ℕ) (head head' : ℕ → ℕ) (q : ℕ) : Type 0 where
  upper :
      chunk + half ≤ q
      → q < chunk + 2 * half
      → head q ≡ chunk
      → head' q ≡ chunk + half
      → Part chunk half head head' q
  lower :
      chunk ≤ q → q < chunk + half → head q ≡ chunk → head' q ≡ chunk → Part chunk half head head' q
  away : head q ≢ chunk → head q ≢ chunk + half → head' q ≡ head q → Part chunk half head head' q

module _ {base n chunk o : ℕ} {head : ℕ → ℕ} {s : MemRegion} (t : IsTiled base n head chunk s)
    (in_region : chunk < n) (is_head : head chunk ≡ chunk) (big : order_of s chunk ≡ suc o)
    (unallocated : allocated_of s chunk ≢ 1) where
  abbrev cut : ℕ → ℕ
  cut = regroup (chunk + 2 ^ o) (2 ^ o) head

  size : 2 ^ order_of s chunk ≡ 2 * 2 ^ o
  size = rw big (two_pow_suc o)

  -- what the tiling says of the chunk itself
  bounds : (o < 10) × (chunk + 2 * 2 ^ o ≤ n) × ((base + chunk) % (2 * 2 ^ o) ≡ 0)
  bounds =
      let c : InChunk base n s chunk chunk = rw is_head at (t.covers chunk in_region) in
      (omega (arith, c.small), omega (arith, c.inside, size), rw size at c.aligned)

  inside : (r : ℕ) → chunk ≤ r → r < chunk + 2 * 2 ^ o → head r ≡ chunk
  inside r above below =
      t.whole chunk r in_region (rw is_head above) (rw (is_head, size) below) ∙ is_head

  span : (q : ℕ) → q < n → head q ≡ chunk → (chunk ≤ q) × (q < chunk + 2 * 2 ^ o)
  span q h e =
      let c : InChunk base n s chunk q = rw e at (t.covers q h) in (c.above, rw size at c.below)

  upper_head : head (chunk + 2 ^ o) ≡ chunk
  upper_head = inside (chunk + 2 ^ o) (omega arith) (omega (arith, two_pow_pos o))

  part : (q : ℕ) → q < n → Part chunk (2 ^ o) head cut q
  unfolding regroup
  part q h = elim (ℕ_discrete (head q) chunk) [
    | yes e ↦ elim (dec_lt q (chunk + 2 ^ o)) [
      | yes below ↦ lower (span q h e).0 below e (ground (arith, span q h e))
      | no above ↦ upper (omega arith) (span q h e).1 e (ground (arith, span q h e))
    ]
    | no ne ↦
        away ne (λ e. ne (sym (head_head t q h) ∙ ap head e ∙ upper_head))
          (ground (arith, inside q))
  ]

  order-halved_ne :
      (p : ℕ) → p ≢ chunk → p ≢ chunk + 2 ^ o → order_of (halved o chunk s) p ≡ order_of s p
  order-halved_ne p l u = ground arith

  allocated-halved : (p : ℕ) → allocated_of (halved o chunk s) p ≡ allocated_of s p
  allocated-halved p = ground arith

  order-halved_lower : order_of (halved o chunk s) chunk ≡ o
  order-halved_lower = ground (arith, two_pow_pos o)

  order-halved_upper : order_of (halved o chunk s) (chunk + 2 ^ o) ≡ o
  order-halved_upper = ground (arith, two_pow_pos o)

  covers-Part :
      (q : ℕ) → q < n → Part chunk (2 ^ o) head cut q → InChunk base n (halved o chunk s) (cut q) q
  covers-Part q h (upper a b e e') = rw e' (
      InChunk-of o order-halved_upper a (omega arith) (omega (arith, bounds))
        (omega (arith, bounds))
        (rw (← add_assoc base chunk (2 ^ o), add-mod_right)
          (aligned_half (2 ^ o) (base + chunk) bounds.2)))
  covers-Part q h (lower a b e e') = rw e' (
      InChunk-of o order-halved_lower a b (omega (arith, bounds)) (omega (arith, bounds))
        (aligned_half (2 ^ o) (base + chunk) bounds.2))
  covers-Part q h (away l u e') =
      let c = t.covers q h in
      rw e' (
        InChunk-of (order_of s (head q)) (order-halved_ne (head q) l u) c.above c.below c.small
          c.inside c.aligned)

  whole-Part :
      (q r : ℕ)
      → q < n
      → Part chunk (2 ^ o) head cut q
      → cut q ≤ r
      → r < cut q + 2 ^ order_of (halved o chunk s) (cut q)
      → cut r ≡ cut q
  whole-Part q r h (upper a b e e') l u =
      let l' : chunk + 2 ^ o ≤ r = rw e' at l in
      let u' : r < chunk + 2 ^ o + 2 ^ o = rw (e', order-halved_upper) at u in
      rw e' (unfold regroup in (ground arith))
  whole-Part q r h (lower a b e e') l u =
      let l' : chunk ≤ r = rw e' at l in
      let u' : r < chunk + 2 ^ o = rw (e', order-halved_lower) at u in
      rw e' (unfold regroup in (ground (arith, inside r)))
  whole-Part q r h (away ne ne' e') l u =
      let same = t.whole q r h (rw e' at l) (rw (e', order-halved_ne (head q) ne ne') at u) in
      rw e' (unfold regroup in (ground (arith, same, inside r)))

  inner-Part : (q : ℕ) → q < n → Part chunk (2 ^ o) head cut q → cut q ≢ q → allocated_of s q ≢ 1
  inner-Part q h (upper a b e e') ne = t.inner q h (omega (arith, two_pow_pos o))
  inner-Part q h (lower a b e e') ne = t.inner q h (omega arith)
  inner-Part q h (away l u e') ne = t.inner q h (omega arith)

  upper-IsFree : IsFree n cut chunk (halved o chunk s) o (chunk + 2 ^ o)
  upper-IsFree = record {
    in_region = omega (arith, bounds, two_pow_pos o);
    is_head = unfold regroup in (ground (arith, two_pow_pos o));
    order_eq = order-halved_upper;
    unallocated = rw (allocated-halved (chunk + 2 ^ o)) (
        t.inner (chunk + 2 ^ o) (omega (arith, bounds, two_pow_pos o))
          (omega (arith, upper_head, two_pow_pos o)));
    not_loose = omega (arith, two_pow_pos o);
  }

  other-IsFree :
      (o' p : ℕ) → IsFree n head chunk s o' p → IsFree n cut chunk (halved o chunk s) o' p
  other-IsFree o' p f = go (part p f.in_region)
    where
      go : Part chunk (2 ^ o) head cut p → IsFree n cut chunk (halved o chunk s) o' p
      go (upper a b e e') = absurd (f.not_loose (sym f.is_head ∙ e))
      go (lower a b e e') = absurd (f.not_loose (sym f.is_head ∙ e))
      go (away l u e') = record {
        in_region = f.in_region;
        is_head = e' ∙ f.is_head;
        order_eq = order-halved_ne p (rw f.is_head at l) (rw f.is_head at u) ∙ f.order_eq;
        unallocated = rw (allocated-halved p) f.unallocated;
        not_loose = f.not_loose;
      }

  listed_part :
      (o' p : ℕ)
      → o' < buddy_max_order
      → has p (nodes_of (halved o chunk s) o') ≡ true
      → IsFree n cut chunk (halved o chunk s) o' p
  listed_part o' p small h = elim (ℕ_discrete (chunk + 2 ^ o) p) [
    | yes e ↦ elim (ℕ_discrete o o') [
      | yes eo ↦ rw (← e, ← eo) upper-IsFree
      | no neo ↦ other-IsFree o' p (t.listed o' p small (ground arith))
    ]
    | no ne ↦ other-IsFree o' p (t.listed o' p small (ground arith))
  ]

  complete-Part :
      (p : ℕ)
      → p < n
      → Part chunk (2 ^ o) head cut p
      → cut p ≡ p
      → allocated_of s p ≢ 1
      → p ≢ chunk
      → has p (nodes_of (halved o chunk s) (order_of (halved o chunk s) p)) ≡ true
  complete-Part p h (upper a b e e') is free ne =
      let e'' : chunk + 2 ^ o ≡ p = sym e' ∙ is in rw (← e'', order-halved_upper) (ground arith)
  complete-Part p h (lower a b e e') is free ne = absurd (ne (sym is ∙ e'))
  complete-Part p h (away l u e') is free ne =
      let e'' : head p ≡ p = sym e' ∙ is in
      rw (order-halved_ne p (rw e'' at l) (rw e'' at u))
        (ground (arith, t.complete p h e'' free ne))

  upper_unlisted : o < buddy_max_order → has (chunk + 2 ^ o) (nodes_of s o) ≡ false
  upper_unlisted small = elim (Bool-cases (has (chunk + 2 ^ o) (nodes_of s o))) [
    | inl e ↦
        absurd
          (omega (arith, (t.listed o (chunk + 2 ^ o) small e).is_head, upper_head, two_pow_pos o))
    | inr e ↦ e
  ]

  -- Cutting the loose chunk keeps the tiling; its lower half is the loose chunk.
  pub halved-IsTiled : IsTiled base n cut chunk (halved o chunk s)
  halved-IsTiled = record {
    at = record { at_start = t.at.at_start; at_size = t.at.at_size; at_num = t.at.at_num };
    covers = λ q h. covers-Part q h (part q h);
    whole = λ q r h. whole-Part q r h (part q h);
    inner = λ q h ne. rw (allocated-halved q) (inner-Part q h (part q h) ne);
    listed = listed_part;
    complete = λ p h is free. complete-Part p h (part p h) is (rw (allocated-halved p) at free);
    once = λ o' small. ground (arith, t.once o' small, upper_unlisted (omega (arith, bounds)));
    counted = λ o' small. ground (arith, t.counted o' small);
  }

  keeps_Part :
      (q : ℕ)
      → q < n
      → Part chunk (2 ^ o) head cut q
      → (owned (halved o chunk s) cut q ≡ owned s head q)
        × (owned s head q ≡ true
            → (cut q ≡ head q) × (order_of (halved o chunk s) (head q) ≡ order_of s (head q)))
  keeps_Part q h (upper a b e e') =
      let free : allocated_of s (chunk + 2 ^ o) ≢ 1 =
        t.inner (chunk + 2 ^ o) (omega (arith, bounds, two_pow_pos o))
          (omega (arith, upper_head, two_pow_pos o)) in
      rw (allocated-halved (cut q), e, e') (ground arith, λ own. absurd (ground arith))
  keeps_Part q h (lower a b e e') =
      rw (allocated-halved (cut q), e, e') (ground arith, λ own. absurd (ground arith))
  keeps_Part q h (away l u e') =
      rw (allocated-halved (cut q), e') (refl, λ own. (refl, order-halved_ne (head q) l u))

  pub halved-Keeps : Keeps n s head (halved o chunk s) cut
  halved-Keeps = record {
    same_owned = λ q h. (keeps_Part q h (part q h)).0;
    same_head = λ q h own. ((keeps_Part q h (part q h)).1 own).0;
    same_order = λ q h own. ((keeps_Part q h (part q h)).1 own).1;
  }
