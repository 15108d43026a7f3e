-- ===== src/Buddy/Get.antt =====
-- `buddy_get_pages` and `split_chunk` on a tiled region.
use kingdo_micro_kernel.Prelude.{
  ℕ, zero, suc, ◌+◌, ◌-◌, ◌%◌, ◌^◌, ◌≤◌, ◌<◌, ◌≡◌, ◌≢◌, refl, ap, ◌∙◌, inl, inr, true, false, ◌||◌,
  ◌&&◌, ltb, leb, ◌==◌, not, Option, none, some, List, [], ◌∷◌, length, Run, done, ◌>>=◌, arith,
  Bool-cases, ℕ_discrete, dec_lt,
}
use kingdo_micro_kernel.Prelude.Arith.{two_pow_pos}
use kingdo_micro_kernel.Buddy.{
  buddy_max_order, MemRegion, take_first, halve, split_loop, split_chunk, hand_out, after_split,
  buddy_get_pages, del_free, set_allocated,
}
use kingdo_micro_kernel.Buddy.Tiling.{
  IsTiled, InChunk, Keeps, Keeps-pages, Keeps-trans, order_of, allocated_of, nodes_of, owned,
  regroup,
}
use kingdo_micro_kernel.Buddy.Tiling.Split.{halved-IsTiled, halved-Keeps}
use kingdo_micro_kernel.Buddy.Tiling.Moves.{del_free-IsTiled, mark-IsTiled}

-- No free list from `order` on has a chunk.
abbrev pub AllEmpty : ℕ → MemRegion → Type 0
AllEmpty order s = (k : ℕ) → order ≤ k → k < buddy_max_order → (s.free_lists k).nr_free ≡ 0

-- A free chunk of order `o` that is off its list, all else being as in `s`.
pub record Loose (base n : ℕ) (s : MemRegion) (head : ℕ → ℕ) (o c : ℕ) (s' : MemRegion)
    : Type 0 where
  pub head' : ℕ → ℕ
  pub tiled : IsTiled base n head' c s'
  pub in_region : c < n
  pub is_head : head' c ≡ c
  pub order_eq : order_of s' c ≡ o
  pub free : allocated_of s' c ≢ 1
  pub keeps : Keeps n s head s' head'

pub data Splits (base n : ℕ) (s : MemRegion) (head : ℕ → ℕ) (order : ℕ)
    : Run (Option ℕ × MemRegion) → Type 0 where
  nothing : AllEmpty order s → Splits base n s head order (done (none, s))
  found :
      {c : ℕ} {s' : MemRegion}
      → Loose base n s head (order - 1) c s'
      → Splits base n s head order (done (some c, s'))

-- The first page of a list that is not empty, off its list.
take_first-Loose :
    {base n : ℕ} {s : MemRegion} {head : ℕ → ℕ} (order : ℕ) (l : List ℕ)
    → IsTiled base n head n s
    → order < buddy_max_order
    → (s.free_lists order).nr_free ≢ 0
    → nodes_of s order ≡ l
    → (c : ℕ) × (s' : MemRegion) × (take_first order l s ≡ done (c, s'))
      × Loose base n s head order c s'
unfolding take_first
take_first-Loose order [] t lt some_free e = absurd (some_free (t.counted order lt ∙ ap length e))
take_first-Loose {n} {s} {head} order (p ∷ rest) t lt some_free e =
    let (f, t') = del_free-IsTiled lt rest t e in
    (
      p,
      del_free order p s,
      refl,
      record {
        head' = head;
        tiled = t';
        in_region = f.in_region;
        is_head = f.is_head;
        order_eq = f.order_eq;
        free = f.unallocated;
        keeps = Keeps-pages n head refl;
      },
    )

module _ {base n : ℕ} {s : MemRegion} {head : ℕ → ℕ} (order : ℕ) (pos : 0 < order) where
  halve-Splits :
      {c : ℕ} {s' : MemRegion}
      → Loose base n s head order c s'
      → Splits base n s head order (halve order (some c) s')
  unfolding halve
  halve-Splits {c} {s'} l = found (record {
    head' = _;
    tiled = halved-IsTiled tiled in_region is_head big free;
    in_region = in_region;
    is_head = unfold regroup in (ground (arith, is_head, two_pow_pos (order - 1)));
    order_eq = ground (arith, two_pow_pos (order - 1));
    free = ground (arith, free);
    keeps = Keeps-trans keeps (halved-Keeps tiled in_region is_head big free);
  })
    where
      open l use {head', tiled, in_region, is_head, order_eq, free, keeps}

      big : order_of s' c ≡ suc (order - 1)
      big = omega (arith, order_eq)

  -- the result of the recursive call, cut
  deeper-Splits :
      {r : Run (Option ℕ × MemRegion)}
      → (s.free_lists order).nr_free ≡ 0
      → Splits base n s head (order + 1) r
      → Splits base n s head order (r >>= λ (c, s'). halve order c s')
  unfolding halve
  deeper-Splits empty (nothing none_above) = nothing λ k le lt. elim (ℕ_discrete k order) [
    | yes e ↦ rw e empty
    | no ne ↦ none_above k (omega arith) lt
  ]
  deeper-Splits empty (found {c} {s'} l) = halve-Splits (record {
    head' = l.head';
    tiled = l.tiled;
    in_region = l.in_region;
    is_head = l.is_head;
    order_eq = omega (arith, l.order_eq);
    free = l.free;
    keeps = l.keeps;
  })

module _ {base n : ℕ} {s : MemRegion} {head : ℕ → ℕ} (t : IsTiled base n head n s) where
  split_loop-Splits :
      (fuel order : ℕ)
      → 0 < order
      → order ≤ buddy_max_order
      → buddy_max_order < order + fuel
      → Splits base n s head order (split_loop fuel order s)
  unfolding split_loop
  split_loop-Splits zero order pos le enough = absurd (omega arith)
  split_loop-Splits (suc fuel) order pos le enough = elim (dec_lt order buddy_max_order) [
    | no top ↦ rw (out_of_range top) (nothing λ k a b. absurd (omega arith))
    | yes lt ↦ rw (in_range lt) (elim (Bool-cases ((s.free_lists order).nr_free == 0)) [
      | inl empty ↦ rw empty (
          deeper-Splits order pos (ground arith)
            (split_loop-Splits fuel (order + 1) (omega arith) (omega arith) (omega arith)))
      | inr some_free ↦
          let (c, s', e, l) = take_first-Loose order (nodes_of s order) t lt (ground arith) refl in
          rw (some_free, e) (halve-Splits order pos l)
    ])
  ]
    where
      out_of_range : ¬ (order < buddy_max_order) → (ltb order 1 || leb buddy_max_order order) ≡ true
      out_of_range h = ground arith

      in_range : order < buddy_max_order → (ltb order 1 || leb buddy_max_order order) ≡ false
      in_range h = ground arith

  -- `split_chunk` ends with a free chunk of the order below, or finds every list from `order` on
  -- empty and changes nothing.
  pub split_chunk-Splits :
      (order : ℕ)
      → 0 < order
      → order ≤ buddy_max_order
      → Splits base n s head order (split_chunk order s)
  unfolding split_chunk
  split_chunk-Splits order pos le =
      split_loop-Splits (buddy_max_order + 1) order pos le (omega arith)

-- Page `p` begins a chunk of `2 ^ order` pages that was free in `s` and is handed out in `s'`; it is
-- aligned to its size, and no other page changes hands.
pub record Granted (base n : ℕ) (s : MemRegion) (head : ℕ → ℕ) (order p : ℕ) (s' : MemRegion)
    : Type 0 where
  pub head' : ℕ → ℕ
  pub tiled : IsTiled base n head' n s'
  pub inside : p + 2 ^ order ≤ n
  pub aligned : (base + p) % 2 ^ order ≡ 0
  pub is_head : head' p ≡ p
  pub order_eq : order_of s' p ≡ order
  pub was_free : (q : ℕ) → p ≤ q → q < p + 2 ^ order → owned s head q ≡ false
  pub now_owned :
      (q : ℕ) → q < n → owned s' head' q ≡ (owned s head q || (leb p q && ltb q (p + 2 ^ order)))
  pub same_chunk :
      (q : ℕ)
      → q < n
      → owned s head q ≡ true
      → (head' q ≡ head q) × (order_of s' (head q) ≡ order_of s (head q))

pub data Gets (base n : ℕ) (s : MemRegion) (head : ℕ → ℕ) (order : ℕ)
    : Run (Option ℕ × MemRegion) → Type 0 where
  out_of_memory : AllEmpty order s → Gets base n s head order (done (none, s))
  granted :
      {p : ℕ} {s' : MemRegion}
      → Granted base n s head order p s'
      → Gets base n s head order (done (some p, s'))

module _ {base n c order : ℕ} {s s' : MemRegion} {head : ℕ → ℕ}
    (l : Loose base n s head order c s') where
  open l use {head', tiled, in_region, is_head, order_eq, free, keeps}

  chunk_facts : InChunk base n s' c c
  chunk_facts = rw is_head at (tiled.covers c in_region)

  in_chunk : (q : ℕ) → c ≤ q → q < c + 2 ^ order → head' q ≡ c
  in_chunk q a b = tiled.whole c q in_region (rw is_head a) (rw (is_head, order_eq) b) ∙ is_head

  span : (q : ℕ) → q < n → head' q ≡ c → (c ≤ q) × (q < c + 2 ^ order)
  span q h e =
      let k : InChunk base n s' c q = rw e at (tiled.covers q h) in
      (k.above, rw order_eq at k.below)

  in_room : c + 2 ^ order ≤ n
  in_room = rw order_eq at chunk_facts.inside

  now_owned_at :
      (q : ℕ)
      → q < n
      → owned (set_allocated c 1 s') head' q
        ≡ (owned s head q || (leb c q && ltb q (c + 2 ^ order)))
  now_owned_at q h = elim (ℕ_discrete (head' q) c) [
    | yes e ↦ ground (arith, span q h e, keeps.same_owned q h)
    | no ne ↦ ground (arith, in_chunk q, keeps.same_owned q h)
  ]

  hand_out-Gets : Gets base n s head order (hand_out order c s')
  unfolding hand_out
  hand_out-Gets = rw passes (
      granted (record {
        head' = head';
        tiled = mark-IsTiled tiled in_region is_head;
        inside = in_room;
        aligned = rw order_eq at chunk_facts.aligned;
        is_head = is_head;
        order_eq = ground (arith, order_eq);
        was_free = λ q a b.
            ground (arith, keeps.same_owned q (omega (arith, in_room)), in_chunk q a b, free);
        now_owned = now_owned_at;
        same_chunk = λ q h own. (keeps.same_head q h own, ground (arith, keeps.same_order q h own));
      }))
    where
      passes : (allocated_of s' c == 1 || not (order_of s' c == order)) ≡ false
      passes = ground (arith, order_eq, free)

module _ {base n : ℕ} {s : MemRegion} {head : ℕ → ℕ} (t : IsTiled base n head n s) where
  split-Gets :
      (order : ℕ) {r : Run (Option ℕ × MemRegion)}
      → (s.free_lists order).nr_free ≡ 0
      → Splits base n s head (order + 1) r
      → Gets base n s head order (r >>= λ (page, s'). after_split order page s')
  unfolding after_split
  split-Gets order empty (nothing none_above) = out_of_memory λ k le lt. elim (ℕ_discrete k order) [
    | yes e ↦ rw e empty
    | no ne ↦ none_above k (omega arith) lt
  ]
  split-Gets order empty (found {c} {s'} l) = hand_out-Gets (record {
    head' = l.head';
    tiled = l.tiled;
    in_region = l.in_region;
    is_head = l.is_head;
    order_eq = omega (arith, l.order_eq);
    free = l.free;
    keeps = l.keeps;
  })

  -- On a tiled region and for an order below 11, buddy_get_pages returns: either a page that
  -- begins an aligned chunk of that order inside the region, all of whose pages were free and now
  -- are handed out, every other page and every chunk handed out before staying as it was and the
  -- region staying tiled; or NULL with the region unchanged, and then every free list from that
  -- order on is empty.
  pub buddy_get_pages-Gets :
      (order : ℕ) → order < buddy_max_order → Gets base n s head order (buddy_get_pages order s)
  unfolding buddy_get_pages
  buddy_get_pages-Gets order lt = elim (Bool-cases ((s.free_lists order).nr_free == 0)) [
    | inl empty ↦ rw empty (
        split-Gets order (ground arith)
          (split_chunk-Splits t (order + 1) (omega arith) (omega arith)))
    | inr some_free ↦
        let (c, s', e, l) = take_first-Loose order (nodes_of s order) t lt (ground arith) refl in
        rw (some_free, e) (hand_out-Gets l)
  ]
