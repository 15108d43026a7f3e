-- ===== src/Buddy/Tiling.antt =====
-- The invariant of the buddy allocator: the pages of the region are tiled by aligned chunks, and the
-- free lists hold exactly the free ones.
--
-- `head q` is the first page of the chunk that page `q` lies in; the chunk's order is in that page.
-- Inside an operation one free chunk may be off its list: it begins at `loose`, which is `n`
-- between operations.
pub mod Split
pub mod Join
pub mod Moves
use kingdo_micro_kernel.Prelude.{
  ℕ, ◌+◌, ◌*◌, ◌%◌, ◌^◌, ◌≤◌, ◌<◌, ◌≡◌, refl, sym, ap, ◌∙◌, ◌≢◌, Bool, true, false, ◌&&◌, ltb, leb,
  ◌==◌, if◌then◌else◌, List, has, length, NoDup, arith,
}
use kingdo_micro_kernel.Prelude.Arith.{two_pow_pos}
use kingdo_micro_kernel.Buddy.{buddy_max_order, Page, MemRegion}
use kingdo_micro_kernel.Buddy.Layout.{IsAt}

abbrev pub order_of : MemRegion → ℕ → ℕ
order_of s p = (s.pages p).order

abbrev pub allocated_of : MemRegion → ℕ → ℕ
allocated_of s p = (s.pages p).allocated

abbrev pub nodes_of : MemRegion → ℕ → List ℕ
nodes_of s o = (s.free_lists o).nodes

-- Page `q` lies in the chunk that begins at `h`, an aligned chunk of the region.
pub record InChunk (base n : ℕ) (s : MemRegion) (h q : ℕ) : Type 0 where
  pub above : h ≤ q
  pub below : q < h + 2 ^ order_of s h
  pub small : order_of s h < buddy_max_order
  pub inside : h + 2 ^ order_of s h ≤ n
  pub aligned : (base + h) % 2 ^ order_of s h ≡ 0

pub InChunk-of :
    {base n : ℕ} {s : MemRegion} {h q : ℕ} (o : ℕ)
    → order_of s h ≡ o
    → h ≤ q
    → q < h + 2 ^ o
    → o < buddy_max_order
    → h + 2 ^ o ≤ n
    → (base + h) % 2 ^ o ≡ 0
    → InChunk base n s h q
InChunk-of o e a b c d f = record {
  above = a;
  below = rw e b;
  small = rw e c;
  inside = rw e d;
  aligned = rw e f;
}

-- Page `p` is a free chunk of order `o` that begins there.
pub record IsFree (n : ℕ) (head : ℕ → ℕ) (loose : ℕ) (s : MemRegion) (o p : ℕ) : Type 0 where
  pub in_region : p < n
  pub is_head : head p ≡ p
  pub order_eq : order_of s p ≡ o
  pub unallocated : allocated_of s p ≢ 1
  pub not_loose : p ≢ loose

pub record IsTiled (base n : ℕ) (head : ℕ → ℕ) (loose : ℕ) (s : MemRegion) : Type 0 where
  pub at : IsAt base n s
  pub covers : (q : ℕ) → q < n → InChunk base n s (head q) q
  pub whole :
      (q r : ℕ) → q < n → head q ≤ r → r < head q + 2 ^ order_of s (head q) → head r ≡ head q
  -- a page that begins no chunk is not marked as allocated
  pub inner : (q : ℕ) → q < n → head q ≢ q → allocated_of s q ≢ 1
  pub listed :
      (o p : ℕ) → o < buddy_max_order → has p (nodes_of s o) ≡ true → IsFree n head loose s o p
  pub complete :
      (p : ℕ)
      → p < n
      → head p ≡ p
      → allocated_of s p ≢ 1
      → p ≢ loose
      → has p (nodes_of s (order_of s p)) ≡ true
  pub once : (o : ℕ) → o < buddy_max_order → NoDup (nodes_of s o)
  pub counted : (o : ℕ) → o < buddy_max_order → (s.free_lists o).nr_free ≡ length (nodes_of s o)

-- Page `q` belongs to a chunk that has been handed out.
abbrev pub owned : MemRegion → (ℕ → ℕ) → ℕ → Bool
owned s head q = allocated_of s (head q) == 1

-- From one tiling to another the same pages belong to chunks that have been handed out, and each
-- such chunk is the same.
pub record Keeps (n : ℕ) (s : MemRegion) (head : ℕ → ℕ) (s' : MemRegion) (head' : ℕ → ℕ)
    : Type 0 where
  pub same_owned : (q : ℕ) → q < n → owned s' head' q ≡ owned s head q
  pub same_head : (q : ℕ) → q < n → owned s head q ≡ true → head' q ≡ head q
  pub same_order :
      (q : ℕ) → q < n → owned s head q ≡ true → order_of s' (head q) ≡ order_of s (head q)

-- The lists do not matter.
pub Keeps-pages :
    (n : ℕ) (head : ℕ → ℕ) {s s' : MemRegion} → s'.pages ≡ s.pages → Keeps n s head s' head
Keeps-pages n head e = record {
  same_owned = λ q h. ap (λ (f : ℕ → Page). (f (head q)).allocated == 1) e;
  same_head = λ q h o. refl;
  same_order = λ q h o. ap (λ (f : ℕ → Page). (f (head q)).order) e;
}

pub Keeps-trans :
    {n : ℕ} {s s' s'' : MemRegion} {head head' head'' : ℕ → ℕ}
    → Keeps n s head s' head'
    → Keeps n s' head' s'' head''
    → Keeps n s head s'' head''
Keeps-trans {s'} {s''} k l = record {
  same_owned = λ q h. l.same_owned q h ∙ k.same_owned q h;
  same_head = λ q h o. l.same_head q h (k.same_owned q h ∙ o) ∙ k.same_head q h o;
  same_order = λ q h o.
      ap (order_of s'') (sym (k.same_head q h o))
      ∙ l.same_order q h (k.same_owned q h ∙ o)
      ∙ ap (order_of s') (k.same_head q h o)
      ∙ k.same_order q h o;
}

-- The chunks of the pages from `low` to `low + len` become one that begins at `low`.
unfoldable pub regroup : ℕ → ℕ → (ℕ → ℕ) → ℕ → ℕ
regroup low len head q = if leb low q && ltb q (low + len) then low else head q

module _ {base n loose : ℕ} {head : ℕ → ℕ} {s : MemRegion} (t : IsTiled base n head loose s) where
  pub head_in_region : (q : ℕ) → q < n → head q < n
  head_in_region q h = omega (arith, (t.covers q h).above)

  pub head_head : (q : ℕ) → q < n → head (head q) ≡ head q
  head_head q h =
      t.whole q (head q) h (omega arith) (omega (arith, two_pow_pos (order_of s (head q))))
