-- ===== src/Slab/Pool.antt =====
-- The invariant of the whole pool: every slab is a chunk of the buddy allocator that has been handed
-- out, the containers hold exactly the slabs that have free blocks, and `used` tells the blocks that
-- clients have, with their orders.
pub mod Lists
pub mod Frame
pub mod Region
pub mod Make
pub mod Alloc
pub mod Serve
pub mod Put
pub mod Release
pub mod Emptied
pub mod Free
pub mod Clients
pub mod Example
mod Tests
pub mod Take
use kingdo_micro_kernel.Prelude.{
  ℕ, ◌+◌, ◌-◌, ◌*◌, ◌/◌, ◌^◌, ◌≤◌, ◌<◌, ◌≡◌, ◌≢◌, refl, sym, ap, subst, ◌∙◌, ◌⊎◌, inl, inr, Bool,
  true, false, Option, none, some, List, [], ◌∷◌, has, length, NoDup, if◌then◌else◌, arith,
  ℕ_discrete, dec_lt,
}
use native.Mathlib.Nat.{mul-le-mul_right}
use kingdo_micro_kernel.Prelude.Arith.{two_pow_pos}
use kingdo_micro_kernel.Buddy.{page_size, MemRegion, page_to_virt, virt_to_page}
use kingdo_micro_kernel.Buddy.Layout.{IsLayout, IsAt}
use kingdo_micro_kernel.Buddy.Tiling.{IsTiled, order_of, allocated_of}
use kingdo_micro_kernel.Buddy.Kept.{slab_of}
use kingdo_micro_kernel.Slab.{
  SlabPool, SlabHeader, SlabContainer, slab_size, slab_order_to_size, min_slab_block_order,
  max_slab_block_order,
}
use kingdo_micro_kernel.Slab.Blocks.{IsChain, IsBlock, IsSlab}
use kingdo_micro_kernel.Slab.Fresh.{whole_blocks}

abbrev pub IsOrder : ℕ → Type 0
IsOrder o = (6 ≤ o) × (o ≤ 11)

-- the address of a page
abbrev pub address : ℕ → ℕ → ℕ
address base p = (base + p) * page_size

-- A chunk of 32 pages from page `p` on has been handed out, and its pages point to the slab there.
pub record IsChunk (base n : ℕ) (head : ℕ → ℕ) (r : MemRegion) (p : ℕ) : Type 0 where
  pub inside : p + 32 ≤ n
  pub is_head : head p ≡ p
  pub order_eq : order_of r p ≡ 5
  pub own : allocated_of r p ≡ 1
  pub marked : (q : ℕ) → p ≤ q → q < p + 32 → slab_of r q ≡ some (address base p)

-- what a client has of a block
abbrev pub usage : Bool → ℕ → Option ℕ
usage true o = none
usage false o = some o

abbrev pub count_at : SlabPool → ℕ → ℕ
count_at st s = (st.headers s).free_block_count

abbrev pub order_at : SlabPool → ℕ → ℕ
order_at st s = (st.headers s).order

-- The slab at page `p` has the free blocks `l`; its other blocks are in use.
pub record IsLocal (base p : ℕ) (l : List ℕ) (used : ℕ → Option ℕ) (st : SlabPool) : Type 0 where
  pub slab : IsSlab (address base p) l st
  pub state :
      (b : ℕ)
      → IsBlock (address base p) (2 ^ order_at st (address base p)) b
      → used b ≡ usage (has b l) (order_at st (address base p))

-- The slabs are at the pages `live`, with the free blocks `free`; no other blocks are in use.
pub record IsHeap (base n : ℕ) (head : ℕ → ℕ) (live : ℕ → Bool) (free : ℕ → List ℕ)
    (used : ℕ → Option ℕ) (st : SlabPool) : Type 0 where
  pub tiled : IsTiled base n head n st.region
  pub chunk : (p : ℕ) → live p ≡ true → IsChunk base n head st.region p
  pub local : (p : ℕ) → live p ≡ true → IsLocal base p (free p) used st
  pub in_slab :
      (b o : ℕ)
      → used b ≡ some o
      → (p : ℕ) × (live p ≡ true)
        × (order_at st (address base p) ≡ o)
        × IsBlock (address base p) (2 ^ o) b

-- The slab at `s` is one that a container of order `o` may hold.
pub record IsListed (base : ℕ) (live : ℕ → Bool) (st : SlabPool) (o s : ℕ) : Type 0 where
  pub page : ℕ
  pub is_live : live page ≡ true
  pub place : s ≡ address base page
  pub order_eq : (st.headers s).order ≡ o
  pub some_free : (st.headers s).free_block_count ≢ 0

-- The slabs of a container, the current one first.
abbrev pub cells : SlabContainer → List ℕ
cells c = elim c.current [ none ↦ c.partial_list | some s ↦ s ∷ c.partial_list ]

pub cells-none : (c : SlabContainer) → c.current ≡ none → cells c ≡ c.partial_list
cells-none c e = rw e refl

pub cells-some : (c : SlabContainer) (s : ℕ) → c.current ≡ some s → cells c ≡ s ∷ c.partial_list
cells-some c s e = rw e refl

abbrev pub cells_of : SlabPool → ℕ → List ℕ
cells_of st o = cells (st.containers o)

-- The containers hold exactly the slabs of their orders that have free blocks, each once.
pub record IsSorted (base : ℕ) (live : ℕ → Bool) (st : SlabPool) : Type 0 where
  pub listed : (o s : ℕ) → IsOrder o → has s (cells_of st o) ≡ true → IsListed base live st o s
  pub placed :
      (p : ℕ)
      → live p ≡ true
      → count_at st (address base p) ≢ 0
      → has (address base p) (cells_of st (order_at st (address base p))) ≡ true
  pub once : (o : ℕ) → IsOrder o → NoDup (cells_of st o)

pub record IsPool (base n : ℕ) (used : ℕ → Option ℕ) (st : SlabPool) : Type 0 where
  pub head : ℕ → ℕ
  pub live : ℕ → Bool
  pub free : ℕ → List ℕ
  pub heap : IsHeap base n head live free used st
  pub sorted : IsSorted base live st

IsChain-frame :
    (next next' : ℕ → Option ℕ) (l : List ℕ) (block : Option ℕ)
    → ((a : ℕ) → has a l ≡ true → next' a ≡ next a)
    → IsChain next block l
    → IsChain next' block l
IsChain-frame next next' [] block same c = c
IsChain-frame next next' (b ∷ l) block same c = (
  c.0,
  rw (same b (ground arith))
      (IsChain-frame next next' l (next b) (λ a h. same a (ground arith)) c.1),
)

-- A slab whose header and free blocks are not written.
pub IsSlab-frame :
    {s : ℕ} {l : List ℕ} {st : SlabPool} (st' : SlabPool)
    → st'.headers s ≡ st.headers s
    → ((a : ℕ) → has a l ≡ true → st'.next a ≡ st.next a)
    → IsSlab s l st
    → IsSlab s l st'
IsSlab-frame {l} {st} st' e same i = record {
  order_in = rw e i.order_in;
  total = rw e i.total;
  chain = rw e (IsChain-frame st.next st'.next l _ same i.chain);
  counted = rw e i.counted;
  once = i.once;
  blocks = λ b h. rw e (i.blocks b h);
}

-- The containers do not matter to the slabs.
pub IsHeap-containers :
    {base n : ℕ} {head : ℕ → ℕ} {live : ℕ → Bool} {free : ℕ → List ℕ} {used : ℕ → Option ℕ}
    {st : SlabPool} (cs : ℕ → SlabContainer)
    → IsHeap base n head live free used st
    → IsHeap base n head live free used (record st { containers = cs })
IsHeap-containers {st} cs h = record {
  tiled = h.tiled;
  chunk = h.chunk;
  local = λ p l. record {
    slab = IsSlab-frame (record st { containers = cs }) refl (λ a _. refl) (h.local p l).slab;
    state = (h.local p l).state;
  };
  in_slab = h.in_slab;
}

-- A block lies in the 128 KB of its slab, after the first block.
pub IsBlock-range :
    {s o b : ℕ} → IsOrder o → IsBlock s (2 ^ o) b → (s + 2 ^ o ≤ b) × (b + 2 ^ o ≤ s + slab_size)
IsBlock-range {s} {o} {b} i k =
    let first : 1 ≤ k.index = omega (arith, k.not_header) in
    let last : k.index + 1 ≤ slab_size / 2 ^ o = omega (arith, k.inside) in
    omega (
      arith,
      k.place,
      mul-le-mul_right (2 ^ o) first,
      mul-le-mul_right (2 ^ o) last,
      whole_blocks o i,
    )

-- Its pages lie in the chunk.
pub start :
    {base n : ℕ} {head : ℕ → ℕ} {r : MemRegion} {p : ℕ}
    → IsTiled base n head n r
    → IsChunk base n head r p
    → (q : ℕ) → p ≤ q
    → q < p + 32
    → head q ≡ p
start {p} t c q above below =
    t.whole p q (omega (arith, c.inside)) (rw c.is_head above) (rw (c.is_head, c.order_eq) below)
    ∙ c.is_head

-- Two chunks handed out that begin at different pages do not overlap.
pub IsChunk-apart :
    {base n : ℕ} {head : ℕ → ℕ} {r : MemRegion} {p q : ℕ}
    → IsTiled base n head n r
    → IsChunk base n head r p
    → IsChunk base n head r q
    → p ≢ q
    → (p + 32 ≤ q) ⊎ (q + 32 ≤ p)
IsChunk-apart {head} {p} {q} t c d ne = elim (dec_lt p q) [
  | yes less ↦ elim (dec_lt q (p + 32)) [
    | yes inside ↦ absurd (ne (sym (start t c q (omega arith) inside) ∙ d.is_head))
    | no apart ↦ inl (omega arith)
  ]
  | no more ↦ elim (dec_lt p (q + 32)) [
    | yes inside ↦ absurd (ne (sym (c.is_head) ∙ start t d p (omega arith) inside))
    | no apart ↦ inr (omega arith)
  ]
]

-- A block in use that lies in a slab is a block of that slab.
pub in_slab_at :
    {base n : ℕ} {head : ℕ → ℕ} {live : ℕ → Bool} {free : ℕ → List ℕ} {used : ℕ → Option ℕ}
    {st : SlabPool} (p b o : ℕ)
    → IsHeap base n head live free used st
    → live p ≡ true
    → address base p ≤ b
    → b < address base p + slab_size
    → used b ≡ some o
    → (order_at st (address base p) ≡ o) × IsBlock (address base p) (2 ^ o) b
in_slab_at {base} {st} p b o h l low high e =
    let (q, l', oe, k) = h.in_slab b o e in
    elim (ℕ_discrete q p) [
      | yes same ↦
          subst (λ q. (order_at st (address base q) ≡ o) × IsBlock (address base q) (2 ^ o) b) same
            (oe, k)
      | no ne ↦
          let r = IsBlock-range (subst IsOrder oe (h.local q l').slab.order_in) k in
          elim (IsChunk-apart h.tiled (h.chunk q l') (h.chunk p l) ne) [
            | inl below ↦ absurd (omega (arith, r, low, below, two_pow_pos o))
            | inr above ↦ absurd (omega (arith, r, high, above))
          ]
    ]
