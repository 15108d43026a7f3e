-- ===== src/Slab/Pool/Frame.antt =====
-- What a change inside one slab leaves of the other slabs.
use kingdo_micro_kernel.Prelude.{
  ℕ, ◌+◌, ◌^◌, ◌≤◌, ◌<◌, ◌≡◌, ◌≢◌, sym, ap, subst, ◌∙◌, ◌⊎◌, inl, inr, Bool, true, Option, some,
  List, has, arith, ℕ_discrete, dec_lt,
}
use kingdo_micro_kernel.Prelude.Arith.{two_pow_pos}
use kingdo_micro_kernel.Buddy.Tiling.{IsTiled}
use kingdo_micro_kernel.Slab.{SlabPool, SlabHeader, slab_size}
use kingdo_micro_kernel.Slab.Blocks.{IsBlock, IsSlab}
use kingdo_micro_kernel.Slab.Pool.{
  IsOrder, address, IsChunk, IsHeap, IsLocal, usage, order_at, IsSlab-frame, IsBlock-range,
}

-- An address that is not in the slab at `s`.
abbrev pub IsOutside : ℕ → ℕ → Type 0
IsOutside s a = (a < s) ⊎ (s + slab_size ≤ a)

-- From one pool to the other only the slab at page `p` changes.
pub record Touches (base n : ℕ) (head' : ℕ → ℕ) (p : ℕ) (live live' : ℕ → Bool)
    (free free' : ℕ → List ℕ) (used used' : ℕ → Option ℕ) (st st' : SlabPool) : Type 0 where
  pub headers_else : (t : ℕ) → address base p ≢ t → st'.headers t ≡ st.headers t
  pub next_else : (a : ℕ) → IsOutside (address base p) a → st'.next a ≡ st.next a
  pub used_else : (b : ℕ) → IsOutside (address base p) b → used' b ≡ used b
  pub live_else : (q : ℕ) → p ≢ q → live' q ≡ live q
  pub free_else : (q : ℕ) → p ≢ q → free' q ≡ free q
  pub tiled : IsTiled base n head' n st'.region
  pub chunk : (q : ℕ) → live' q ≡ true → IsChunk base n head' st'.region q
  pub apart : (q : ℕ) → live' q ≡ true → p ≢ q → (p + 32 ≤ q) ⊎ (q + 32 ≤ p)
  pub local : live' p ≡ true → IsLocal base p (free' p) used' st'
  pub local_used :
      (b o : ℕ)
      → address base p ≤ b
      → b < address base p + slab_size
      → used' b ≡ some o
      → (live' p ≡ true) × (order_at st' (address base p) ≡ o) × IsBlock (address base p) (2 ^ o) b

module _ {base n p : ℕ} {head head' : ℕ → ℕ} {live live' : ℕ → Bool} {free free' : ℕ → List ℕ}
    {used used' : ℕ → Option ℕ} {st st' : SlabPool} (h : IsHeap base n head live free used st)
    (t : Touches base n head' p live live' free free' used used' st st') where
  -- Another slab, and a block of it.
  module _ (q : ℕ) (l : live' q ≡ true) (ne : p ≢ q) where
    was_live : live q ≡ true
    was_live = sym (t.live_else q ne) ∙ l

    block-IsOutside :
        (o b : ℕ) → IsOrder o → IsBlock (address base q) (2 ^ o) b → IsOutside (address base p) b
    block-IsOutside o b i k =
        let r = IsBlock-range i k in
        elim (t.apart q l ne) [
          | inl above ↦ inr (omega (arith, r, above))
          | inr below ↦ inl (omega (arith, r, below))
        ]

    same_header : st'.headers (address base q) ≡ st.headers (address base q)
    same_header = t.headers_else (address base q) (λ e. ne (omega (arith, e)))

    same_order : order_at st' (address base q) ≡ order_at st (address base q)
    same_order = ap (λ (h : SlabHeader). h.order) same_header

    slab-IsOrder : IsOrder (order_at st (address base q))
    slab-IsOrder = (h.local q was_live).slab.order_in

    other_slab : IsSlab (address base q) (free' q) st'
    other_slab = rw (t.free_else q ne) (
        IsSlab-frame st' same_header
          (λ a has_a. t.next_else a (
            block-IsOutside (order_at st (address base q)) a slab-IsOrder
              ((h.local q was_live).slab.blocks a has_a)))
          (h.local q was_live).slab)

    other_state :
        (b : ℕ)
        → IsBlock (address base q) (2 ^ order_at st' (address base q)) b
        → used' b ≡ usage (has b (free' q)) (order_at st' (address base q))
    other_state b k =
        let k' : IsBlock (address base q) (2 ^ order_at st (address base q)) b =
          rw same_order at k in
        rw (t.free_else q ne, same_order)
          (t.used_else b (block-IsOutside (order_at st (address base q)) b slab-IsOrder k')
            ∙ (h.local q was_live).state b k')

  used_outside :
      (b o : ℕ)
      → IsOutside (address base p) b
      → used' b ≡ some o
      → (q : ℕ) × (live' q ≡ true)
        × (order_at st' (address base q) ≡ o)
        × IsBlock (address base q) (2 ^ o) b
  used_outside b o out e =
      let (q, l, oe, k) = h.in_slab b o (sym (t.used_else b out) ∙ e) in
      let r = IsBlock-range (subst IsOrder oe (h.local q l).slab.order_in) k in
      let ne : p ≢ q = λ same. elim out [
        | inl low ↦ omega (arith, r, low, same)
        | inr high ↦ omega (arith, r, high, same, two_pow_pos o)
      ] in
      let l' = t.live_else q ne ∙ l in (q, l', same_order q l' ne ∙ oe, k)

  pub Touches-IsHeap : IsHeap base n head' live' free' used' st'
  Touches-IsHeap = record {
    tiled = t.tiled;
    chunk = t.chunk;
    local = λ q l. elim (ℕ_discrete p q) [
      | yes e ↦
          subst (λ q. IsLocal base q (free' q) used' st') e
            (t.local (subst (λ q. live' q ≡ true) (sym e) l))
      | no ne ↦ record { slab = other_slab q l ne; state = other_state q l ne }
    ];
    in_slab = λ b o e. elim (dec_lt b (address base p)) [
      | yes low ↦ used_outside b o (inl low) e
      | no above ↦ elim (dec_lt b (address base p + slab_size)) [
        | yes inside ↦ let (l, oe, k) = t.local_used b o (omega arith) inside e in (p, l, oe, k)
        | no high ↦ used_outside b o (inr (omega arith)) e
      ]
    ];
  }
