-- ===== src/Slab/Pool/Take.antt =====
-- `slab_get_free_block` and `slab_put_block` in the pool.
use mathlib.Core.Option.{some-injective}
use kingdo_micro_kernel.Prelude.{
  ℕ, ◌+◌, ◌-◌, ◌*◌, ◌/◌, ◌^◌, ◌≡◌, ◌≢◌, refl, sym, ap, subst, ◌∙◌, inl, inr, Bool, true, false,
  Option, none, some, List, ◌∷◌, has, update, update_self, update_ne, arith, ℕ_discrete, Bool-cases,
}
use native.Mathlib.Nat.{add-zero}
use kingdo_micro_kernel.Prelude.Arith.{two_pow_pos}
use kingdo_micro_kernel.Slab.{SlabPool, SlabHeader, slab_put_block}
use kingdo_micro_kernel.Slab.Blocks.{
  IsBlock, IsSlab, without, without-IsSlab, slab_put_block-IsSlab, round_to_block, size_at,
}
use kingdo_micro_kernel.Slab.Pool.{
  IsOrder, address, IsHeap, IsLocal, usage, order_at, IsChunk-apart, IsBlock-range, in_slab_at,
}
use kingdo_micro_kernel.Slab.Pool.Frame.{IsOutside, Touches, Touches-IsHeap}

abbrev usage_in : ℕ → List ℕ → ℕ → Option ℕ
usage_in b l o = usage (has b l) o

-- One block of one slab is taken from the chain of its free blocks, or put into it.
record Turns (base p b : ℕ) (l : List ℕ) (st : SlabPool) (l' : List ℕ) (st' : SlabPool)
    : Type 0 where
  block : IsBlock (address base p) (2 ^ order_at st (address base p)) b
  headers_else : (t : ℕ) → address base p ≢ t → st'.headers t ≡ st.headers t
  same_order : order_at st' (address base p) ≡ order_at st (address base p)
  next_else : (a : ℕ) → IsOutside (address base p) a → st'.next a ≡ st.next a
  same_region : st'.region ≡ st.region
  slab : IsSlab (address base p) l' st'
  same_members : (b' : ℕ) → b ≢ b' → has b' l' ≡ has b' l

outside_ne : {s o b : ℕ} → IsOrder o → IsBlock s (2 ^ o) b → (b' : ℕ) → IsOutside s b' → b ≢ b'
outside_ne {o} i k b' (inl low) same = omega (arith, IsBlock-range i k, low, same)
outside_ne {o} i k b' (inr high) same = omega (arith, IsBlock-range i k, high, same, two_pow_pos o)

module _ {base n p b : ℕ} {l' : List ℕ} {head : ℕ → ℕ} {live : ℕ → Bool} {free : ℕ → List ℕ}
    {used : ℕ → Option ℕ} {st st' : SlabPool} (h : IsHeap base n head live free used st)
    (is_live : live p ≡ true) (t : Turns base p b (free p) st l' st') where
  abbrev s : ℕ
  s = address base p

  abbrev o : ℕ
  o = order_at st s

  abbrev used' : ℕ → Option ℕ
  used' = update used b (usage_in b l' o)

  turned-IsLocal : IsLocal base p l' used' st'
  turned-IsLocal = record {
    slab = t.slab;
    state = λ b' k. rw t.same_order (elim (ℕ_discrete b b') [
      | yes same ↦ subst (λ k. used' k ≡ usage_in k l' o) same (update_self used b _)
      | no ne ↦
          update_ne used b _ b' ne
          ∙ (h.local p is_live).state b' (rw t.same_order at k)
          ∙ ap (λ v. usage v o) (sym (t.same_members b' ne))
    ]);
  }

  own_block : (o' : ℕ) → usage_in b l' o ≡ some o' → o ≡ o'
  own_block o' u = elim (Bool-cases (has b l')) [
    | inl inside ↦ absurd (ground (arith, inside, u))
    | inr out ↦ some-injective o o' (rw out at u)
  ]

  turned : Touches base n head p live live free (update free p l') used used' st st'
  turned = record {
    headers_else = t.headers_else;
    next_else = t.next_else;
    used_else = λ b' out.
        update_ne used b _ b' (outside_ne (h.local p is_live).slab.order_in t.block b' out);
    live_else = λ q ne. refl;
    free_else = λ q ne. update_ne free p l' q ne;
    tiled = rw t.same_region h.tiled;
    chunk = λ q l. rw t.same_region (h.chunk q l);
    apart = λ q l ne. IsChunk-apart h.tiled (h.chunk p is_live) (h.chunk q l) ne;
    local = λ _. rw (update_self free p l') turned-IsLocal;
    local_used = λ b' o' low high u. elim (ℕ_discrete b b') [
      | yes same ↦
          let oe = own_block o' (sym (update_self used b _) ∙ ap used' same ∙ u) in
          (
            is_live,
            t.same_order ∙ oe,
            subst (IsBlock s (2 ^ o')) same (subst (λ k. IsBlock s (2 ^ k) b) oe t.block),
          )
      | no ne ↦
          let (oe, k) =
            in_slab_at p b' o' h is_live low high (sym (update_ne used b _ b' ne) ∙ u) in
          (is_live, t.same_order ∙ oe, k)
    ];
  }

  turned-IsHeap : IsHeap base n head live (update free p l') used' st'
  turned-IsHeap = Touches-IsHeap h turned

module _ {base n p b : ℕ} {head : ℕ → ℕ} {live : ℕ → Bool} {free : ℕ → List ℕ} {used : ℕ → Option ℕ}
    {st : SlabPool} (h : IsHeap base n head live free used st) (is_live : live p ≡ true) where
  -- The first free block of the slab at page `p` is taken.
  pub take-IsHeap :
      {l : List ℕ}
      → free p ≡ b ∷ l
      → IsHeap base n head live
          (update free p l)
          (update used b (some (order_at st (address base p))))
          (without (address base p) b st)
  take-IsHeap {l} e =
      let first : IsSlab (address base p) (b ∷ l) st = rw e at (h.local p is_live).slab in
      rw first.once.0 at (
        turned-IsHeap h is_live (record {
          block = first.blocks b (ground arith);
          headers_else = λ t ne. update_ne st.headers (address base p) _ t ne;
          same_order = ap (λ (h : SlabHeader). h.order) (update_self st.headers (address base p) _);
          next_else = λ a out. refl;
          same_region = refl;
          slab = without-IsSlab first;
          same_members = λ b' ne. rw e (ground arith);
        }))

  -- A block of it that is in use is put back.
  pub put-IsHeap :
      IsBlock (address base p) (2 ^ order_at st (address base p)) b
      → has b (free p) ≡ false
      → IsHeap base n head live
          (update free p (b ∷ free p))
          (update used b none)
          (slab_put_block (address base p) b st)
  unfolding slab_put_block
  put-IsHeap block out =
      let i = (h.local p is_live).slab in
      let s = address base p in
      let e : s + (b - s) / size_at s st * size_at s st ≡ b =
        rw add-zero at (round_to_block i 0 block (two_pow_pos (order_at st s))) in
      let again : has b (b ∷ free p) ≡ true = ground arith in
      rw again at (
        turned-IsHeap h is_live (record {
          block = block;
          headers_else = λ t ne. update_ne st.headers s _ t ne;
          same_order = ap (λ (h : SlabHeader). h.order) (update_self st.headers s _);
          next_else = λ a far.
              update_ne st.next _ _ a (λ same. outside_ne i.order_in block a far (sym e ∙ same));
          same_region = refl;
          slab = rw add-zero at (slab_put_block-IsSlab i 0 block (two_pow_pos (order_at st s)) out);
          same_members = λ b' ne. ground arith;
        }))
