-- ===== src/Slab/Pool/Lists.antt =====
-- The containers as slabs gain and lose free blocks, are made and are given back.
use kingdo_micro_kernel.Prelude.{
  ℕ, ◌≡◌, ◌≢◌, sym, ap, subst, ◌∙◌, inl, inr, Bool, true, false, Option, has, NoDup, arith,
  ℕ_discrete, Bool-cases,
}
use kingdo_micro_kernel.Slab.{SlabPool, SlabHeader, SlabContainer}
use kingdo_micro_kernel.Slab.Pool.{
  IsOrder, address, IsListed, IsSorted, IsPool, IsHeap-containers, cells, cells_of, count_at,
  order_at,
}

-- All slabs but the one at `s` have the same header fields.
pub record SameBut (s : ℕ) (st st' : SlabPool) : Type 0 where
  pub same_order : (t : ℕ) → s ≢ t → order_at st' t ≡ order_at st t
  pub same_count : (t : ℕ) → s ≢ t → count_at st' t ≡ count_at st t

-- The containers other than that of `o` have the same slabs.
abbrev pub SameCells : ℕ → SlabPool → SlabPool → Type 0
SameCells o st st' = (k : ℕ) → o ≢ k → cells_of st' k ≡ cells_of st k

-- Only the slab at `s` and the container of `o` change; no other container holds it.
pub record Moves (base o s : ℕ) (live live' : ℕ → Bool) (st st' : SlabPool) : Type 0 where
  pub but : SameBut s st st'
  pub others : (k : ℕ) → o ≢ k → cells_of st' k ≡ cells_of st k
  pub same_live : (p : ℕ) → address base p ≢ s → live' p ≡ live p
  pub home : (k : ℕ) → IsOrder k → o ≢ k → has s (cells_of st k) ≡ false
  pub same_members : (t : ℕ) → s ≢ t → has t (cells_of st' o) ≡ has t (cells_of st o)
  pub no_copy : NoDup (cells_of st' o)
  pub if_held : has s (cells_of st' o) ≡ true → IsListed base live' st' o s
  pub if_free :
      (p : ℕ)
      → live' p ≡ true
      → s ≡ address base p
      → count_at st' s ≢ 0
      → (order_at st' s ≡ o) × (has s (cells_of st' o) ≡ true)

module _ {base o s : ℕ} {live live' : ℕ → Bool} {st st' : SlabPool} (v : IsSorted base live st)
    (m : Moves base o s live live' st st') where
  other-IsListed :
      (k t : ℕ) → IsOrder k → s ≢ t → has t (cells_of st k) ≡ true → IsListed base live' st' k t
  other-IsListed k t i ne h =
      let l = v.listed k t i h in
      record {
        page = l.page;
        is_live = m.same_live l.page (λ e. ne (sym e ∙ sym l.place)) ∙ l.is_live;
        place = l.place;
        order_eq = m.but.same_order t ne ∙ l.order_eq;
        some_free = rw (m.but.same_count t ne) l.some_free;
      }

  moved-IsListed :
      (k t : ℕ) → IsOrder k → has t (cells_of st' k) ≡ true → IsListed base live' st' k t
  moved-IsListed k t i h = elim (ℕ_discrete o k) [
    | yes e ↦ elim (ℕ_discrete s t) [
      | yes e' ↦
          subst (λ k. IsListed base live' st' k t) e
            (subst (IsListed base live' st' o) e' (
              m.if_held (
                subst (λ t. has t (cells_of st' o) ≡ true) (sym e')
                  (subst (λ k. has t (cells_of st' k) ≡ true) (sym e) h))))
      | no ne ↦
          subst (λ k. IsListed base live' st' k t) e
            (other-IsListed o t (subst IsOrder (sym e) i) ne
              (sym (m.same_members t ne) ∙ subst (λ k. has t (cells_of st' k) ≡ true) (sym e) h))
    ]
    | no ne ↦ elim (ℕ_discrete s t) [
      | yes e' ↦
          let before : has t (cells_of st k) ≡ true = ap (has t) (sym (m.others k ne)) ∙ h in
          absurd (ground (arith, before, m.home k i ne, ap (λ t. has t (cells_of st k)) e'))
      | no ne' ↦ other-IsListed k t i ne' (ap (has t) (sym (m.others k ne)) ∙ h)
    ]
  ]

  placed_at :
      (p : ℕ)
      → live' p ≡ true
      → count_at st' (address base p) ≢ 0
      → has (address base p) (cells_of st' (order_at st' (address base p))) ≡ true
  placed_at p l some_free = elim (ℕ_discrete s (address base p)) [
    | yes e ↦
        let (oe, h) = m.if_free p l e (rw e some_free) in
        subst (λ t. has t (cells_of st' (order_at st' t)) ≡ true) e (rw oe h)
    | no ne ↦
        let h =
          v.placed p (sym (m.same_live p (λ e. ne (sym e))) ∙ l)
            (rw (m.but.same_count (address base p) ne) at some_free) in
        elim (ℕ_discrete o (order_at st (address base p))) [
          | yes e ↦
              rw (m.but.same_order (address base p) ne, ← e)
                (m.same_members (address base p) ne ∙ rw (← e) at h)
          | no ne' ↦
              rw (m.but.same_order (address base p) ne)
                (ap (has (address base p)) (m.others (order_at st (address base p)) ne') ∙ h)
        ]
  ]

  pub Moves-IsSorted : IsSorted base live' st'
  Moves-IsSorted = record {
    listed = moved-IsListed;
    placed = placed_at;
    once = λ k i. elim (ℕ_discrete o k) [
      | yes e ↦ subst (λ k. NoDup (cells_of st' k)) e m.no_copy
      | no ne ↦ rw (m.others k ne) (v.once k i)
    ];
  }

-- No container but that of its order holds a slab.
pub held_at_home :
    {base : ℕ} {live : ℕ → Bool} {st : SlabPool}
    → IsSorted base live st
    → (s k : ℕ) → IsOrder k
    → order_at st s ≢ k
    → has s (cells_of st k) ≡ false
held_at_home {st} v s k i ne = elim (Bool-cases (has s (cells_of st k))) [
  | inl held ↦ absurd (ne (v.listed k s i held).order_eq)
  | inr out ↦ out
]

-- The header of one slab is written.
pub header-SameBut :
    {s : ℕ} {st st' : SlabPool}
    → ((t : ℕ) → s ≢ t → st'.headers t ≡ st.headers t)
    → SameBut s st st'
header-SameBut e = record {
  same_order = λ t ne. ap (λ (h : SlabHeader). h.order) (e t ne);
  same_count = λ t ne. ap (λ (h : SlabHeader). h.free_block_count) (e t ne);
}

-- The pool does not see which slab of a container is current.
pub IsPool-containers :
    {base n : ℕ} {used : ℕ → Option ℕ} {st : SlabPool} (cs : ℕ → SlabContainer)
    → ((k : ℕ) → cells (cs k) ≡ cells_of st k)
    → IsPool base n used st
    → IsPool base n used (record st { containers = cs })
IsPool-containers {st} cs e pool = record {
  head = pool.head;
  live = pool.live;
  free = pool.free;
  heap = IsHeap-containers cs pool.heap;
  sorted = record {
    listed = λ o s i h.
        let l = pool.sorted.listed o s i (rw (e o) at h) in
        record {
          page = l.page;
          is_live = l.is_live;
          place = l.place;
          order_eq = l.order_eq;
          some_free = l.some_free;
        };
    placed = λ p l some_free. rw (e _) (pool.sorted.placed p l some_free);
    once = λ o i. rw (e o) (pool.sorted.once o i);
  };
}
