-- ===== src/Buddy/Init/Populate.antt =====
-- The loops of `populate_page`, and the region that `init_buddy` leaves.
use native.Mathlib.Nat.{add_assoc, add-mod_right, mod-eq-sub-mod}
use kingdo_micro_kernel.Prelude.{
  ℕ, zero, suc, ◌+◌, ◌-◌, ◌*◌, ◌%◌, ◌^◌, ◌≤◌, ◌<◌, ◌≡◌, ◌≢◌, inl, inr, sym, ap, subst, ◌∙◌, refl,
  true, false, none, some, ltb, leb, [], Run, done, stop, fault, arith, Bool-cases, dec_lt,
}
use kingdo_micro_kernel.Prelude.Arith.{two_pow_pos, aligned_le}
use kingdo_micro_kernel.Buddy.{
  buddy_max_order, page_size, chunk_size, round_up, MemRegion, page_to_virt, wrap64, virt_to_page,
}
use kingdo_micro_kernel.Buddy.Layout.{IsAt, IsLayout, page_to_virt_lem, virt_to_page_lem}
use kingdo_micro_kernel.Buddy.{FreeList, put_page, sum_free, get_free_pages_nums_from_buddy}
use kingdo_micro_kernel.Buddy.Count.{free_pages, free_pages-add_free}
use kingdo_micro_kernel.Buddy.Tiling.{IsTiled, InChunk-of, order_of, allocated_of, nodes_of}
use kingdo_micro_kernel.Buddy.Init.{
  populate_at, populate_null, forward_null, page_pointer, page_struct_size, put_chunk, fill_up,
  fill_down, forward, backward, populate_from, populate_page,
}
use kingdo_micro_kernel.Buddy.Init.Fill.{IsFilled, IsFilled-IsTiled, put_chunk-IsFilled}

free_pages-put_chunk :
    (o p : ℕ) (s : MemRegion)
    → o < buddy_max_order
    → free_pages (put_chunk o p s) ≡ free_pages s + 2 ^ o
unfolding put_chunk
free_pages-put_chunk o p s lt =
    free_pages-add_free o p (put_page p (record { allocated = 0; order = o; slab = none }) s) lt

-- `x` is aligned to every order below `k`.
abbrev AlignedBelow : ℕ → ℕ → Type 0
AlignedBelow k x = (o : ℕ) → o < k → x % 2 ^ o ≡ 0

record Filled (base n lo hi : ℕ) (s : MemRegion) : Type 0 where
  head : ℕ → ℕ
  filled : IsFilled base n head lo hi s
  ordered : (lo ≤ hi) × (hi ≤ n)
  count : free_pages s + lo ≡ hi

-- The loop at one order ends where the next chunk would not fit.
data GoesUp (base n lo o : ℕ) : Run (ℕ × MemRegion) → Type 0 where
  up :
      {page : ℕ} {s : MemRegion}
      → Filled base n lo page s
      → n < page + 2 ^ o
      → (base + page) % 2 ^ o ≡ 0
      → GoesUp base n lo o (done (page, s))

data GoesDown (base n o : ℕ) : Run (ℕ × MemRegion) → Type 0 where
  down :
      {page : ℕ} {s : MemRegion}
      → Filled base n page n s
      → page < 2 ^ o
      → (base + page) % 2 ^ o ≡ 0
      → GoesDown base n o (done (page, s))

module _ {base n : ℕ} where
  fill_up-GoesUp :
      (fuel lo o page : ℕ) (s : MemRegion)
      → o < buddy_max_order
      → Filled base n lo page s
      → (base + page) % 2 ^ o ≡ 0
      → n < page + fuel
      → GoesUp base n lo o (fill_up fuel o page n s)
  unfolding fill_up
  fill_up-GoesUp zero lo o page s small f aligned enough = absurd (omega (arith, f.ordered))
  fill_up-GoesUp (suc fuel) lo o page s small f aligned enough =
      elim (Bool-cases (ltb (page + 2 ^ o - 1) n)) [
        | inl fits ↦
            let room : page + 2 ^ o ≤ n = ground (arith, two_pow_pos o) in
            rw fits (
              fill_up-GoesUp fuel lo o (page + 2 ^ o) (put_chunk o page s) small
                (record {
                  head = _;
                  filled =
                      put_chunk-IsFilled f.filled small room aligned (λ q a b. inr a) lo
                        (page + 2 ^ o) (omega arith) (omega arith) (omega (arith, f.ordered))
                        (λ q a b. elim (dec_lt q page) [
                          | yes below ↦ inr (a, below)
                          | no above ↦ inl (omega arith, b)
                        ]);
                  ordered = omega (arith, f.ordered);
                  count = omega (arith, f.count, f.ordered, free_pages-put_chunk o page s small);
                })
                (rw (← add_assoc base page (2 ^ o), add-mod_right) aligned)
                (omega (arith, two_pow_pos o)))
        | inr full ↦ rw full (up f (ground (arith, two_pow_pos o)) aligned)
      ]

  fill_down-GoesDown :
      (fuel o page : ℕ) (s : MemRegion)
      → o < buddy_max_order
      → Filled base n page n s
      → (base + page) % 2 ^ o ≡ 0
      → page < fuel
      → GoesDown base n o (fill_down fuel o page 0 s)
  unfolding fill_down
  fill_down-GoesDown zero o page s small f aligned enough = absurd (omega arith)
  fill_down-GoesDown (suc fuel) o page s small f aligned enough =
      elim (Bool-cases (leb (0 + 2 ^ o) page)) [
        | inl fits ↦
            let room : 2 ^ o ≤ page = ground arith in
            let shift : base + (page - 2 ^ o) ≡ base + page - 2 ^ o = omega arith in
            let lower : (base + (page - 2 ^ o)) % 2 ^ o ≡ 0 =
              ap (λ (t : ℕ). t % 2 ^ o) shift
              ∙ sym (mod-eq-sub-mod {n = base + page} {m = 2 ^ o} (omega arith))
              ∙ aligned in
            rw fits (
              fill_down-GoesDown fuel o (page - 2 ^ o) (put_chunk o (page - 2 ^ o) s) small
                (record {
                  head = _;
                  filled =
                      put_chunk-IsFilled f.filled small (omega (arith, f.ordered)) lower
                        (λ q a b. inl (omega arith)) (page - 2 ^ o) n (omega arith) (omega arith)
                        (omega (arith, f.ordered))
                        (λ q a b. elim (dec_lt q page) [
                          | yes below ↦ inl (a, omega arith)
                          | no above ↦ inr (omega arith, b)
                        ]);
                  ordered = omega (arith, f.ordered);
                  count =
                      omega
                        (arith, f.count, f.ordered, free_pages-put_chunk o (page - 2 ^ o) s small);
                })
                lower (omega (arith, two_pow_pos o)))
        | inr full ↦ rw full (down f (ground arith) aligned)
      ]

data FillsUp (base n lo : ℕ) : Run (ℕ × MemRegion) → Type 0 where
  up : {page : ℕ} {s : MemRegion} → Filled base n lo n s → FillsUp base n lo (done (page, s))

data FillsDown (base n : ℕ) : Run (ℕ × MemRegion) → Type 0 where
  down : {page : ℕ} {s : MemRegion} → Filled base n 0 n s → FillsDown base n (done (page, s))

GoesUp-inv :
    {base n lo o : ℕ} {r : Run (ℕ × MemRegion)}
    → GoesUp base n lo o r
    → (page : ℕ) × (s : MemRegion) × (r ≡ done (page, s))
      × Filled base n lo page s
      × (n < page + 2 ^ o)
      × ((base + page) % 2 ^ o ≡ 0)
GoesUp-inv (up {page} {s} f near a) = (page, s, refl, f, near, a)

GoesDown-inv :
    {base n o : ℕ} {r : Run (ℕ × MemRegion)}
    → GoesDown base n o r
    → (page : ℕ) × (s : MemRegion) × (r ≡ done (page, s))
      × Filled base n page n s
      × (page < 2 ^ o)
      × ((base + page) % 2 ^ o ≡ 0)
GoesDown-inv (down {page} {s} f near a) = (page, s, refl, f, near, a)

module _ {base n : ℕ} where
  forward-FillsUp :
      (k lo page : ℕ) (s : MemRegion)
      → k ≤ buddy_max_order
      → Filled base n lo page s
      → AlignedBelow k (base + page)
      → (k ≡ 0 → n ≤ page)
      → FillsUp base n lo (forward k page n s)
  unfolding forward
  forward-FillsUp zero lo page s le f aligned last =
      let e : page ≡ n = omega (arith, f.ordered, last refl) in
      up (subst (λ k. Filled base n lo k s) e f)
  forward-FillsUp (suc o) lo page s le f aligned last =
      let (page', s', e, f', near, a) = GoesUp-inv (
        fill_up-GoesUp (n + 1) lo o page s (omega arith) f (aligned o (omega arith))
          (omega arith)) in
      rw e (
        forward-FillsUp o lo page' s' (omega arith) f'
          (λ k lt. aligned_le k o (base + page') (omega arith) a)
          (λ e. ground (arith, near, e, ap (λ (k : ℕ). 2 ^ k) e)))

  backward-FillsDown :
      (k page : ℕ) (s : MemRegion)
      → k ≤ buddy_max_order
      → Filled base n page n s
      → AlignedBelow k (base + page)
      → (k ≡ 0 → page ≡ 0)
      → FillsDown base n (backward k page 0 s)
  unfolding backward
  backward-FillsDown zero page s le f aligned last =
      down (subst (λ k. Filled base n k n s) (last refl) f)
  backward-FillsDown (suc o) page s le f aligned last =
      let (page', s', e, f', near, a) = GoesDown-inv (
        fill_down-GoesDown (page + 1) o page s (omega arith) f (aligned o (omega arith))
          (omega arith)) in
      rw e (
        backward-FillsDown o page' s' (omega arith) f'
          (λ k lt. aligned_le k o (base + page') (omega arith) a)
          (λ e. ground (arith, near, e, ap (λ (k : ℕ). 2 ^ k) e)))

-- A populated region.
pub data Populates (base n : ℕ) : Run MemRegion → Type 0 where
  populated :
      {s : MemRegion} (head : ℕ → ℕ)
      → IsTiled base n head n s
      → ((q : ℕ) → q < n → allocated_of s q ≢ 1)
      → get_free_pages_nums_from_buddy s ≡ n
      → Populates base n (done s)

Filled-Populates : {base n : ℕ} {s : MemRegion} → Filled base n 0 n s → Populates base n (done s)
unfolding get_free_pages_nums_from_buddy
Filled-Populates f =
    populated f.head (IsFilled-IsTiled f.filled) f.filled.free (omega (arith, f.count))

FillsUp-inv :
    {base n lo : ℕ} {r : Run (ℕ × MemRegion)}
    → FillsUp base n lo r
    → (page : ℕ) × (s : MemRegion) × (r ≡ done (page, s)) × Filled base n lo n s
FillsUp-inv (up {page} {s} f) = (page, s, refl, f)

FillsDown-inv :
    {base n : ℕ} {r : Run (ℕ × MemRegion)}
    → FillsDown base n r
    → (page : ℕ) × (s : MemRegion) × (r ≡ done (page, s)) × Filled base n 0 n s
FillsDown-inv (down {page} {s} f) = (page, s, refl, f)

-- A region as `init_buddy` hands it to `populate_page`: empty lists, and pages set to zero.
pub record IsBlank (n : ℕ) (s : MemRegion) : Type 0 where
  pub empty : (o : ℕ) → o < buddy_max_order → (nodes_of s o ≡ []) × ((s.free_lists o).nr_free ≡ 0)
  pub zeroed : (p : ℕ) → p < n → (order_of s p ≡ 0) × (allocated_of s p ≡ 0)

sum_free_zero :
    (lists : ℕ → FreeList) (k : ℕ)
    → ((o : ℕ) → o < k → (lists o).nr_free ≡ 0)
    → sum_free k lists ≡ 0
unfolding sum_free
sum_free_zero lists zero e = refl
sum_free_zero lists (suc k) e = omega (
  arith,
  sum_free_zero lists k (λ o lt. e o (omega arith)),
  ap (λ (t : ℕ). t * 2 ^ k) (e k (omega arith)),
)

-- the first page of the region on a boundary of the largest chunks
abbrev pub first_aligned : ℕ → ℕ
first_aligned base = base + 1023 - (base + 1023) % 1024 - base

module _ {base n : ℕ} {s : MemRegion} (at : IsAt base n s) (lay : IsLayout base n) where
  address :
      0 < n
      → round_up (page_to_virt s 0) (chunk_size (buddy_max_order - 1))
        ≡ (base + first_aligned base) * page_size
  address pos = rw (page_to_virt_lem lay 0 at pos) (omega arith)

-- In a region that is not empty and ends at or before its first 4 MB boundary, which is below 2 ^
-- 64, with page structures from 2 ^ 15 on and below 2 ^ 64: populate_page writes through NULL.
pub populate_page-faults :
    {base n : ℕ} {s : MemRegion}
    → IsAt base n s
    → 0 < n
    → n ≤ first_aligned base
    → (base + first_aligned base) * page_size < 2 ^ 64
    → 2 ^ 15 ≤ s.page_arrry
    → s.page_arrry + n * page_struct_size < 2 ^ 64
    → populate_page 0 n s ≡ stop fault
unfolding populate_page populate_from populate_null forward_null page_to_virt virt_to_page
populate_page-faults {base} {n} {s} at pos out fits low array =
    let here : wrap64 (s.start_addr + 0 * page_size) ≡ base * page_size = ground arith in
    let up : round_up (base * page_size) (chunk_size (buddy_max_order - 1))
        ≡ (base + first_aligned base) * page_size =
      omega arith in
    let outside : virt_to_page s ((base + first_aligned base) * page_size) ≡ none = ground arith in
    let not_behind : leb (page_pointer s (some (0 + n))) 0 ≡ false = ground arith in
    let holds : ltb ((2 ^ 10 - 1) * page_struct_size) (page_pointer s (some (0 + n))) ≡ true =
      ground arith in
    rw (here, up, outside, not_behind, holds) refl

module _ {base n : ℕ} {s : MemRegion} (at : IsAt base n s) (blank : IsBlank n s) where
  blank-IsFilled : (a : ℕ) → IsFilled base n (λ q. q) a a s
  blank-IsFilled a = record {
    at = at;
    covers = λ q h.
        InChunk-of 0 (blank.zeroed q h).0 (omega arith) (omega arith) (omega arith) (omega arith)
          (omega arith);
    whole = λ q r h l u. omega (arith, ap (λ (k : ℕ). 2 ^ k) (blank.zeroed q h).0);
    free = λ q h. omega (arith, blank.zeroed q h);
    single = λ q h b. (refl, (blank.zeroed q h).0);
    listed = λ o p lt h. absurd (ground (arith, blank.empty o lt));
    complete = λ p l u h is. absurd (omega arith);
    once = λ o lt. rw (blank.empty o lt).0 tt;
    counted = λ o lt. rw ((blank.empty o lt).0, (blank.empty o lt).1) refl;
  }

  none_free : free_pages s ≡ 0
  none_free = sum_free_zero s.free_lists buddy_max_order (λ o lt. (blank.empty o lt).1)

  module _ (lay : IsLayout base n) where
    -- A region with empty lists and zeroed pages that ends on a 4 MB boundary, and has a page on
    -- one, is tiled by populate_page with free chunks only, which get_free_pages_nums_from_buddy
    -- counts as all its pages.
    pub populate_page-Populates : first_aligned base < n → Populates base n (populate_page 0 n s)
    unfolding populate_page populate_from populate_at
    populate_page-Populates room =
        let (p, s', e, f) = FillsUp-inv (
          forward-FillsUp buddy_max_order (first_aligned base) (first_aligned base) s (omega arith)
            (record {
              head = _;
              filled = blank-IsFilled (first_aligned base);
              ordered = omega arith;
              count = omega (arith, none_free);
            })
            (λ o lt. aligned_le o 10 (base + first_aligned base) (omega arith) (omega arith))
            (λ z. absurd (omega arith))) in
        let (p', s'', e', f') = FillsDown-inv (
          backward-FillsDown (buddy_max_order - 1) (first_aligned base) s' (omega arith) f
            (λ o lt. aligned_le o 10 (base + first_aligned base) (omega arith) (omega arith))
            (λ z. absurd (omega arith))) in
        rw
          (
            address at lay (omega arith),
            virt_to_page_lem lay (first_aligned base) at room,
            in_region,
            zero_add,
            e,
            e',
          )
          (Filled-Populates f')
      where
        zero_add : 0 + n ≡ n
        zero_add = omega arith

        in_region : leb (0 + n) (first_aligned base) ≡ false
        in_region = ground arith
