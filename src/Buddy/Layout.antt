-- ===== src/Buddy/Layout.antt =====
-- Where the pages lie: the address of a page, and the page that `merge_chunk` finds for a chunk.
-- Frame numbers count pages from address 0, so page `p` of a region that starts at frame `base` is
-- frame `base + p`.
use native.Mathlib.Decide.{dec_lt}
use native.Mathlib.Nat.{mul_comm, add_assoc, add-mod_right}
use native.Mathlib.Numerals.{add-one}
use kingdo_micro_kernel.Prelude.{
  ℕ, suc, ◌+◌, ◌-◌, ◌*◌, ◌%◌, ◌^◌, ◌≤◌, ◌<◌, ◌≡◌, refl, ◌⊎◌, inl, inr, none, some, ltb,
  if◌then◌else◌, arith,
}
use kingdo_micro_kernel.Prelude.Arith.{
  two_pow_suc, two_pow_add, two_pow_pos, aligned_gap, aligned_cases, aligned_le, aligned_half,
  aligned_lower, mod_scale,
}
use kingdo_micro_kernel.Buddy.{
  page_size, chunk_size, MemRegion, page_to_virt, virt_to_page, lower_chunk, merge_pair,
}

-- The region begins on a page and ends on a chunk of the highest order, below 2 ^ 64.
-- (PHYS_MEM_END is 0x3F000000, a multiple of 4 MB.)
pub record IsLayout (base n : ℕ) : Type 0 where
  pub end_aligned : (base + n) % 2 ^ 10 ≡ 0
  pub end_fits : (base + n) * page_size < 2 ^ 64

pub record IsAt (base n : ℕ) (s : MemRegion) : Type 0 where
  pub at_start : s.start_addr ≡ base * page_size
  pub at_size : s.size ≡ n * page_size
  pub at_num : s.page_num ≡ n

module _ {base n : ℕ} (lay : IsLayout base n) where
  pub page_to_virt_lem :
      {s : MemRegion} (p : ℕ) → IsAt base n s → p < n → page_to_virt s p ≡ (base + p) * page_size
  unfolding page_to_virt
  page_to_virt_lem p at h = ground arith

  pub virt_to_page_lem :
      {s : MemRegion} (p : ℕ)
      → IsAt base n s
      → p < n
      → virt_to_page s ((base + p) * page_size) ≡ some p
  unfolding virt_to_page
  virt_to_page_lem p at h = ground arith

  pub virt_to_page-inside :
      {s : MemRegion} (p x : ℕ)
      → IsAt base n s
      → p < n
      → x < page_size
      → virt_to_page s ((base + p) * page_size + x) ≡ some p
  unfolding virt_to_page
  virt_to_page-inside p x at h small = ground arith

  pub virt_to_page-low :
      {s : MemRegion} (ptr : ℕ) → IsAt base n s → ptr < base * page_size → virt_to_page s ptr ≡ none
  unfolding virt_to_page
  virt_to_page-low ptr at h = ground arith

  pub virt_to_page-high :
      {s : MemRegion} (ptr : ℕ)
      → IsAt base n s
      → (base + n) * page_size ≤ ptr
      → virt_to_page s ptr ≡ none
  unfolding virt_to_page
  virt_to_page-high ptr at h = ground arith

-- `merge_chunk` joins `chunk` with its buddy to the chunk of the next order at `low`.
pub record IsPair (base n chunk order low buddy : ℕ) : Type 0 where
  pub low_aligned : (base + low) % (2 * 2 ^ order) ≡ 0
  pub buddy_aligned : (base + buddy) % 2 ^ order ≡ 0
  pub in_range : low + 2 * 2 ^ order ≤ n
  pub halves : (chunk ≡ low) × (buddy ≡ low + 2 ^ order) ⊎ (buddy ≡ low) × (chunk ≡ low + 2 ^ order)

module _ {base n : ℕ} (lay : IsLayout base n) {s : MemRegion} (at : IsAt base n s)
    (p order : ℕ) where
  module _ (small : order < 10) (fits : p + 2 ^ order ≤ n) where
    chunk_size_next : chunk_size (order + 1) ≡ page_size * (2 * 2 ^ order)
    chunk_size_next = rw (two_pow_add 12 (order + 1), add-one) (omega (arith, two_pow_suc order))

    -- The address is rounded down by the frame's remainder.
    lower_chunk-mod :
        lower_chunk s p order
        ≡ virt_to_page s (page_size * (base + p) - page_size * ((base + p) % (2 * 2 ^ order)))
    unfolding lower_chunk
    lower_chunk-mod = rw (
      page_to_virt_lem lay p at in_region,
      chunk_size_next,
      mul_comm (base + p) page_size,
      mod_scale page_size (base + p) (2 * 2 ^ order) (omega arith) pos,
    )
      where
        in_region : p < n
        in_region = omega (arith, two_pow_pos order)

        pos : 0 < 2 * 2 ^ order
        pos = omega (arith, two_pow_pos order)

    lower_chunk-even : (base + p) % (2 * 2 ^ order) ≡ 0 → lower_chunk s p order ≡ some p
    lower_chunk-even e =
        rw (lower_chunk-mod, e) (unfold virt_to_page in (ground (arith, two_pow_pos order)))

    lower_chunk-odd :
        (base + p) % (2 * 2 ^ order) ≡ 2 ^ order
        → lower_chunk s p order ≡ (if ltb p (2 ^ order) then none else some (p - 2 ^ order))
    lower_chunk-odd e =
        rw (lower_chunk-mod, e) (unfold virt_to_page in (ground (arith, two_pow_pos order)))

    IsPair-even :
        (base + p) % 2 ^ order ≡ 0
        → (base + p) % (2 * 2 ^ order) ≡ 0
        → IsPair base n p order p (p + 2 ^ order)
    IsPair-even aligned even = record {
      low_aligned = even;
      buddy_aligned = rw (← add_assoc base p (2 ^ order), add-mod_right) aligned;
      in_range = omega (arith, two_pow_pos order, gap);
      halves = inl (refl, refl);
    }
      where
        end : (base + n) % (2 * 2 ^ order) ≡ 0
        end =
            rw (two_pow_suc order) at
              (aligned_le (suc order) 10 (base + n) (omega arith) lay.end_aligned)

        gap : base + p + 2 * 2 ^ order ≤ base + n
        gap =
            aligned_gap (2 * 2 ^ order) (base + p) (base + n) (omega (arith, two_pow_pos order))
              even end (omega (arith, two_pow_pos order))

    IsPair-odd :
        (base + p) % (2 * 2 ^ order) ≡ 2 ^ order
        → 2 ^ order ≤ p
        → IsPair base n p order (p - 2 ^ order) (p - 2 ^ order)
    IsPair-odd odd above = record {
      low_aligned = lowered;
      buddy_aligned = aligned_half (2 ^ order) (base + (p - 2 ^ order)) lowered;
      in_range = omega arith;
      halves = inr (refl, omega arith);
    }
      where
        shift : base + (p - 2 ^ order) ≡ base + p - 2 ^ order
        shift = omega arith

        lowered : (base + (p - 2 ^ order)) % (2 * 2 ^ order) ≡ 0
        lowered = rw shift (aligned_lower (2 ^ order) (base + p) (two_pow_pos order) odd)

    -- The chunk and its buddy, where there is one in the region.
    pub merge_pair_cases :
        (base + p) % 2 ^ order ≡ 0
        → (merge_pair (lower_chunk s p order) p order ≡ none)
          ⊎ ((low : ℕ) × (buddy : ℕ) × (merge_pair (lower_chunk s p order) p order
                ≡ some (low, buddy))
              × IsPair base n p order low buddy)
    unfolding merge_pair
    merge_pair_cases aligned =
        elim (aligned_cases (2 ^ order) (base + p) (two_pow_pos order) aligned) [
          | inl even ↦ inr (
            p,
            p + 2 ^ order,
            rw (lower_chunk-even even) (ground arith),
            IsPair-even aligned even,
          )
          | inr odd ↦ elim (dec_lt p (2 ^ order)) [
            | yes below ↦ inl (rw (lower_chunk-odd odd) (ground arith))
            | no above ↦ inr (
              p - 2 ^ order,
              p - 2 ^ order,
              rw (lower_chunk-odd odd) (ground (arith, two_pow_pos order)),
              IsPair-odd odd (omega arith),
            )
          ]
        ]
