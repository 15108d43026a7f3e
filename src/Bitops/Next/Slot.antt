-- ===== src/Bitops/Next/Slot.antt =====
-- The search in one word.
use kingdo_micro_kernel.Prelude.{
  ℕ, zero, suc, ◌+◌, ◌-◌, ◌≤◌, ◌<◌, ◌≡◌, refl, ap, ◌∙◌, inl, inr, Bool, true, false, Option, none,
  some, leb, Run, done, Bool-cases, arith,
}
use kingdo_micro_kernel.Bitops.{get_bit_in_slot, wanted, scan_slot}

-- In the word, no digit from `cur_bit` to `max_bit` is wanted, or the one `d` behind it is the first.
pub data Scans (slot : ℕ) (invert : Bool) (max_bit cur_bit res : ℕ)
    : Run (Option ℕ × ℕ) → Type 0 where
  passed :
      (k : ℕ)
      → k ≡ res + (max_bit + 1 - cur_bit)
      → ((i : ℕ)
          → cur_bit + i ≤ max_bit
          → wanted invert (get_bit_in_slot slot (cur_bit + i)) ≡ false)
      → Scans slot invert max_bit cur_bit res (done (none, k))
  hit :
      (d k : ℕ)
      → k ≡ res + d
      → cur_bit + d ≤ max_bit
      → wanted invert (get_bit_in_slot slot (cur_bit + d)) ≡ true
      → ((i : ℕ) → i < d → wanted invert (get_bit_in_slot slot (cur_bit + i)) ≡ false)
      → Scans slot invert max_bit cur_bit res (done (some k, k))

module _ (slot : ℕ) (invert : Bool) (max_bit cur_bit res : ℕ)
    (here : wanted invert (get_bit_in_slot slot cur_bit) ≡ false) where
  not_here :
      (i : ℕ)
      → ((j : ℕ) → i ≡ suc j → wanted invert (get_bit_in_slot slot (cur_bit + 1 + j)) ≡ false)
      → wanted invert (get_bit_in_slot slot (cur_bit + i)) ≡ false
  not_here zero later =
      let e : cur_bit + 0 ≡ cur_bit = omega arith in
      ap (λ (k : ℕ). wanted invert (get_bit_in_slot slot k)) e ∙ here
  not_here (suc i) later =
      let e : cur_bit + suc i ≡ cur_bit + 1 + i = omega arith in
      ap (λ (k : ℕ). wanted invert (get_bit_in_slot slot k)) e ∙ later i refl

  scan_on :
      {m : Run (Option ℕ × ℕ)}
      → cur_bit ≤ max_bit
      → Scans slot invert max_bit (cur_bit + 1) (res + 1) m
      → Scans slot invert max_bit cur_bit res m
  scan_on in_slot (passed k e none_on) =
      passed k (omega (arith, e)) λ i le. not_here i (λ j is. none_on j (omega (arith, is)))
  scan_on in_slot (hit d k e le is none_before) =
      hit (suc d) k (omega (arith, e)) (omega arith)
        (let e : cur_bit + suc d ≡ cur_bit + 1 + d = omega arith in
          ap (λ (k : ℕ). wanted invert (get_bit_in_slot slot k)) e ∙ is)
        (λ i less. not_here i (λ j is. none_before j (omega (arith, is))))

pub scan_slot-Scans :
    (fuel slot : ℕ) (invert : Bool) (max_bit cur_bit res : ℕ)
    → 0 < fuel
    → max_bit + 1 < cur_bit + fuel
    → Scans slot invert max_bit cur_bit res (scan_slot fuel slot invert max_bit cur_bit res)
unfolding scan_slot
scan_slot-Scans zero slot invert max_bit cur_bit res pos enough = absurd (omega arith)
scan_slot-Scans (suc fuel) slot invert max_bit cur_bit res pos enough =
    elim (Bool-cases (leb cur_bit max_bit)) [
      | inr over ↦ rw over (passed res (ground (arith, over)) λ i le. absurd (ground (arith, over)))
      | inl inside ↦ rw inside (elim (Bool-cases (wanted invert (get_bit_in_slot slot cur_bit))) [
        | inl found ↦ rw found (
            hit 0 res (omega arith) (ground (arith, inside))
              (let e : cur_bit + 0 ≡ cur_bit = omega arith in
                ap (λ (k : ℕ). wanted invert (get_bit_in_slot slot k)) e ∙ found)
              (λ i less. absurd (omega arith)))
        | inr other ↦ rw other (
            scan_on slot invert max_bit cur_bit res other (ground (arith, inside)) (
              scan_slot-Scans fuel slot invert max_bit (cur_bit + 1) (res + 1)
                (ground (arith, inside)) (omega arith)))
      ])
    ]
