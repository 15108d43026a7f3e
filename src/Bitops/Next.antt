-- ===== src/Bitops/Next.antt =====
-- The search for the next bit.
mod Slot
use native.Mathlib.Nat.{mod-eq_of_lt}
use kingdo_micro_kernel.Prelude.{
  ℕ, zero, suc, ◌+◌, ◌-◌, ◌*◌, ◌/◌, ◌%◌, ◌^◌, ◌≤◌, ◌<◌, ◌≡◌, refl, ap, subst, ◌∙◌, inl, inr, Bool,
  true, false, Option, none, some, ltb, leb, Run, done, ◌>>=◌, Bool-cases, arith,
}
use native.Mathlib.Decide.{dec_lt}
use kingdo_micro_kernel.Bitops.{
  get_bit_in_slot, last_bit, wanted, scan_slot, scan_slots, find_next_bit_helper,
}
use kingdo_micro_kernel.Bitops.Next.Slot.{Scans, passed, hit, scan_slot-Scans}

abbrev pub is_wanted : (ℕ → ℕ) → Bool → ℕ → Bool
is_wanted p invert k = wanted invert (get_bit_in_slot (p (k / 64)) (k % 64))

-- `r` is the first wanted bit from `start` on, or the size where there is none below it.
pub data IsFirst (p : ℕ → ℕ) (size start : ℕ) (invert : Bool) : ℕ → Type 0 where
  nowhere :
      ((k : ℕ) → start ≤ k → k < size → is_wanted p invert k ≡ false)
      → IsFirst p size start invert size
  there :
      (r : ℕ)
      → start ≤ r
      → r < size
      → is_wanted p invert r ≡ true
      → ((k : ℕ) → start ≤ k → k < r → is_wanted p invert k ≡ false)
      → IsFirst p size start invert r

IsFirst-le :
    {p : ℕ → ℕ} {size start : ℕ} {invert : Bool} {r : ℕ} → IsFirst p size start invert r → r ≤ size
IsFirst-le (nowhere none_in) = omega arith
IsFirst-le (there r low less is before) = omega arith

-- Bit `i` of word `idx`.
in_slot :
    (p : ℕ → ℕ) (invert : Bool) (idx i : ℕ)
    → i < 64
    → is_wanted p invert (64 * idx + i) ≡ wanted invert (get_bit_in_slot (p idx) i)
in_slot p invert idx i small =
    let q : (64 * idx + i) / 64 ≡ idx = omega arith in
    let r : (64 * idx + i) % 64 ≡ i = omega arith in rw (q, r) refl

last_bit_lem : (size : ℕ) → 0 < size → size < 2 ^ 64 → last_bit size ≡ size - 1
last_bit_lem size pos small = omega arith

module _ (p : ℕ → ℕ) (size start : ℕ) (invert : Bool) (pos : 0 < size) (small : size < 2 ^ 64) where
  abbrev Found : Run ℕ → Type 0
  Found m = (r : ℕ) × (m ≡ done r) × IsFirst p size start invert r

  abbrev last_word : ℕ
  last_word = last_bit size / 64

  -- Behind the last word the search ends.
  scan_slots-end :
      (fuel idx cur res : ℕ)
      → last_word < idx
      → scan_slots (suc fuel) p size invert idx cur res ≡ done size
  unfolding scan_slots
  scan_slots-end fuel idx cur res behind =
      let over : leb idx last_word ≡ false = ground arith in rw over refl

  module _ (fuel idx cur max_bit : ℕ) (in_words : idx ≤ last_word) (cur_in : cur < 64)
      (from : start ≤ 64 * idx + cur)
      (before : (k : ℕ) → start ≤ k → k < 64 * idx + cur → k < size → is_wanted p invert k ≡ false)
      (max_in : max_bit < 64) (max_below : 64 * idx + max_bit < size)
      (full : idx < last_word → max_bit ≡ 63)
      (ends : idx ≡ last_word → 64 * idx + max_bit + 1 ≡ size) where
    none_to :
        (k : ℕ)
        → ((i : ℕ) → cur + i ≤ max_bit → wanted invert (get_bit_in_slot (p idx) (cur + i)) ≡ false)
        → start ≤ k
        → k ≤ 64 * idx + max_bit
        → k < size
        → is_wanted p invert k ≡ false
    none_to k none_on low high below = elim (dec_lt k (64 * idx + cur)) [
      | yes earlier ↦ before k low earlier below
      | no later ↦
          let i = k - (64 * idx + cur) in
          let e : 64 * idx + (cur + i) ≡ k = omega arith in
          subst (λ k. is_wanted p invert k ≡ false) e
            (in_slot p invert idx (cur + i) (omega arith) ∙ none_on i (omega arith))
    ]

    next_word : ℕ → Run ℕ
    next_word r = scan_slots (suc fuel) p size invert (idx + 1) 0 r

    after_scan :
        {m : Run (Option ℕ × ℕ)}
        → (idx < last_word
            → ((k : ℕ)
                → start ≤ k
                → k < 64 * (idx + 1) + 0
                → k < size
                → is_wanted p invert k ≡ false)
            → Found (scan_slots (suc fuel) p size invert (idx + 1) 0 (64 * (idx + 1) + 0)))
        → Scans (p idx) invert max_bit cur (64 * idx + cur) m
        → Found (
            m >>= λ (found, res'). elim found [
              | some r ↦ done r
              | none ↦ scan_slots (suc fuel) p size invert (idx + 1) 0 res'
            ])
    after_scan rest (passed k e none_on) = elim (dec_lt idx last_word) [
      | yes more ↦
          let at : 64 * (idx + 1) + 0 ≡ k = omega (arith, e, full more) in
          subst (λ k. Found (scan_slots (suc fuel) p size invert (idx + 1) 0 k)) at
            (rest more λ j low high below. none_to j none_on low (omega (arith, full more)) below)
      | no over ↦
          let top : idx ≡ last_word = omega arith in
          (
            size,
            scan_slots-end fuel (idx + 1) 0 k (omega arith),
            nowhere λ j low below. none_to j none_on low (omega (arith, ends top)) below,
          )
    ]
    after_scan rest (hit d k e le is none_before) =
        let at : 64 * idx + (cur + d) ≡ k = omega (arith, e) in
        (
          k,
          refl,
          there k (omega arith) (omega arith)
              (subst (λ k. is_wanted p invert k ≡ true) at
                (in_slot p invert idx (cur + d) (omega arith) ∙ is))
              (λ j low less. elim (dec_lt j (64 * idx + cur)) [
                | yes earlier ↦ before j low earlier (omega arith)
                | no later ↦
                    let i = j - (64 * idx + cur) in
                    let e' : 64 * idx + (cur + i) ≡ j = omega arith in
                    subst (λ k. is_wanted p invert k ≡ false) e'
                      (in_slot p invert idx (cur + i) (omega arith) ∙ none_before i (omega arith))
              ]),
        )

  -- From bit `cur` of word `idx` on, where no bit before it is wanted.
  scan_slots-IsFirst :
      (fuel idx cur : ℕ)
      → last_word + 1 < idx + suc fuel
      → cur < 64
      → start ≤ 64 * idx + cur
      → ((k : ℕ) → start ≤ k → k < 64 * idx + cur → k < size → is_wanted p invert k ≡ false)
      → Found (scan_slots (suc fuel) p size invert idx cur (64 * idx + cur))
  unfolding scan_slots
  scan_slots-IsFirst zero idx cur enough cur_in from before = (
    size,
    scan_slots-end zero idx cur (64 * idx + cur) (omega arith),
    nowhere λ k low below. before k low (omega (arith, last_bit_lem size pos small)) below,
  )
  scan_slots-IsFirst (suc fuel) idx cur enough cur_in from before =
      let last = last_bit_lem size pos small in
      elim (dec_lt last_word idx) [
        | yes over ↦ (
          size,
          scan_slots-end (suc fuel) idx cur (64 * idx + cur) over,
          nowhere λ k low below. before k low (omega (arith, last)) below,
        )
        | no inside ↦
            let goes : leb idx last_word ≡ true = ground arith in
            let rest = λ (more : idx < last_word).
              scan_slots-IsFirst fuel (idx + 1) 0 (omega arith) (omega arith) (omega arith) in
            rw goes (elim (Bool-cases (ltb idx last_word)) [
              | inl more ↦
                  let less : idx < last_word = ground (arith, more) in
                  rw more (
                    after_scan fuel idx cur 63 (omega arith) cur_in from before (omega arith)
                      (omega (arith, last)) (λ _. refl) (λ e. absurd (omega (arith, less, e))) rest
                      (scan_slot-Scans 65 (p idx) invert 63 cur (64 * idx + cur) (omega arith)
                        (omega arith)))
              | inr done_all ↦
                  let top : idx ≡ last_word = ground (arith, done_all, inside) in
                  rw done_all (
                    after_scan fuel idx cur (last_bit size % 64) (omega arith) cur_in from before
                      (omega arith) (omega (arith, last, top))
                      (λ less. absurd (omega (arith, less, top))) (λ e. omega (arith, last, e)) rest
                      (scan_slot-Scans 65 (p idx) invert (last_bit size % 64) cur (64 * idx + cur)
                        (omega arith) (omega arith)))
            ])
      ]

-- For a size from 1 to 2 ^ 31 - 1 and any start, find_next_bit_helper ends and returns the first
-- bit from the start on and below the size that is set, or with invert the first that is clear, or
-- the size where there is none.
pub find_next_bit_helper-IsFirst :
    (p : ℕ → ℕ) (size start : ℕ) (invert : Bool)
    → 0 < size
    → size < 2 ^ 31
    → (r : ℕ) × (find_next_bit_helper p size start invert ≡ done r) × IsFirst p size start invert r
unfolding find_next_bit_helper
find_next_bit_helper-IsFirst p size start invert pos small =
    let at : 64 * (start / 64) + start % 64 ≡ start = omega arith in
    let (r, e, first) =
      scan_slots-IsFirst p size start invert pos (omega arith) (last_bit size / 64 + 1) (start / 64)
        (start % 64) (omega arith) (omega arith) (omega arith)
        (λ k low less below. absurd (omega arith)) in
    let fuel : last_bit size / 64 + 2 ≡ suc (last_bit size / 64 + 1) = omega arith in
    let run : scan_slots (last_bit size / 64 + 2) p size invert (start / 64) (start % 64) start
        ≡ done r =
      rw fuel (rw at at e) in
    let as_int : r % 2 ^ 32 ≡ r = mod-eq_of_lt (omega (arith, IsFirst-le first)) in
    (r, rw run (ap done as_int), first)
