-- ===== src/Boot/Fill.antt =====
-- What a loop of `init_kernel_pt` writes.
use kingdo_micro_kernel.Prelude.{
  ℕ, zero, suc, ◌+◌, ◌*◌, ◌≤◌, ◌<◌, ◌≡◌, refl, sym, ap, ◌∙◌, ◌⊎◌, inl, true, false, ltb, update,
  update_self, update_ne, done, arith, ℕ_discrete,
}
use kingdo_micro_kernel.Boot.{fill}

-- The entries from `s` to `e` are blocks, the rest is as before.
pub record Filled (step bits s e : ℕ) (t t' : ℕ → ℕ) : Type 0 where
  pub inside : (k : ℕ) → s ≤ k → k < e → t' k ≡ k * step + bits
  pub outside : (k : ℕ) → (k < s) ⊎ (e ≤ k) → t' k ≡ t k

module _ (limit step bits : ℕ) (index : ℕ → ℕ) where
  fill-step :
      (fuel s : ℕ) (t : ℕ → ℕ)
      → s * step < limit
      → index (s * step) ≡ s
      → fill (suc fuel) limit step index bits (s * step) t
        ≡ fill fuel limit step index bits ((s + 1) * step) (update t s (s * step + bits))
  unfolding fill
  fill-step fuel s t more here =
      let next : s * step + step ≡ (s + 1) * step = omega arith in
      let goes : ltb (s * step) limit ≡ true = ground (arith, more) in rw (goes, here, next) refl

  -- The loop ends at the first block from the limit on.
  pub fill-Filled :
      (c fuel s : ℕ) (t : ℕ → ℕ)
      → c < fuel
      → limit ≤ (s + c) * step
      → ((k : ℕ) → k < s + c → k * step < limit)
      → ((k : ℕ) → s ≤ k → k < s + c → index (k * step) ≡ k)
      → (t' : ℕ → ℕ) × (fill fuel limit step index bits (s * step) t ≡ done ((s + c) * step, t'))
        × Filled step bits s (s + c) t t'
  unfolding fill
  fill-Filled c zero s t enough ends below at = absurd (omega arith)
  fill-Filled zero (suc fuel) s t enough ends below at =
      let e : s + 0 ≡ s = omega arith in
      let stops : ltb (s * step) limit ≡ false = ground (arith, ap (λ k. k * step) e) in
      (
        t,
        rw stops (ap (λ k. done (k * step, t)) (sym e)),
        record { inside = λ k a b. absurd (omega arith); outside = λ k away. refl },
      )
  fill-Filled (suc c) (suc fuel) s t enough ends below at =
      let end : s + 1 + c ≡ s + suc c = omega arith in
      let more : s * step < limit = below s (omega arith) in
      let here : index (s * step) ≡ s = at s (omega arith) (omega arith) in
      let (t', e, f) =
        fill-Filled c fuel (s + 1) (update t s (s * step + bits)) (omega arith)
          (omega (arith, ends, ap (λ k. k * step) end)) (λ k less. below k (omega arith))
          (λ k a b. at k (omega arith) (omega arith)) in
      (
        t',
        fill-step fuel s t more here ∙ e ∙ ap (λ k. done (k * step, t')) end,
        record {
          inside = λ k a b. elim (ℕ_discrete s k) [
            | yes same ↦
                ap t' (sym same)
                ∙ f.outside s (inl (omega arith))
                ∙ update_self t s (s * step + bits)
                ∙ ap (λ k. k * step + bits) same
            | no later ↦ f.inside k (omega arith) (omega arith)
          ];
          outside = λ k away.
              f.outside k (omega (arith, away))
              ∙ update_ne t s (s * step + bits) k (λ e. omega (arith, away, e));
        },
      )
