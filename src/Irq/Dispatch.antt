-- ===== src/Irq/Dispatch.antt =====
-- What an interrupt does: the timer, or the serial port.
use native.Mathlib.Nat.{le-div_iff_mul-le, pow-le-pow_right}
use kingdo_micro_kernel.Prelude.{
  ℕ, zero, suc, ◌*◌, ◌/◌, ◌%◌, ◌^◌, ◌≤◌, ◌<◌, ◌≡◌, refl, false, ltb, ◌==◌, if◌then◌else◌, Run, done,
  arith, dec_lt,
}
use kingdo_micro_kernel.Prelude.Arith.{two_pow_pos, aligned_le}
use kingdo_micro_kernel.Uart.{Port}
use kingdo_micro_kernel.Irq.{ctzl, Core, plat_set_init_timer, peripheral_irq, plat_handle_irq}

-- `k` is the number of the zeros below the lowest one of `x`, which `__builtin_ctzl` returns.
pub record IsCtz (x k : ℕ) : Type 0 where
  pub zeros : x % 2 ^ k ≡ 0
  pub one : x / 2 ^ k % 2 ≡ 1

-- A shift of 32 and more is past a number of 32 bits.
shift_small : (x k : ℕ) → x < 2 ^ 32 → x / 2 ^ k % 2 ≡ 1 → k < 32
shift_small x k small one = elim (dec_lt k 32) [
  | yes h ↦ h
  | no h ↦
      let some_part : 1 ≤ x / 2 ^ k = omega (arith, one) in
      let a : 1 * 2 ^ k ≤ x =
        (le-div_iff_mul-le {k = 2 ^ k} {x = 1} {y = x} (two_pow_pos k)).0 some_part in
      absurd
        (omega (arith, a, pow-le-pow_right {n = 2} (omega arith) {i = 32} {j = k} (omega arith)))
]

-- The lowest one is bit 1 just where the last two bits are 10.
lowest_timer : (x k : ℕ) → x % 2 ^ k ≡ 0 → x / 2 ^ k % 2 ≡ 1 → (2 ^ k == 2) ≡ (x % 4 == 2)
lowest_timer x zero z o = ground arith
lowest_timer x (suc zero) z o = ground arith
lowest_timer x (suc (suc k)) z o =
    let a : x % 2 ^ 2 ≡ 0 = aligned_le 2 (suc (suc k)) x (omega arith) z in
    let b = pow-le-pow_right {n = 2} (omega arith) {i = 2} {j = suc (suc k)} (omega arith) in
    ground (arith, a, b)

module _ (ctz : ℕ → ℕ) (src pending_word : ℕ) (is_ctz : IsCtz src (ctz src)) (some_source : 0 < src)
    (small : src < 2 ^ 32) (s : Core) where
  -- The timer comes first where its source is the lowest.
  pub plat_handle_irq-cases :
      (handler : Port → Run Port) (cpuid : ℕ)
      → plat_handle_irq ctz cpuid src pending_word handler s ≡ (
          if src % 4 == 2
          then done (plat_set_init_timer s)
          else peripheral_irq cpuid pending_word handler s)
  unfolding plat_handle_irq ctzl
  plat_handle_irq-cases handler cpuid =
      let o = is_ctz.one in
      let z = is_ctz.zeros in
      let short : ltb 31 (ctz src) ≡ false = ground (arith, shift_small src (ctz src) small o) in
      let some_bit : (src == 0) ≡ false = ground arith in
      rw (some_bit, short, lowest_timer src (ctz src) z o) refl
