-- ===== src/Irq/Timer.antt =====
-- arch/aarch64/plat/raspi3/irq/timer.c: the timer of a core, and the time since the start.
use native.Mathlib.Nat.{le-div_iff_mul-le, div-mul-le_self, mul-le-mul_left, mul-div-mul_right}
use kingdo_micro_kernel.Prelude.{
  ℕ, ◌+◌, ◌-◌, ◌*◌, ◌/◌, ◌%◌, ◌^◌, ◌≤◌, ◌<◌, ◌≡◌, refl, sym, ap, ◌∙◌, false, [], ◌∷◌, ◌==◌,
  if◌then◌else◌, Run, done, stop, fault, arith,
}
use kingdo_micro_kernel.Irq.{cntp_tval_el0, cntp_ctl_el0, timer_irqcntl, Writes, int_src_timer1}

abbrev pub tick_ms : ℕ
tick_ms = 10

abbrev pub ns_in_us : ℕ
ns_in_us = 1000

-- The variables that `plat_timer_init` sets.
pub record Timer : Type 0 where
  pub cntp_init : ℕ
  pub cntp_freq : ℕ
  pub cntp_tval : ℕ
  pub tick_per_us : ℕ

-- `count` and `freq` are what the registers cntpct_el0 and cntfrq_el0 hold.
unfoldable pub plat_timer_init : ℕ → ℕ → ℕ → Timer × Writes
plat_timer_init cpuid count freq =
    let tval = freq * tick_ms % 2 ^ 64 / 1000 in
    (
      record {
        cntp_init = count;
        cntp_freq = freq;
        cntp_tval = tval;
        tick_per_us = freq / 1000 / 1000;
      },
      (cntp_tval_el0, tval) ∷ (timer_irqcntl cpuid, int_src_timer1) ∷ (cntp_ctl_el0, 1) ∷ [],
    )

unfoldable pub plat_set_next_timer : ℕ → Writes
plat_set_next_timer tick_delta = (cntp_tval_el0, tick_delta) ∷ []

-- `cur_cnt` is what cntpct_el0 holds; a division by zero is a fault.
unfoldable pub plat_get_mono_time : Timer → ℕ → Run ℕ
plat_get_mono_time t cur_cnt =
    if t.tick_per_us == 0
    then stop fault
    else done ((cur_cnt + 2 ^ 64 - t.cntp_init) % 2 ^ 64 * ns_in_us % 2 ^ 64 / t.tick_per_us)

-- The nanoseconds of `ticks` at `freq` ticks in a second.
abbrev pub exact_ns : ℕ → ℕ → ℕ
exact_ns ticks freq = ticks * 10 ^ 9 / freq

-- The frequency in whole MHz.
abbrev pub whole_mhz : ℕ → ℕ
whole_mhz freq = freq / 1000 / 1000 * 10 ^ 6

exact_ns-whole_mhz :
    (ticks freq : ℕ) → exact_ns ticks (whole_mhz freq) ≡ ticks * 1000 / (freq / 1000 / 1000)
exact_ns-whole_mhz ticks freq =
    let e : ticks * 10 ^ 9 ≡ ticks * 1000 * 10 ^ 6 = omega arith in
    ap (λ k. k / whole_mhz freq) e
    ∙ mul-div-mul_right {m = 10 ^ 6} (ticks * 1000) (freq / 1000 / 1000) (omega arith)

exact_ns-le :
    (ticks freq : ℕ) → 10 ^ 6 ≤ freq → exact_ns ticks freq ≤ ticks * 1000 / (freq / 1000 / 1000)
exact_ns-le ticks freq fast =
    let x = exact_ns ticks freq in
    let q = freq / 1000 / 1000 in
    let a : x * freq ≤ ticks * 10 ^ 9 = div-mul-le_self (ticks * 10 ^ 9) freq in
    let b : x * (q * 10 ^ 6) ≤ x * freq =
      mul-le-mul_left {m = q * 10 ^ 6} {n = freq} x (omega arith) in
    (le-div_iff_mul-le {k = q} {x = x} {y = ticks * 1000} (omega arith)).1 (omega (arith, a, b))

-- After plat_timer_init with a frequency of at least 1 MHz, where the counter has not gone back
-- and its ticks since then times 1000 are below 2 ^ 64: plat_get_mono_time returns the nanoseconds
-- of those ticks at the frequency rounded down to whole MHz, which are at least those at the
-- frequency itself.
pub plat_get_mono_time-plat_timer_init :
    (cpuid count freq cur : ℕ)
    → 10 ^ 6 ≤ freq
    → count ≤ cur
    → cur < 2 ^ 64
    → (cur - count) * 1000 < 2 ^ 64
    → (ns : ℕ) × (plat_get_mono_time (plat_timer_init cpuid count freq).0 cur ≡ done ns)
      × (ns ≡ exact_ns (cur - count) (whole_mhz freq))
      × (exact_ns (cur - count) freq ≤ ns)
unfolding plat_get_mono_time plat_timer_init
plat_get_mono_time-plat_timer_init cpuid count freq cur fast after wide small =
    let some_ticks : (freq / 1000 / 1000 == 0) ≡ false = ground arith in
    let e : (cur + 2 ^ 64 - count) % 2 ^ 64 * 1000 % 2 ^ 64 ≡ (cur - count) * 1000 = omega arith in
    (
      (cur - count) * 1000 / (freq / 1000 / 1000),
      rw (some_ticks, e) refl,
      sym (exact_ns-whole_mhz (cur - count) freq),
      exact_ns-le (cur - count) freq fast,
    )
