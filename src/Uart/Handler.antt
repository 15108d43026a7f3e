-- ===== src/Uart/Handler.antt =====
-- The interrupt handler of the PL011 driver, with its device.
use kingdo_micro_kernel.Prelude.{
  ℕ, zero, suc, ◌+◌, ◌/◌, ◌%◌, ◌<◌, ◌≡◌, refl, ap, ◌∙◌, false, ◌∷◌, ◌==◌, done, arith,
}
use kingdo_micro_kernel.Uart.{Port, poll, uart_send, uart_irq_handler}
use kingdo_micro_kernel.Uart.Ring.{IsRing, pending, push, pending-store, store-IsRing}

-- The bit is clear at the k-th read from `reads` on, and set before.
poll-done :
    (k fuel : ℕ) (fr : ℕ → ℕ) (mask reads : ℕ)
    → k < fuel
    → (fr (reads + k) / mask) % 2 ≡ 0
    → ((j : ℕ) → j < k → (fr (reads + j) / mask) % 2 ≡ 1)
    → poll fuel fr mask reads ≡ done (reads + k + 1)
unfolding poll
poll-done k zero fr mask reads lt clear busy = absurd (omega arith)
poll-done zero (suc fuel) fr mask reads lt clear busy = ground (arith, clear)
poll-done (suc k) (suc fuel) fr mask reads lt clear busy =
    let e : (j : ℕ) → reads + 1 + j ≡ reads + suc j = λ j. omega arith in
    let now : (fr reads / mask % 2 == 0) ≡ false = ground (arith, busy 0 (omega arith)) in
    let rest =
      poll-done k fuel fr mask (reads + 1) (omega arith)
        (ap (λ (t : ℕ). fr t / mask % 2) (e k) ∙ clear)
        (λ j less. ap (λ (t : ℕ). fr t / mask % 2) (e j) ∙ busy (suc j) (omega arith)) in
    rw (now, rest) (ap (λ (t : ℕ). done (t + 1)) (e k))

-- Where the transmit bit of the flags is clear at the k-th read from now, and set before, and k is
-- below the fuel, uart_irq_handler on a ring in bounds returns after k + 1 reads: the low byte of
-- the data register is echoed, and is pushed on the queue of the ring, which stays in bounds.
pub uart_irq_handler-done :
    (s : Port) (k fuel : ℕ) (fr : ℕ → ℕ) (dr : ℕ)
    → k < fuel
    → IsRing s.ring
    → (fr (s.reads + k) / 32) % 2 ≡ 0
    → ((j : ℕ) → j < k → (fr (s.reads + j) / 32) % 2 ≡ 1)
    → (s' : Port) × (uart_irq_handler fuel fr dr s ≡ done s')
      × (s'.reads ≡ s.reads + k + 1)
      × (s'.sent ≡ dr % 256 ∷ s.sent)
      × IsRing s'.ring
      × (pending s'.ring ≡ push (dr % 256) (pending s.ring))
unfolding uart_irq_handler uart_send
uart_irq_handler-done s k fuel fr dr lt ring clear busy = (
  _,
  rw (poll-done k fuel fr 32 s.reads lt clear busy) refl,
  refl,
  refl,
  store-IsRing ring (dr % 256),
  pending-store ring (dr % 256),
)
