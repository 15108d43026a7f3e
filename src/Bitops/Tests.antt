-- ===== src/Bitops/Tests.antt =====
-- Searches in two words.
use kingdo_micro_kernel.Prelude.{ℕ, ◌≡◌, refl, false, update, done, arith}
use kingdo_micro_kernel.Bitops.{
  set_bit, get_bit, clear_bit, find_next_bit_helper, find_next_bit, find_next_zero_bit, scan_slot,
  scan_slots,
}
use kingdo_micro_kernel.Bitops.Next.{IsFirst, find_next_bit_helper-IsFirst}

-- Bits 3 and 70.
abbrev bits : ℕ → ℕ
bits = update (update (λ _. 0) 0 8) 1 64

set_twice : get_bit 70 (set_bit 3 (set_bit 70 (λ _. 0))) ≡ 1
unfolding set_bit get_bit
set_twice = refl

cleared : get_bit 70 (clear_bit 70 bits) ≡ 0
unfolding clear_bit get_bit
cleared = refl

next_one : find_next_bit bits 100 4 ≡ done 70
unfolding find_next_bit scan_slot scan_slots
next_one = refl

next_zero : find_next_zero_bit bits 100 3 ≡ done 4
unfolding find_next_zero_bit scan_slot scan_slots
next_zero = refl

find_next_bit_helper-IsFirst_example :
    (r : ℕ) × (find_next_bit_helper bits 100 4 false ≡ done r) × IsFirst bits 100 4 false r
find_next_bit_helper-IsFirst_example =
    find_next_bit_helper-IsFirst bits 100 4 false (omega arith) (omega arith)
