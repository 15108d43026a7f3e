-- ===== src/Bitops.antt =====
-- include/common/bitops.h: arrays of 64-bit words as sequences of bits.
--
-- A word is a number below 2 ^ 64. Its bit `bit` is its digit there in base 2: `& (1UL << bit)` tells
-- whether that is 1, `|` and `& ~` of one bit change that digit alone.
pub mod Next
mod Tests
use kingdo_micro_kernel.Prelude.{
  ℕ, zero, suc, ◌+◌, ◌-◌, ◌*◌, ◌/◌, ◌%◌, ◌^◌, Bool, true, false, not, Option, none, some, ltb, leb,
  ◌==◌, if◌then◌else◌, update, Run, done, stop, out_of_fuel, ◌>>=◌,
}

abbrev pub bits_per_long : ℕ
bits_per_long = 64

abbrev pub get_bit_in_slot : ℕ → ℕ → Bool
get_bit_in_slot slot bit = slot / 2 ^ bit % 2 == 1

abbrev pub set_bit_in_slot : ℕ → ℕ → ℕ
set_bit_in_slot slot bit = if get_bit_in_slot slot bit then slot else slot + 2 ^ bit

abbrev pub clear_bit_in_slot : ℕ → ℕ → ℕ
clear_bit_in_slot slot bit = if get_bit_in_slot slot bit then slot - 2 ^ bit else slot

unfoldable pub set_bit : ℕ → (ℕ → ℕ) → ℕ → ℕ
set_bit nr p =
    update p (nr / bits_per_long) (set_bit_in_slot (p (nr / bits_per_long)) (nr % bits_per_long))

unfoldable pub get_bit : ℕ → (ℕ → ℕ) → ℕ
get_bit nr p = p (nr / bits_per_long) / 2 ^ (nr % bits_per_long) % 2

unfoldable pub clear_bit : ℕ → (ℕ → ℕ) → ℕ → ℕ
clear_bit nr p =
    update p (nr / bits_per_long) (clear_bit_in_slot (p (nr / bits_per_long)) (nr % bits_per_long))

-- `size - 1` of an unsigned long
abbrev pub last_bit : ℕ → ℕ
last_bit size = (size + (2 ^ 64 - 1)) % 2 ^ 64

-- `invert ? !value : value`
abbrev pub wanted : Bool → Bool → Bool
wanted true value = not value
wanted false value = value

-- The inner loop of `find_next_bit_helper`, in the word `slot`.
unfoldable pub scan_slot : ℕ → ℕ → Bool → ℕ → ℕ → ℕ → Run (Option ℕ × ℕ)
scan_slot zero slot invert max_bit cur_bit res = stop out_of_fuel
scan_slot (suc fuel) slot invert max_bit cur_bit res =
    let rest = scan_slot fuel slot invert max_bit (cur_bit + 1) (res + 1) in
    if leb cur_bit max_bit
    then if wanted invert (get_bit_in_slot slot cur_bit) then done (some res, res) else rest
    else done (none, res)

-- Its outer loop, and the result.
unfoldable pub scan_slots : ℕ → (ℕ → ℕ) → ℕ → Bool → ℕ → ℕ → ℕ → Run ℕ
scan_slots zero p size invert cur_elem_index cur_bit res = stop out_of_fuel
scan_slots (suc fuel) p size invert cur_elem_index cur_bit res =
    let max_elem_index = last_bit size / bits_per_long in
    let max_bit =
      if ltb cur_elem_index max_elem_index
      then bits_per_long - 1
      else last_bit size % bits_per_long in
    let next = λ (r : ℕ). scan_slots fuel p size invert (cur_elem_index + 1) 0 r in
    if leb cur_elem_index max_elem_index
    then (scan_slot (bits_per_long + 1) (p cur_elem_index) invert max_bit cur_bit res
        >>= λ (found, res'). elim found [ some r ↦ done r | none ↦ next res' ])
    else done size

-- The results are converted to int.
unfoldable pub find_next_bit_helper : (ℕ → ℕ) → ℕ → ℕ → Bool → Run ℕ
find_next_bit_helper p size start invert =
    scan_slots (last_bit size / bits_per_long + 2) p size invert (start / bits_per_long)
      (start % bits_per_long) start
    >>= λ res. done (res % 2 ^ 32)

unfoldable pub find_next_zero_bit : (ℕ → ℕ) → ℕ → ℕ → Run ℕ
unfolding find_next_bit_helper
find_next_zero_bit p size start = find_next_bit_helper p size start true

unfoldable pub find_next_bit : (ℕ → ℕ) → ℕ → ℕ → Run ℕ
unfolding find_next_bit_helper
find_next_bit p size start = find_next_bit_helper p size start false
