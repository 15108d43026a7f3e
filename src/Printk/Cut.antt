-- ===== src/Printk/Cut.antt =====
-- A format that ends inside a directive: the loop of lib/printk.c steps over its NUL.
use kingdo_micro_kernel.Prelude.{
  ℕ, suc, ◌+◌, ◌-◌, ◌*◌, ◌%◌, ◌^◌, ◌≡◌, refl, Bool, true, false, ◌&&◌, List, [], ◌∷◌, leb, ◌==◌,
  stop, fault, arith, Bool-cases, inl, inr,
}
use kingdo_micro_kernel.Printk.{Flags}
use kingdo_micro_kernel.Printk.Vsprintf.{
  Printer, convert, skip_zeros, read_width, with_width, directive, simple_vsprintf,
}

abbrev pub is_digit : ℕ → Bool
is_digit c = leb b'0' c && leb c b'9'

abbrev pub are_digits : List ℕ → Bool
are_digits [] = true
are_digits (c ∷ r) = is_digit c && are_digits r

-- The parts of a digit and its rest.
pub digits_cons :
    (c : ℕ) (r : List ℕ) → are_digits (c ∷ r) ≡ true → (is_digit c ≡ true) × (are_digits r ≡ true)
digits_cons c r h = elim (Bool-cases (is_digit c)) [
  | inl digit ↦ (digit, rw digit at h)
  | inr other ↦ absurd (ground (arith, rw other at h))
]

skip_zeros-are_digits :
    (r : List ℕ) (pad : Bool) → are_digits r ≡ true → are_digits (skip_zeros r pad).1 ≡ true
unfolding skip_zeros
skip_zeros-are_digits [] pad h = refl
skip_zeros-are_digits (c ∷ r) pad h = elim (Bool-cases (c == b'0')) [
  | inl more ↦ rw more (skip_zeros-are_digits r true (digits_cons c r h).1)
  | inr end ↦ rw end h
]

read_width-are_digits : (r : List ℕ) (w : ℕ) → are_digits r ≡ true → (read_width r w).1 ≡ []
unfolding read_width
read_width-are_digits [] w h = refl
read_width-are_digits (c ∷ r) w h =
    let (digit, rest) = digits_cons c r h in
    rw digit (read_width-are_digits r ((w * 10 + (c - b'0')) % 2 ^ 32) rest)

with_width-cut :
    (r : List ℕ) (flags : Flags) (s : Printer)
    → are_digits r ≡ true
    → with_width r flags s ≡ stop fault
unfolding with_width convert
with_width-cut [] flags s h = refl
with_width-cut (c ∷ r) flags s h =
    let digit = (digits_cons c r h).0 in
    let no_star : (c == b'*') ≡ false = ground arith in
    rw (no_star, read_width-are_digits (c ∷ r) 0 h) refl

-- Where a percent sign is followed by digits, of which there is at least one, and by the end of
-- the format, simple_vsprintf steps past the end and faults.
pub simple_vsprintf-cut :
    (fuel c : ℕ) (r : List ℕ) (s : Printer)
    → are_digits (c ∷ r) ≡ true
    → simple_vsprintf (suc fuel) (b'%' ∷ c ∷ r) s ≡ stop fault
unfolding simple_vsprintf directive
simple_vsprintf-cut fuel c r s h =
    let digit = (digits_cons c r h).0 in
    let no_percent : (c == b'%') ≡ false = ground arith in
    let no_minus : (c == b'-') ≡ false = ground arith in
    let flagged = skip_zeros (c ∷ r) false in
    rw
      (
        no_percent,
        no_minus,
        with_width-cut flagged.1 (record { pad_zero = flagged.0; pad_right = false }) s
            (skip_zeros-are_digits (c ∷ r) false h),
      )
      refl
