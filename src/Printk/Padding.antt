-- ===== src/Printk/Padding.antt =====
-- Numbers and strings in their width.
use native.Mathlib.Nat.{pow-le-pow_left}
use kingdo_micro_kernel.Prelude.{
  ℕ, zero, suc, ◌+◌, ◌-◌, ◌^◌, ◌≤◌, ◌<◌, ◌≡◌, ◌≢◌, refl, ap, ◌∙◌, Bool, true, false, not, ◌&&◌,
  List, [], ◌∷◌, length, length-append, ltb, ◌==◌, if◌then◌else◌, done, stop, fault, arith,
}
use kingdo_micro_kernel.Printk.{
  Width, positive, negative, Flags, repeat, missing, padchar, prints, with_sign, simple_outputi,
  is_negative, negate, is_zero_width, less_one,
}
use kingdo_micro_kernel.Printk.Digits.{
  read_digits, all_digits, emit_digits-IsWritten, emit_digits-fault,
}

length-repeat : (n c : ℕ) → length (repeat n c) ≡ n
length-repeat zero c = refl
length-repeat (suc n) c = ap suc (length-repeat n c)

abbrev pub at_least : ℕ → Width → ℕ
at_least n (positive w) = if ltb n w then w else n
at_least n (negative w) = n

missing_total :
    (s : List ℕ) (width : Width) → length s + missing s width ≡ at_least (length s) width
missing_total s (positive w) = ground arith
missing_total s (negative w) = omega arith

-- The count that prints returns is the number of the characters it prints, which is the length of
-- the string or the width, whichever is greater.
pub prints-length :
    (s : List ℕ) (width : Width) (flags : Flags)
    → ((prints s width flags).1 ≡ length (prints s width flags).0)
      × (length (prints s width flags).0 ≡ at_least (length s) width)
unfolding prints
prints-length s width flags =
    let n = missing s width in
    let c = padchar width flags in
    ground (
      arith,
      missing_total s width,
      length-append s (repeat n c),
      length-append (repeat n c) s,
      length-repeat n c,
    )

module _ (base letbase : ℕ) (base_in : (2 ≤ base) × (base ≤ 36)) (letters : 58 ≤ letbase) where
  -- A number that fits is printed as a string of digits that reads back as the number.
  pub simple_outputi-digits :
      (i : ℕ) (sign : Bool) (width : Width) (flags : Flags)
      → i ≢ 0
      → i < base ^ 63
      → (sign && base == 10 && is_negative i) ≡ false
      → (s : List ℕ) × (simple_outputi i base sign width flags letbase
          ≡ done (prints s width flags))
        × (read_digits base letbase s 0 ≡ i)
        × (all_digits base letbase s ≡ true)
        × (length s ≤ 63)
  unfolding simple_outputi with_sign read_digits all_digits
  simple_outputi-digits i sign width flags ne fits plain =
      let (pos, s, e, w) =
        emit_digits-IsWritten base letbase base_in letters 0 63 i [] (omega arith) fits in
      let some_left : (i == 0) ≡ false = ground (arith, ne) in
      (s, rw (some_left, plain, e) refl, w.reads, w.digits, omega (arith, w.in_buffer))

  pub simple_outputi-fault :
      (i : ℕ) (sign : Bool) (width : Width) (flags : Flags)
      → base ^ 63 ≤ i
      → (sign && base == 10 && is_negative i) ≡ false
      → simple_outputi i base sign width flags letbase ≡ stop fault
  unfolding simple_outputi
  simple_outputi-fault i sign width flags big plain =
      let e = emit_digits-fault base letbase base_in letters 63 i [] big in
      let some_left : (i == 0) ≡ false = ground (arith, pos) in rw (some_left, plain, e) refl
    where
      pos : 0 < base ^ 63
      pos = omega (arith, pow-le-pow_left {n = 2} {m = base} (omega arith) 63)

not_zero_of_pos : (n : ℕ) → 1 ≤ n → (n == 0) ≡ false
not_zero_of_pos n h = ground arith

is_negative_of : (i : ℕ) → 2 ^ 63 ≤ i → ((i == 0) ≡ false) × (is_negative i ≡ true)
is_negative_of i low = (ground arith, ground arith)

-- For a number i from 2 ^ 63 to 2 ^ 64 - 1, which is negative as a long, the signed decimal
-- conversion prints decimal digits that read back as 2 ^ 64 - i (where -i wraps at 2 ^ 63), with a
-- minus sign: before the padding, in a width one less, where zeros are padded and the width is not
-- 0, and between padding and digits otherwise.
pub simple_outputi-negative :
    (i : ℕ) (width : Width) (flags : Flags)
    → 2 ^ 63 ≤ i
    → i < 2 ^ 64
    → (s : List ℕ) × (all_digits 10 b'a' s ≡ true)
      × (read_digits 10 b'a' s 0 ≡ 2 ^ 64 - i)
      × (simple_outputi i 10 true width flags b'a' ≡ (
          if not (is_zero_width width) && flags.pad_zero
          then done
              (b'-' ∷ (prints s (less_one width) flags).0, 1 + (prints s (less_one width) flags).1)
          else done (prints (b'-' ∷ s) width flags)))
unfolding simple_outputi with_sign read_digits all_digits
simple_outputi-negative i width flags low high =
    let (pos, s, e, w) =
      emit_digits-IsWritten 10 b'a' (omega arith) (omega arith) 1 63 (negate i) [] (omega arith)
        (omega arith) in
    let (some_left, minus) = is_negative_of i low in
    let room = not_zero_of_pos pos w.room in
    (s, w.digits, w.reads ∙ omega arith, rw (some_left, minus, e, room) refl)
