-- ===== src/Printk/Numbers.antt =====
-- The number conversions of lib/printk.c: what is printed of an argument, and where they go wrong.
use native.Mathlib.Nat.{mod-lt, mod-mod, mul-add-mod_self_right, pow-le-pow_right}
use kingdo_micro_kernel.Prelude.{
  ℕ, ◌+◌, ◌*◌, ◌/◌, ◌%◌, ◌^◌, ◌≤◌, ◌<◌, ◌≡◌, ◌≢◌, refl, sym, ap, ◌∙◌, Bool, true, false, ◌&&◌, List,
  [], ◌∷◌, length, ◌==◌, Run, done, stop, fault, ◌>>=◌, arith, Bool-cases, inl, inr,
}
use kingdo_micro_kernel.Prelude.Arith.{two_pow_pos}
use kingdo_micro_kernel.Printk.{Width, Flags, prints, simple_outputi, is_negative}
use kingdo_micro_kernel.Printk.Digits.{read_digits, all_digits}
use kingdo_micro_kernel.Printk.Padding.{simple_outputi-digits, simple_outputi-fault}
use kingdo_micro_kernel.Printk.Vsprintf.{
  Arg, word, Printer, put, Reading, signed, unsigned, whole, write_low, read_union, sign_extend,
  next_word, put_number, integer, short_number, one_char, long_number, convert, last_char,
}

-- The digits `s` are printed of `i`.
pub record IsNumber (base letbase i : ℕ) (s : List ℕ) : Type 0 where
  pub reads : read_digits base letbase s 0 ≡ i
  pub digits : all_digits base letbase s ≡ true
  pub some_digit : 0 < length s
  pub in_buffer : length s ≤ 63

-- The run takes the number `v` from the arguments and prints `i` as digits.
abbrev pub Shows : ℕ → ℕ → ℕ → Width → Flags → Printer → ℕ → List Arg → ℕ → Run Printer → Type 0
Shows base letbase bits width flags s v args i run =
    (digits : List ℕ) × (run
      ≡ done (
          put (prints digits width flags)
            (record s { args = args; union = write_low bits v s.union })))
    × IsNumber base letbase i digits

module _ (base letbase : ℕ) (base_in : (2 ≤ base) × (base ≤ 36)) (letters : 58 ≤ letbase) where
  some_digit_of : (i : ℕ) (s : List ℕ) → i ≢ 0 → read_digits base letbase s 0 ≡ i → 0 < length s
  unfolding read_digits
  some_digit_of i [] nz reads = absurd (nz (sym reads))
  some_digit_of i (c ∷ s) nz reads = omega arith

  simple_outputi-IsNumber :
      (i : ℕ) (sign : Bool) (width : Width) (flags : Flags)
      → i < base ^ 63
      → (sign && base == 10 && is_negative i) ≡ false
      → (s : List ℕ) × (simple_outputi i base sign width flags letbase
          ≡ done (prints s width flags))
        × IsNumber base letbase i s
  unfolding simple_outputi read_digits all_digits
  simple_outputi-IsNumber i sign width flags fits plain = elim (Bool-cases (i == 0)) [
    | inl zero_i ↦
        let e : i ≡ 0 = ground arith in
        (
          b'0' ∷ [],
          rw zero_i refl,
          record {
            reads = ground arith;
            digits = ground arith;
            some_digit = omega arith;
            in_buffer = omega arith;
          },
        )
    | inr more ↦
        let nz : i ≢ 0 = ground arith in
        let (s, e, reads, digits, short) =
          simple_outputi-digits base letbase base_in letters i sign width flags nz fits plain in
        (
          s,
          e,
          record {
            reads = reads;
            digits = digits;
            some_digit = some_digit_of i s nz reads;
            in_buffer = short;
          },
        )
  ]

  pub put_number-Shows :
      (bits : ℕ) (reading : Reading) (sign : Bool) (width : Width) (flags : Flags) (s : Printer)
      (v : ℕ) (args : List Arg) (i : ℕ)
      → s.args ≡ word v ∷ args
      → read_union reading bits (write_low bits v s.union) ≡ i
      → i < base ^ 63
      → (sign && base == 10 && is_negative i) ≡ false
      → Shows base letbase bits width flags s v args i
          (put_number bits reading base sign letbase width flags s)
  unfolding put_number next_word
  put_number-Shows bits reading sign width flags s v args i e reads fits plain =
      let (digits, printed, n) = simple_outputi-IsNumber i sign width flags fits plain in
      (digits, rw (e, reads, printed) refl, n)

write_low-mod : (bits v u : ℕ) → write_low bits v u % 2 ^ bits ≡ v % 2 ^ bits
write_low-mod bits v u =
    mul-add-mod_self_right (u / 2 ^ bits) (2 ^ bits) (v % 2 ^ bits) ∙ mod-mod v (2 ^ bits)

module _ (width : Width) (flags : Flags) (s : Printer) (v : ℕ) (args : List Arg)
    (given : s.args ≡ word v ∷ args) where
  -- The conversions u, x and X print `i`.
  abbrev pub ShowsAll : ℕ → ℕ → (ℕ → Run Printer) → Type 0
  ShowsAll bits i run =
      Shows 10 b'a' bits width flags s v args i (run b'u')
      × Shows 16 b'a' bits width flags s v args i (run b'x')
      × Shows 16 b'A' bits width flags s v args i (run b'X')

  integer-ShowsAll :
      (bits : ℕ) (reading : Reading) (i : ℕ)
      → read_union reading bits (write_low bits v s.union) ≡ i
      → i < 2 ^ 64
      → ShowsAll bits i (λ c. integer bits reading c width flags s)
  unfolding integer
  integer-ShowsAll bits reading i reads small = (
    put_number-Shows 10 b'a' (omega arith) (omega arith) bits reading false width flags s v args i
        given reads (omega arith) refl,
    put_number-Shows 16 b'a' (omega arith) (omega arith) bits reading false width flags s v args i
        given reads (omega arith) refl,
    put_number-Shows 16 b'A' (omega arith) (omega arith) bits reading false width flags s v args i
        given reads (omega arith) refl,
  )

  -- The next character of the format goes on behind the conversion.
  last_char-Shows :
      (base letbase bits i c : ℕ) (r : List ℕ) (f : ℕ → Run Printer)
      → Shows base letbase bits width flags s v args i (f c)
      → Shows base letbase bits width flags s v args i (last_char (c ∷ r) f >>= λ x. done x.1)
  unfolding last_char
  last_char-Shows base letbase bits i c r f (digits, e, n) = (digits, rw e refl, n)

  last_char-ShowsAll :
      (bits i : ℕ) (r : List ℕ) (f : ℕ → Run Printer)
      → ShowsAll bits i f
      → ShowsAll bits i (λ c. last_char (c ∷ r) f >>= λ x. done x.1)
  last_char-ShowsAll bits i r f (u, x, capital) = (
    last_char-Shows 10 b'a' bits i b'u' r f u,
    last_char-Shows 16 b'a' bits i b'x' r f x,
    last_char-Shows 16 b'A' bits i b'X' r f capital,
  )

  integer-unsigned :
      (bits : ℕ)
      → bits ≤ 64
      → ShowsAll bits (v % 2 ^ bits) (λ c. integer bits unsigned c width flags s)
  integer-unsigned bits h =
      integer-ShowsAll bits unsigned (v % 2 ^ bits) (write_low-mod bits v s.union) (
        omega (
          arith,
          mod-lt v {m = 2 ^ bits} (two_pow_pos bits),
          pow-le-pow_right {n = 2} (omega arith) h,
        ))

  -- The printer behind a conversion of the format `format`.
  abbrev pub after : List ℕ → Run Printer
  after format = convert format width flags s >>= λ x. done x.1

  -- Where the next argument is the number v, the conversions u, x and X without a length print
  -- digits of base 10 or 16, with letters in the case of the conversion, in the width, that read
  -- back as v modulo 2 ^ 32, and with the length l or ll as v modulo 2 ^ 64; each character is a
  -- digit of the base, there is at least one and there are at most 63, and the argument is taken.
  pub convert-unsigned :
      (r : List ℕ)
      → ShowsAll 32 (v % 2 ^ 32) (λ c. after (c ∷ r))
        × ShowsAll 64 (v % 2 ^ 64) (λ c. after (b'l' ∷ c ∷ r))
        × ShowsAll 64 (v % 2 ^ 64) (λ c. after (b'l' ∷ b'l' ∷ c ∷ r))
  unfolding convert one_char last_char long_number
  convert-unsigned r = (
    last_char-ShowsAll 32 (v % 2 ^ 32) r (λ c. one_char c width flags s)
        (integer-unsigned 32 (omega arith)),
    last_char-ShowsAll 64 (v % 2 ^ 64) r (λ c. integer 64 unsigned c width flags s)
        (integer-unsigned 64 (omega arith)),
    last_char-ShowsAll 64 (v % 2 ^ 64) r (λ c. integer 64 unsigned c width flags s)
        (integer-unsigned 64 (omega arith)),
  )

  -- Where the union holds a number below 2 ^ 64 and the next argument is v, the conversions u, x
  -- and X with the length h print digits that read back as v modulo 2 ^ 16 plus the multiple of 2
  -- ^ 16 that the union had, and with the length hh the same with 2 ^ 8.
  pub convert-stale :
      (r : List ℕ)
      → s.union < 2 ^ 64
      → ShowsAll 16 (s.union / 2 ^ 16 * 2 ^ 16 + v % 2 ^ 16) (λ c. after (b'h' ∷ c ∷ r))
        × ShowsAll 8 (s.union / 2 ^ 8 * 2 ^ 8 + v % 2 ^ 8) (λ c. after (b'h' ∷ b'h' ∷ c ∷ r))
  unfolding convert short_number last_char
  convert-stale r small = (
    last_char-ShowsAll 16 (write_low 16 v s.union) r (λ c. integer 16 whole c width flags s)
        (integer-ShowsAll 16 whole (write_low 16 v s.union) refl (omega arith)),
    last_char-ShowsAll 8 (write_low 8 v s.union) r (λ c. integer 8 whole c width flags s)
        (integer-ShowsAll 8 whole (write_low 8 v s.union) refl (omega arith)),
  )

-- Where the next argument is negative as an int, the conversion b writes before the beginning of
-- the print buffer and faults.
pub convert-binary_fault :
    (r : List ℕ) (width : Width) (flags : Flags) (s : Printer) (v : ℕ) (args : List Arg)
    → s.args ≡ word v ∷ args
    → 2 ^ 31 ≤ v % 2 ^ 32
    → convert (b'b' ∷ r) width flags s ≡ stop fault
unfolding convert last_char one_char put_number next_word
convert-binary_fault r width flags s v args given negative =
    let i = sign_extend 32 (v % 2 ^ 32) in
    let reads : read_union signed 32 (write_low 32 v s.union) ≡ i =
      ap (sign_extend 32) (write_low-mod 32 v s.union) in
    let big : 2 ^ 63 ≤ i = ground arith in
    rw
      (
        given,
        reads,
        simple_outputi-fault 2 b'a' (omega arith) (omega arith) i true width flags big refl,
      )
      refl
