-- ===== src/Printk/Returns/Convert.antt =====
-- The conversions that have their argument return.
use kingdo_micro_kernel.Prelude.{
  ℕ, ◌+◌, ◌%◌, ◌^◌, ◌≤◌, ◌<◌, ◌≡◌, refl, ◌⊎◌, inl, inr, true, false, not, ◌&&◌, List, [], ◌∷◌, ◌++◌,
  ◌==◌, if◌then◌else◌, Run, done, ◌>>=◌, arith, Bool-cases,
}
use kingdo_micro_kernel.Printk.{Width, Flags, prints, less_one, is_zero_width, is_negative}
use kingdo_micro_kernel.Printk.Padding.{simple_outputi-negative}
use kingdo_micro_kernel.Printk.Numbers.{put_number-Shows}
use kingdo_micro_kernel.Printk.Vsprintf.{
  Arg, word, text, null, Printer, signed, unsigned, put, write_low, sign_extend, next_word,
  next_text, put_number, integer, put_char, put_text, null_text, last_char, long_number, one_char,
  convert,
}

-- The letter of a conversion of any length.
pub data IsInteger : ℕ → Type 0 where
  decimal : IsInteger b'd'
  unsigned_decimal : IsInteger b'u'
  hexadecimal : IsInteger b'x'
  capital : IsInteger b'X'

-- The letters of a conversion, and the argument that it takes.
pub data IsConversion : ℕ → List ℕ → Arg → Type 0 where
  number : (c v : ℕ) → IsInteger c → IsConversion c [] (word v)
  pointer : (v : ℕ) → IsConversion b'p' [] (word v)
  character : (v : ℕ) → IsConversion b'c' [] (word v)
  string : (address : ℕ) (t : List ℕ) → IsConversion b's' [] (text address t)
  null_string : IsConversion b's' [] null
  long : (c v : ℕ) → IsInteger c → IsConversion b'l' (c ∷ []) (word v)
  long_long : (c v : ℕ) → IsInteger c → IsConversion b'l' (b'l' ∷ c ∷ []) (word v)

-- The run returns, with `args` left.
abbrev Takes : List Arg → Run Printer → Type 0
Takes args m = (s' : Printer) × (m ≡ done s') × (s'.args ≡ args)

module _ (width : Width) (flags : Flags) (s : Printer) (v : ℕ) (args : List Arg)
    (given : s.args ≡ word v ∷ args) where
  unsigned-Takes :
      (bits base letbase : ℕ)
      → (10 ≤ base) × (base ≤ 36)
      → 58 ≤ letbase
      → ((x : ℕ) → x % 2 ^ bits < 2 ^ 64)
      → base ^ 63 ≡ 10 ^ 63 ⊎ base ^ 63 ≡ 16 ^ 63
      → Takes args (put_number bits unsigned base false letbase width flags s)
  unsigned-Takes bits base letbase base_in letters small power =
      let (digits, e, n) =
        put_number-Shows base letbase (omega (arith, base_in)) letters bits unsigned false width
          flags s v args _ given refl (omega (arith, small (write_low bits v s.union), power))
          refl in
      (_, e, refl)

  signed-Takes :
      (bits : ℕ)
      → ((x : ℕ) → sign_extend bits (x % 2 ^ bits) < 2 ^ 64)
      → Takes args (put_number bits signed 10 true b'a' width flags s)
  unfolding put_number next_word
  signed-Takes bits small =
      let i = sign_extend bits (write_low bits v s.union % 2 ^ bits) in
      let taken = record s { args = args; union = write_low bits v s.union } in
      let fits : i < 2 ^ 64 = small (write_low bits v s.union) in
      elim (Bool-cases (is_negative i)) [
        | inr plain ↦
            let (digits, e, n) =
              put_number-Shows 10 b'a' (omega arith) (omega arith) bits signed true width flags s v
                args i given refl (omega (arith, fits)) plain in
            (_, e, refl)
        | inl minus ↦
            let (digits, _, _, e) =
              simple_outputi-negative i width flags (ground (arith, minus)) fits in
            elim (Bool-cases (not (is_zero_width width) && flags.pad_zero)) [
              | inl padded ↦ (
                put
                    (
                      b'-' ∷ (prints digits (less_one width) flags).0,
                      1 + (prints digits (less_one width) flags).1,
                    )
                    taken,
                rw (given, e, padded) refl,
                refl,
              )
              | inr plain ↦
                  (put (prints (b'-' ∷ digits) width flags) taken, rw (given, e, plain) refl, refl)
            ]
      ]

  integer-Takes :
      (bits c : ℕ)
      → ((x : ℕ) → x % 2 ^ bits < 2 ^ 64)
      → ((x : ℕ) → sign_extend bits (x % 2 ^ bits) < 2 ^ 64)
      → IsInteger c
      → Takes args (integer bits unsigned c width flags s)
  unfolding integer
  integer-Takes bits _ small small' decimal = signed-Takes bits small'
  integer-Takes bits _ small small' unsigned_decimal =
      unsigned-Takes bits 10 b'a' (omega arith) (omega arith) small (inl refl)
  integer-Takes bits _ small small' hexadecimal =
      unsigned-Takes bits 16 b'a' (omega arith) (omega arith) small (inr refl)
  integer-Takes bits _ small small' capital =
      unsigned-Takes bits 16 b'A' (omega arith) (omega arith) small (inr refl)

  int-Takes : (c : ℕ) → IsInteger c → Takes args (integer 32 unsigned c width flags s)
  int-Takes c i = integer-Takes 32 c (λ x. omega arith) (λ x. ground arith) i

  long-Takes : (c : ℕ) → IsInteger c → Takes args (integer 64 unsigned c width flags s)
  long-Takes c i = integer-Takes 64 c (λ x. omega arith) (λ x. ground arith) i

abbrev pub Converts : List ℕ → List Arg → Run (List ℕ × Printer) → Type 0
Converts r args m = (s' : Printer) × (m ≡ done (r, s')) × (s'.args ≡ args)

behind :
    (r : List ℕ) (args : List Arg) (m : Run Printer)
    → Takes args m
    → Converts r args (m >>= λ s. done (r, s))
behind r args m (s', e, left) = (s', rw e refl, left)

not_long : {c : ℕ} → IsInteger c → (c == b'l') ≡ false
not_long decimal = refl
not_long unsigned_decimal = refl
not_long hexadecimal = refl
not_long capital = refl

pub convert-Converts :
    {x : ℕ} {t : List ℕ} {a : Arg} (r : List ℕ) (args : List Arg) (width : Width) (flags : Flags)
    (s : Printer)
    → IsConversion x t a
    → s.args ≡ a ∷ args
    → Converts r args (convert (x ∷ (t ++ r)) width flags s)
unfolding convert long_number last_char one_char put_char put_text next_word next_text
convert-Converts r args width flags s (number _ v decimal) given =
    behind r args _ (int-Takes width flags s v args given b'd' decimal)
convert-Converts r args width flags s (number _ v unsigned_decimal) given =
    behind r args _ (int-Takes width flags s v args given b'u' unsigned_decimal)
convert-Converts r args width flags s (number _ v hexadecimal) given =
    behind r args _ (int-Takes width flags s v args given b'x' hexadecimal)
convert-Converts r args width flags s (number _ v capital) given =
    behind r args _ (int-Takes width flags s v args given b'X' capital)
convert-Converts r args width flags s (pointer v) given = behind r args _ (
    unsigned-Takes width flags s v args given 64 16 b'a' (omega arith) (omega arith)
      (λ x. omega arith) (inr refl))
convert-Converts r args width flags s (character v) given = (
  put (prints (if v % 256 == 0 then [] else v % 256 ∷ []) width flags)
      (record s { args = args; union = write_low 8 v s.union }),
  rw given refl,
  refl,
)
convert-Converts r args width flags s (string address t) given =
    (put (prints t width flags) (record s { args = args; union = address }), rw given refl, refl)
convert-Converts r args width flags s null_string given =
    (put (prints null_text width flags) (record s { args = args; union = 0 }), rw given refl, refl)
convert-Converts r args width flags s (long c v i) given =
    rw (not_long i) (behind r args _ (long-Takes width flags s v args given c i))
convert-Converts r args width flags s (long_long c v i) given =
    behind r args _ (long-Takes width flags s v args given c i)

-- The letter is behind the digits and the capitals in the order of characters, or X.
pub letter-high : {x : ℕ} {t : List ℕ} {a : Arg} → IsConversion x t a → 58 ≤ x
letter-high (number _ v decimal) = omega arith
letter-high (number _ v unsigned_decimal) = omega arith
letter-high (number _ v hexadecimal) = omega arith
letter-high (number _ v capital) = omega arith
letter-high (pointer v) = omega arith
letter-high (character v) = omega arith
letter-high (string address t) = omega arith
letter-high null_string = omega arith
letter-high (long c v i) = omega arith
letter-high (long_long c v i) = omega arith
