-- ===== src/Printk/Returns.antt =====
-- A format that its arguments fit: printk returns.
pub mod Convert
mod Directive
use kingdo_micro_kernel.Prelude.{
  ℕ, zero, suc, ◌+◌, ◌-◌, ◌*◌, ◌/◌, ◌%◌, ◌^◌, ◌≤◌, ◌<◌, ◌≡◌, ◌≢◌, refl, sym, subst, ap, ◌∙◌, ◌⊎◌,
  inl, inr, Bool, true, false, not, ◌&&◌, ◌||◌, List, [], ◌∷◌, ◌++◌, length, length-append, leb,
  ltb, ◌==◌, if◌then◌else◌, Option, none, some, Run, done, ◌>>=◌, arith, Bool-cases,
}
use kingdo_micro_kernel.Printk.{
  Width, positive, Flags, prints, less_one, simple_outputi, is_zero_width, is_negative,
}
use kingdo_micro_kernel.Printk.Padding.{simple_outputi-negative}
use kingdo_micro_kernel.Printk.Numbers.{put_number-Shows}
use kingdo_micro_kernel.Printk.Cut.{is_digit, are_digits, digits_cons}
use kingdo_micro_kernel.Printk.Vsprintf.{
  Arg, word, text, null, Printer, Reading, signed, unsigned, put, put_literal, write_low,
  read_union, sign_extend, next_word, next_text, put_number, integer, put_char, put_text, null_text,
  last_char, long_number, short_number, one_char, convert, skip_zeros, read_width, with_width,
  directive, simple_vsprintf, printk, width_of,
}
use kingdo_micro_kernel.Printk.Returns.Convert.{Converts, IsConversion}
use kingdo_micro_kernel.Printk.Returns.Directive.{
  minus-Continues, digit-Continues, letter-Continues,
}

-- What follows a percent sign: flags and width, and the conversion.
pub data IsDirective : List ℕ → Arg → List ℕ → Type 0 where
  left :
      {x : ℕ} {t : List ℕ} {a : Arg} (w r : List ℕ)
      → are_digits w ≡ true
      → IsConversion x t a
      → IsDirective (b'-' ∷ (w ++ (x ∷ (t ++ r)))) a r
  right :
      {x : ℕ} {t : List ℕ} {a : Arg} (w r : List ℕ)
      → are_digits w ≡ true
      → IsConversion x t a
      → IsDirective (w ++ (x ∷ (t ++ r))) a r

-- The arguments that the format takes are there.
pub data IsFormat : List ℕ → List Arg → Type 0 where
  end : (args : List Arg) → IsFormat [] args
  plain :
      (c : ℕ) (r : List ℕ) (args : List Arg) → c ≢ b'%' → IsFormat r args → IsFormat (c ∷ r) args
  percent : (r : List ℕ) (args : List Arg) → IsFormat r args → IsFormat (b'%' ∷ b'%' ∷ r) args
  last_percent : (args : List Arg) → IsFormat (b'%' ∷ []) args
  directed :
      (d r : List ℕ) (a : Arg) (args : List Arg)
      → IsDirective d a r
      → IsFormat r args
      → IsFormat (b'%' ∷ d) (a ∷ args)

-- A directive in front of the format, which is shorter then.
record IsPassed (d : List ℕ) (r : List ℕ) (args : List Arg) (s : Printer) : Type 0 where
  next : Printer
  left_args : next.args ≡ args
  shorter : length r < length d
  passes : (fuel : ℕ) → simple_vsprintf (suc fuel) (b'%' ∷ d) s ≡ simple_vsprintf fuel r next

shorter_behind : (w : List ℕ) (x : ℕ) (t r : List ℕ) → length r < length (w ++ (x ∷ (t ++ r)))
shorter_behind w x t r = omega (arith, length-append w (x ∷ (t ++ r)), length-append t r)

IsPassed-of :
    (c : ℕ) (rest r : List ℕ) (args : List Arg) (s : Printer)
    → length r < suc (length rest)
    → (c ≢ b'%') × Converts r args (directive c rest s)
    → IsPassed (c ∷ rest) r args s
unfolding simple_vsprintf
IsPassed-of c rest r args s shorter (other, (s', e, same)) =
    let test : (c == b'%') ≡ false = ground (arith, other) in
    record { next = s'; left_args = same; shorter = shorter; passes = λ fuel. rw (test, e) refl }

IsDirective-IsPassed :
    {d r : List ℕ} {a : Arg} (args : List Arg) (s : Printer)
    → IsDirective d a r
    → s.args ≡ a ∷ args
    → IsPassed d r args s
IsDirective-IsPassed args s (left {x} {t} w r h conversion) given =
    IsPassed-of b'-' (w ++ (x ∷ (t ++ r))) r args s (omega (arith, shorter_behind w x t r))
      (minus-Continues conversion r args s given w h)
IsDirective-IsPassed args s (right {x} {t} [] r h conversion) given =
    IsPassed-of x (t ++ r) r args s (shorter_behind [] x t r)
      (letter-Continues conversion r args s given)
IsDirective-IsPassed args s (right {x} {t} (c ∷ w) r h conversion) given =
    IsPassed-of c (w ++ (x ∷ (t ++ r))) r args s (shorter_behind (c ∷ w) x t r)
      (digit-Continues conversion r args s given c w h)

abbrev Returns : Run Printer → Type 0
Returns m = (s' : Printer) × (m ≡ done s')

simple_vsprintf-Returns :
    (fuel : ℕ) (format : List ℕ) (args : List Arg) (s : Printer)
    → IsFormat format args
    → s.args ≡ args
    → length format < fuel
    → Returns (simple_vsprintf fuel format s)
unfolding simple_vsprintf put_literal
simple_vsprintf-Returns zero format args s f e enough = absurd (omega arith)
simple_vsprintf-Returns (suc fuel) _ args s (end _) e enough = (_, refl)
simple_vsprintf-Returns (suc fuel) _ args s (plain c [] _ other f) e enough =
    let test : (c == b'%') ≡ false = ground (arith, other) in
    rw test (simple_vsprintf-Returns fuel [] args (put_literal c s) f e (omega arith))
simple_vsprintf-Returns (suc fuel) _ args s (plain c (d ∷ r) _ other f) e enough =
    let test : (c == b'%') ≡ false = ground (arith, other) in
    rw test (simple_vsprintf-Returns fuel (d ∷ r) args (put_literal c s) f e (omega arith))
simple_vsprintf-Returns (suc fuel) _ args s (percent r _ f) e enough =
    simple_vsprintf-Returns fuel r args (put_literal b'%' s) f e (omega arith)
simple_vsprintf-Returns (suc fuel) _ args s (last_percent _) e enough = (_, refl)
simple_vsprintf-Returns (suc fuel) _ _ s (directed d r a args directive f) e enough =
    let p = IsDirective-IsPassed args s directive e in
    subst Returns (sym (p.passes fuel))
      (simple_vsprintf-Returns fuel r args p.next f p.left_args (omega (arith, p.shorter)))

-- For a format of plain characters, doubled percent signs and directives, with a minus sign or
-- not, with zeros and width as digits or none, and the conversions d, u, x and X with no length, l
-- or ll, p, c and s, whose arguments are there in their order (a string may be NULL), and that may
-- end in a single percent sign: printk returns, within as many rounds of its loop as the format
-- has characters and one more, the wait for the device left out.
pub printk-Returns :
    (union : ℕ) (format : List ℕ) (args : List Arg)
    → IsFormat format args
    → (out : List ℕ) × (printk union format args ≡ done out)
unfolding printk
printk-Returns union format args f =
    let (s, e) =
      simple_vsprintf-Returns (length format + 1) format args
        (record { args = args; union = union; out = []; pc = 0 }) f refl (omega arith) in
    (s.out, rw e refl)
