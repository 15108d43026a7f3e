-- ===== src/Printk/Tests.antt =====
-- Formatted output at concrete inputs.
use kingdo_micro_kernel.Prelude.{
  ℕ, ◌^◌, ◌≡◌, refl, true, not, ◌&&◌, List, [], ◌∷◌, if◌then◌else◌, done, stop, fault, arith, ◌+◌,
  ◌-◌, ◌*◌, ◌/◌, ◌%◌,
}
use kingdo_micro_kernel.Printk.{positive, no_flags, prints, simple_outputi, less_one, is_zero_width}
use kingdo_micro_kernel.Printk.Digits.{read_digits, all_digits}
use kingdo_micro_kernel.Printk.Padding.{simple_outputi-negative}
use kingdo_micro_kernel.Printk.Vsprintf.{word, text, Printer, convert, simple_vsprintf, printk}
use kingdo_micro_kernel.Printk.Numbers.{
  ShowsAll, after, convert-unsigned, convert-stale, convert-binary_fault,
}
use kingdo_micro_kernel.Printk.Cut.{simple_vsprintf-cut}
use kingdo_micro_kernel.Printk.Returns.Convert.{decimal, hexadecimal, number, string, long}
use kingdo_micro_kernel.Printk.Returns.{end, plain, directed, left, right, IsFormat, printk-Returns}

-- "n=%05d\n"
abbrev line : List ℕ
line = b'n' ∷ b'=' ∷ b'%' ∷ b'0' ∷ b'5' ∷ b'd' ∷ b'\n' ∷ []

-- -42 as an int
abbrev minus_42 : ℕ
minus_42 = 2 ^ 32 - 42

printk-line :
    printk 0 line (word minus_42 ∷ [])
    ≡ done (b'n' ∷ b'=' ∷ b'-' ∷ b'0' ∷ b'0' ∷ b'4' ∷ b'2' ∷ b'\r' ∷ b'\n' ∷ [])
unfolding printk
printk-line = refl

-- "%-4s|%x"
printk-text :
    printk 0
      (b'%' ∷ b'-' ∷ b'4' ∷ b's' ∷ b'|' ∷ b'%' ∷ b'x' ∷ [])
      (text 4096 (b'a' ∷ b'b' ∷ []) ∷ word 48879 ∷ [])
    ≡ done (b'a' ∷ b'b' ∷ b' ' ∷ b' ' ∷ b'|' ∷ b'b' ∷ b'e' ∷ b'e' ∷ b'f' ∷ [])
unfolding printk
printk-text = refl

-- A percent sign at the end ends the line.
printk-percent : printk 0 (b'a' ∷ b'%' ∷ b'%' ∷ b'%' ∷ []) [] ≡ done (b'a' ∷ b'%' ∷ [])
unfolding printk
printk-percent = refl

-- "%d %hu" of 65536 and 7: the second number is 65543.
printk-stale :
    printk 0 (b'%' ∷ b'd' ∷ b' ' ∷ b'%' ∷ b'h' ∷ b'u' ∷ []) (word 65536 ∷ word 7 ∷ [])
    ≡ done (b'6' ∷ b'5' ∷ b'5' ∷ b'3' ∷ b'6' ∷ b' ' ∷ b'6' ∷ b'5' ∷ b'5' ∷ b'4' ∷ b'3' ∷ [])
unfolding printk
printk-stale = refl

abbrev seven : Printer
seven = record { args = word 7 ∷ []; union = 65536; out = []; pc = 0 }

simple_outputi-negative_example :
    (s : List ℕ) × (all_digits 10 b'a' s ≡ true)
    × (read_digits 10 b'a' s 0 ≡ 2 ^ 64 - (2 ^ 64 - 42))
    × (simple_outputi (2 ^ 64 - 42) 10 true (positive 5) no_flags b'a' ≡ (
        if not (is_zero_width (positive 5)) && no_flags.pad_zero
        then done (
          b'-' ∷ (prints s (less_one (positive 5)) no_flags).0,
          1 + (prints s (less_one (positive 5)) no_flags).1,
        )
        else done (prints (b'-' ∷ s) (positive 5) no_flags)))
simple_outputi-negative_example =
    simple_outputi-negative (2 ^ 64 - 42) (positive 5) no_flags (omega arith) (omega arith)

convert-unsigned_example :
    ShowsAll
      (positive 0)
      no_flags
      seven
      7
      []
      refl
      32
      (7 % 2 ^ 32)
      (λ c. after (positive 0) no_flags seven 7 [] refl (c ∷ []))
    × ShowsAll
        (positive 0)
        no_flags
        seven
        7
        []
        refl
        64
        (7 % 2 ^ 64)
        (λ c. after (positive 0) no_flags seven 7 [] refl (b'l' ∷ c ∷ []))
    × ShowsAll
        (positive 0)
        no_flags
        seven
        7
        []
        refl
        64
        (7 % 2 ^ 64)
        (λ c. after (positive 0) no_flags seven 7 [] refl (b'l' ∷ b'l' ∷ c ∷ []))
convert-unsigned_example = convert-unsigned (positive 0) no_flags seven 7 [] refl []

convert-stale_example :
    ShowsAll
      (positive 0)
      no_flags
      seven
      7
      []
      refl
      16
      (65536 / 2 ^ 16 * 2 ^ 16 + 7 % 2 ^ 16)
      (λ c. after (positive 0) no_flags seven 7 [] refl (b'h' ∷ c ∷ []))
    × ShowsAll
        (positive 0)
        no_flags
        seven
        7
        []
        refl
        8
        (65536 / 2 ^ 8 * 2 ^ 8 + 7 % 2 ^ 8)
        (λ c. after (positive 0) no_flags seven 7 [] refl (b'h' ∷ b'h' ∷ c ∷ []))
convert-stale_example = convert-stale (positive 0) no_flags seven 7 [] refl [] (omega arith)

abbrev minus : Printer
minus = record { args = word minus_42 ∷ []; union = 0; out = []; pc = 0 }

convert-binary_fault_example : convert (b'b' ∷ []) (positive 0) no_flags minus ≡ stop fault
convert-binary_fault_example =
    convert-binary_fault [] (positive 0) no_flags minus minus_42 [] refl (omega arith)

simple_vsprintf-cut_example : simple_vsprintf 3 (b'%' ∷ b'5' ∷ []) seven ≡ stop fault
simple_vsprintf-cut_example = simple_vsprintf-cut 2 b'5' [] seven refl

-- "n=%05d\n" with a number, then "%-4s%lx" with a string and a number.
line-IsFormat : IsFormat line (word minus_42 ∷ [])
line-IsFormat =
    plain _ _ _ (λ e. absurd (omega (arith, e)))
      (plain _ _ _ (λ e. absurd (omega (arith, e)))
        (directed _ _ _ _ (right (b'0' ∷ b'5' ∷ []) _ refl (number b'd' minus_42 decimal))
          (plain _ _ _ (λ e. absurd (omega (arith, e))) (end _))))

abbrev texts : List ℕ
texts = b'%' ∷ b'-' ∷ b'4' ∷ b's' ∷ b'%' ∷ b'l' ∷ b'x' ∷ []

texts-IsFormat : IsFormat texts (text 4096 (b'a' ∷ b'b' ∷ []) ∷ word 48879 ∷ [])
texts-IsFormat =
    directed _ _ _ _ (left (b'4' ∷ []) _ refl (string 4096 (b'a' ∷ b'b' ∷ [])))
      (directed _ _ _ _ (right [] _ refl (long b'x' 48879 hexadecimal)) (end _))

printk-Returns_example :
    (out : List ℕ) × (printk 0 texts (text 4096 (b'a' ∷ b'b' ∷ []) ∷ word 48879 ∷ []) ≡ done out)
printk-Returns_example =
    printk-Returns 0 texts (text 4096 (b'a' ∷ b'b' ∷ []) ∷ word 48879 ∷ []) texts-IsFormat
