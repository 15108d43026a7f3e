-- ===== src/Printk/Format.antt =====
-- The loop over the format: it ends, and what it prints of plain text.
use mathlib.Core.List.{append_assoc, append-nil}
use kingdo_micro_kernel.Prelude.{
  ℕ, zero, suc, ◌+◌, ◌<◌, ◌≡◌, refl, ap, ◌∙◌, false, List, [], ◌∷◌, ◌++◌, length, has, ◌==◌,
  if◌then◌else◌, done, arith, Bool-cases, inl, inr,
}
use kingdo_micro_kernel.Printk.Vsprintf.{Printer, put_literal, simple_vsprintf}

-- A newline as the console gets it.
abbrev pub crlf : List ℕ → List ℕ
crlf [] = []
crlf (c ∷ r) = if c == b'\n' then b'\r' ∷ c ∷ crlf r else c ∷ crlf r

abbrev pub printed : List ℕ → Printer → Printer
printed format s = record s { out = s.out ++ crlf format; pc = s.pc + length format }

printed-put_literal :
    (c : ℕ) (r : List ℕ) (s : Printer) → printed r (put_literal c s) ≡ printed (c ∷ r) s
unfolding put_literal
printed-put_literal c r s = elim (Bool-cases (c == b'\n')) [
  | inl newline ↦
      rw (newline, append_assoc)
        (ap (λ (n : ℕ). record s { out = s.out ++ b'\r' ∷ c ∷ crlf r; pc = n }) (omega arith))
  | inr other ↦
      rw (other, append_assoc)
        (ap (λ (n : ℕ). record s { out = s.out ++ c ∷ crlf r; pc = n }) (omega arith))
]

-- Where the fuel exceeds the length of a format without a percent sign, simple_vsprintf returns:
-- it has printed the format with a carriage return before each newline, and counted the characters
-- of the format.
pub simple_vsprintf-plain :
    (fuel : ℕ) (format : List ℕ) (s : Printer)
    → length format < fuel
    → has b'%' format ≡ false
    → simple_vsprintf fuel format s ≡ done (printed format s)
unfolding simple_vsprintf
simple_vsprintf-plain zero format s enough plain = absurd (omega arith)
simple_vsprintf-plain (suc fuel) [] s enough plain =
    ap done (rw append-nil (ap (λ (n : ℕ). record s { pc = n }) (omega arith)))
simple_vsprintf-plain (suc fuel) (c ∷ []) s enough plain =
    let ordinary : (c == b'%') ≡ false = ground arith in
    rw ordinary (
      simple_vsprintf-plain fuel [] (put_literal c s) (omega arith) refl
      ∙ ap done (printed-put_literal c [] s))
simple_vsprintf-plain (suc fuel) (c ∷ d ∷ r) s enough plain =
    let ordinary : (c == b'%') ≡ false = ground arith in
    rw ordinary (
      simple_vsprintf-plain fuel (d ∷ r) (put_literal c s) (omega arith) (ground arith)
      ∙ ap done (printed-put_literal c (d ∷ r) s))
