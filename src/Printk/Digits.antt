-- ===== src/Printk/Digits.antt =====
-- The digits of a number in the print buffer: how many fit, and what they read back as.
use native.Mathlib.Nat.{
  div-lt_iff_lt-mul, le-div_iff_mul-le, mod-lt, div-add-mod', pow-suc, pow-zero, pow-le-pow_left,
}
use kingdo_micro_kernel.Prelude.{
  ℕ, zero, suc, ◌+◌, ◌-◌, ◌*◌, ◌/◌, ◌%◌, ◌^◌, ◌≤◌, ◌<◌, ◌≡◌, refl, sym, ap, ◌∙◌, inl, inr, Bool,
  true, false, ◌&&◌, ◌||◌, ltb, List, [], ◌∷◌, length, leb, ◌==◌, if◌then◌else◌, done, stop, fault,
  arith, Bool-cases, dec_lt,
}
use kingdo_micro_kernel.Prelude.Arith.{two_pow_pos}
use kingdo_micro_kernel.Printk.{digit, emit_digits}

-- The value of a character as a digit, the letters beginning at `letbase`.
abbrev pub digit_value : ℕ → ℕ → ℕ
digit_value letbase c = if leb letbase c then c - letbase + 10 else c - b'0'

-- A digit is a character from 0 to 9, or a letter below the base.
abbrev pub is_digit_of : ℕ → ℕ → ℕ → Bool
is_digit_of base letbase c =
    leb b'0' c && leb c b'9' && ltb (c - b'0') base || leb letbase c && ltb (c - letbase + 10) base

unfoldable pub all_digits : ℕ → ℕ → List ℕ → Bool
all_digits base letbase [] = true
all_digits base letbase (c ∷ s) = is_digit_of base letbase c && all_digits base letbase s

-- The number that a string of digits stands for, after the digits that stand for `n`.
unfoldable pub read_digits : ℕ → ℕ → List ℕ → ℕ → ℕ
read_digits base letbase [] n = n
read_digits base letbase (c ∷ s) n = read_digits base letbase s (n * base + digit_value letbase c)

digit_value-digit :
    (letbase t : ℕ) → t < 36 → 58 ≤ letbase → digit_value letbase (digit letbase t) ≡ t
unfolding digit
digit_value-digit letbase t small letters = ground arith

is_digit_of-digit :
    (base letbase t : ℕ)
    → t < base
    → base ≤ 36
    → 58 ≤ letbase
    → is_digit_of base letbase (digit letbase t) ≡ true
unfolding digit
is_digit_of-digit base letbase t small base_in letters = ground arith

module _ (base letbase : ℕ) (base_in : (2 ≤ base) × (base ≤ 36)) (letters : 58 ≤ letbase) where
  -- `s` is what the loop leaves for `u` before `acc`, at `pos'`, with room for `k` characters more.
  pub record IsWritten (k pos u : ℕ) (acc : List ℕ) (pos' : ℕ) (s : List ℕ) : Type 0 where
    pub reads : read_digits base letbase s 0 ≡ read_digits base letbase acc u
    pub digits : all_digits base letbase s ≡ all_digits base letbase acc
    pub in_buffer : pos' + length s ≡ pos + length acc
    pub room : k ≤ pos'

  fits_next :
      (k pos u : ℕ)
      → k ≤ suc pos
      → 0 < u
      → u < base ^ (suc pos - k)
      → (k ≤ pos) × (u / base < base ^ (pos - k))
  fits_next k pos u h more fits = elim (dec_lt pos k) [
    | yes full ↦
        let e : suc pos - k ≡ 0 = omega arith in
        absurd (omega (arith, fits, pow-zero base, ap (λ (n : ℕ). base ^ n) e))
    | no room ↦
        let e : suc pos - k ≡ suc (pos - k) = omega arith in
        (
          omega arith,
          (div-lt_iff_lt-mul {k = base} {x = u} {y = base ^ (pos - k)} (omega arith)).1
              (omega (arith, fits, pow-suc base (pos - k), ap (λ (n : ℕ). base ^ n) e)),
        )
  ]

  too_big_next : (pos u : ℕ) → base ^ suc pos ≤ u → base ^ pos ≤ u / base
  too_big_next pos u h =
      (le-div_iff_mul-le {k = base} {x = base ^ pos} {y = u} (omega arith)).1
        (omega (arith, h, pow-suc base pos))

  last_digit :
      (u : ℕ) (acc : List ℕ)
      → read_digits base letbase (digit letbase (u % base) ∷ acc) (u / base)
        ≡ read_digits base letbase acc u
  unfolding read_digits
  last_digit u acc =
      let v =
        digit_value-digit letbase (u % base) (omega (arith, mod-lt u {m = base} (omega arith)))
          letters in
      ap (read_digits base letbase acc) (omega (arith, v, div-add-mod' u base))

  next_digit :
      (u : ℕ) (acc : List ℕ)
      → all_digits base letbase (digit letbase (u % base) ∷ acc) ≡ all_digits base letbase acc
  unfolding all_digits
  next_digit u acc =
      rw
        (is_digit_of-digit base letbase (u % base) (mod-lt u {m = base} (omega arith)) base_in.1
          letters)
        refl

  -- The digits fit, with room for `k` characters, where the number is below the power of the base.
  pub emit_digits-IsWritten :
      (k pos u : ℕ) (acc : List ℕ)
      → k ≤ pos
      → u < base ^ (pos - k)
      → (pos' : ℕ) × (s : List ℕ) × (emit_digits base letbase pos u acc ≡ done (pos', s))
        × IsWritten k pos u acc pos' s
  unfolding emit_digits
  emit_digits-IsWritten k zero u acc room fits =
      let z : 0 - k ≡ 0 = omega arith in
      let e : u ≡ 0 = omega (arith, pow-zero base, ap (λ (n : ℕ). base ^ n) z) in
      (
        0,
        acc,
        ground (arith, e),
        record {
          reads = ap (read_digits base letbase acc) (sym e);
          digits = refl;
          in_buffer = refl;
          room = room;
        },
      )
  emit_digits-IsWritten k (suc pos) u acc room fits = elim (Bool-cases (u == 0)) [
    | inl none_left ↦
        let e : u ≡ 0 = ground arith in
        (
          suc pos,
          acc,
          rw none_left refl,
          record {
            reads = ap (read_digits base letbase acc) (sym e);
            digits = refl;
            in_buffer = refl;
            room = room;
          },
        )
    | inr more ↦
        let (room', fits') = fits_next k pos u room (ground arith) fits in
        let (pos', s, e, w) =
          emit_digits-IsWritten k pos (u / base) (digit letbase (u % base) ∷ acc) room' fits' in
        (
          pos',
          s,
          rw more e,
          record {
            reads = w.reads ∙ last_digit u acc;
            digits = w.digits ∙ next_digit u acc;
            in_buffer = omega (arith, w.in_buffer);
            room = w.room;
          },
        )
  ]

  -- More digits than there is room for.
  pub emit_digits-fault :
      (pos u : ℕ) (acc : List ℕ) → base ^ pos ≤ u → emit_digits base letbase pos u acc ≡ stop fault
  unfolding emit_digits
  emit_digits-fault zero u acc big =
      let some_left : (u == 0) ≡ false = ground (arith, pow-zero base) in rw some_left refl
  emit_digits-fault (suc pos) u acc big =
      let some_left : (u == 0) ≡ false = ground (
        arith,
        two_pow_pos (suc pos),
        pow-le-pow_left {n = 2} {m = base} (omega arith) (suc pos),
      ) in
      rw some_left
        (emit_digits-fault pos (u / base) (digit letbase (u % base) ∷ acc) (too_big_next pos u big))
